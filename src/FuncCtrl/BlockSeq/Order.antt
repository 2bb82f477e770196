-- ===== src/FuncCtrl/BlockSeq/Order.antt =====
-- Block of BlockSeqFunc (funcCtrl/FuncCtrl.go) lets its callers in one by one, in order.
use part.Common.{
  List, [], arith, false, get_elem?, refl, some, suc, true, zero, ℕ, ◌<◌, ◌∷◌, ◌≡◌, ◌≢◌,
}
use part.FuncCtrl.BlockSeq.{
  Phase, waiting, running, finished, new_block_seq_func, arrive, enter, close_own, Step,
  arrive_step, enter_step, done_step, give_up_step, run,
}

abbrev AreWaiting : List Phase → Type 0
AreWaiting [] = Unit
AreWaiting (t ∷ ts) = (t ≡ waiting) × AreWaiting ts

-- Callers that are done, then at most one that runs, then callers that wait.
abbrev AreOrdered : List Phase → Type 0
AreOrdered [] = Unit
AreOrdered (finished ∷ ts) = AreOrdered ts
AreOrdered (running ∷ ts) = AreWaiting ts
AreOrdered (waiting ∷ ts) = AreWaiting ts

-- No context ends a wait.
abbrev pub ArePatient : List Step → Type 0
ArePatient [] = Unit
ArePatient (arrive_step ∷ xs) = ArePatient xs
ArePatient (enter_step i ∷ xs) = ArePatient xs
ArePatient (done_step i ∷ xs) = ArePatient xs
ArePatient (give_up_step i ∷ xs) = ⊥

AreWaiting-arrive : (ts : List Phase) → AreWaiting ts → AreWaiting (arrive ts)
unfolding arrive
AreWaiting-arrive [] h = (refl, tt)
AreWaiting-arrive (t ∷ ts) (e, h) = (e, AreWaiting-arrive ts h)

AreOrdered-arrive : (ts : List Phase) → AreOrdered ts → AreOrdered (arrive ts)
unfolding arrive
AreOrdered-arrive [] h = tt
AreOrdered-arrive (finished ∷ ts) h = AreOrdered-arrive ts h
AreOrdered-arrive (running ∷ ts) h = AreWaiting-arrive ts h
AreOrdered-arrive (waiting ∷ ts) h = AreWaiting-arrive ts h

AreWaiting-enter : (i : ℕ) (ts : List Phase) → AreWaiting ts → AreWaiting (enter i false ts)
unfolding enter
AreWaiting-enter i [] h = tt
AreWaiting-enter zero (t ∷ ts) h = h
AreWaiting-enter (suc i) (waiting ∷ ts) (e, h) = (e, AreWaiting-enter i ts h)
AreWaiting-enter (suc i) (running ∷ ts) (e, h) = absurd (cc)
AreWaiting-enter (suc i) (finished ∷ ts) (e, h) = absurd (cc)

AreOrdered-enter : (i : ℕ) (ts : List Phase) → AreOrdered ts → AreOrdered (enter i true ts)
unfolding enter
AreOrdered-enter i [] h = tt
AreOrdered-enter zero (waiting ∷ ts) h = h
AreOrdered-enter zero (running ∷ ts) h = h
AreOrdered-enter zero (finished ∷ ts) h = h
AreOrdered-enter (suc i) (finished ∷ ts) h = AreOrdered-enter i ts h
AreOrdered-enter (suc i) (running ∷ ts) h = AreWaiting-enter i ts h
AreOrdered-enter (suc i) (waiting ∷ ts) h = AreWaiting-enter i ts h

AreWaiting-close_own : (i : ℕ) (ts : List Phase) → AreWaiting ts → AreWaiting (close_own i ts)
unfolding close_own
AreWaiting-close_own i [] h = tt
AreWaiting-close_own zero (waiting ∷ ts) h = h
AreWaiting-close_own zero (running ∷ ts) (e, h) = absurd (cc)
AreWaiting-close_own zero (finished ∷ ts) h = h
AreWaiting-close_own (suc i) (t ∷ ts) (e, h) = (e, AreWaiting-close_own i ts h)

AreOrdered-waiting : (ts : List Phase) → AreWaiting ts → AreOrdered ts
AreOrdered-waiting [] h = tt
AreOrdered-waiting (waiting ∷ ts) (e, h) = h
AreOrdered-waiting (running ∷ ts) (e, h) = h
AreOrdered-waiting (finished ∷ ts) (e, h) = absurd (cc)

AreOrdered-close_own : (i : ℕ) (ts : List Phase) → AreOrdered ts → AreOrdered (close_own i ts)
unfolding close_own
AreOrdered-close_own i [] h = tt
AreOrdered-close_own zero (running ∷ ts) h = AreOrdered-waiting ts h
AreOrdered-close_own zero (waiting ∷ ts) h = h
AreOrdered-close_own zero (finished ∷ ts) h = h
AreOrdered-close_own (suc i) (finished ∷ ts) h = AreOrdered-close_own i ts h
AreOrdered-close_own (suc i) (running ∷ ts) h = AreWaiting-close_own i ts h
AreOrdered-close_own (suc i) (waiting ∷ ts) h = AreWaiting-close_own i ts h

AreOrdered-run :
    (xs : List Step) (ts : List Phase) → ArePatient xs → AreOrdered ts → AreOrdered (run xs ts)
unfolding run
AreOrdered-run [] ts p h = h
AreOrdered-run (arrive_step ∷ xs) ts p h = AreOrdered-run xs (arrive ts) p (AreOrdered-arrive ts h)
AreOrdered-run (enter_step i ∷ xs) ts p h =
    AreOrdered-run xs (enter i true ts) p (AreOrdered-enter i ts h)
AreOrdered-run (done_step i ∷ xs) ts p h =
    AreOrdered-run xs (close_own i ts) p (AreOrdered-close_own i ts h)
AreOrdered-run (give_up_step i ∷ xs) ts p h = absurd p

waiting-get :
    (ts : List Phase) (j : ℕ) (x : Phase) → AreWaiting ts → get_elem? ts j ≡ some x → x ≡ waiting
waiting-get [] j x h e = absurd (cc)
waiting-get (t ∷ ts) zero x (w, h) e = cc
waiting-get (t ∷ ts) (suc j) x (w, h) e = waiting-get ts j x h e

ordered-get :
    (ts : List Phase) (i j : ℕ) (x : Phase)
    → AreOrdered ts
    → i < j
    → get_elem? ts j ≡ some x
    → x ≢ waiting
    → get_elem? ts i ≡ some finished
ordered-get [] i j x h lt e n = absurd (cc)
ordered-get (t ∷ ts) i zero x h lt e n = absurd (omega arith)
ordered-get (finished ∷ ts) zero (suc j) x h lt e n = refl
ordered-get (finished ∷ ts) (suc i) (suc j) x h lt e n = ordered-get ts i j x h (omega arith) e n
ordered-get (running ∷ ts) i (suc j) x h lt e n = absurd (n (waiting-get ts j x h e))
ordered-get (waiting ∷ ts) i (suc j) x h lt e n = absurd (n (waiting-get ts j x h e))

-- As long as no context ends a wait: a caller that has been let in, or is done, came after callers
-- that are all done. So at most one runs at a time, in the order in which they came.
pub run_in_order :
    (xs : List Step) (i j : ℕ) (x : Phase)
    → ArePatient xs
    → i < j
    → get_elem? (run xs new_block_seq_func) j ≡ some x
    → x ≢ waiting
    → get_elem? (run xs new_block_seq_func) i ≡ some finished
unfolding new_block_seq_func
run_in_order xs i j x p lt e n = ordered-get (run xs []) i j x (AreOrdered-run xs [] p tt) lt e n
