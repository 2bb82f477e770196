-- ===== src/FuncCtrl/BlockSeq.antt =====
-- `BlockSeqFunc` of funcCtrl/FuncCtrl.go: the callers of Block and BlockCtx in the order in which
-- they swap the pointer. Each waits for the channel of the one before it, the first for the closed
-- channel of NewBlockSeqFunc, and closes its own when it is done.
pub mod Order
mod Tests
use part.Common.{
  ==_iff, ==_refl, Bool, Bool-cases, List, Option, Option-cases, [], ap, append-nil, append_assoc,
  ap₂, arith, drop, drop-append_exact, drop-append_sum, drop-drop, drop-min, drop-take, drop_all,
  false, get_elem?, if◌then◌else◌, inl, inr, leb, leb→le, length, length-append, length-drop,
  length-replicate, length-set, length-take, le→leb, le→not_ltb, ltb, ltb→lt, lt→ltb, max, min,
  negsuc, none, not, pos, refl, replicate, require, set, some, suc, sym, take, take-append,
  take-append-drop, take-append_exact, take-append_sum, take-min, take-take, take_all, true, zero,
  ℕ, ℤ, ◌%◌, ◌&&◌, ◌*◌, ◌++◌, ◌+◌, ◌-◌, ◌/◌, ◌<◌, ◌==◌, ◌>>=◌, ◌>>◌, ◌^◌, ◌||◌, ◌↔◌, ◌∙◌, ◌∷◌, ◌≡◌,
  ◌≢◌, ◌≤◌, ◌⊎◌,
}

-- A caller waits, has got its done function, or has closed its channel.
pub data Phase : Type 0 where
  waiting running finished : Phase

abbrev pub is_closed : Phase → Bool
is_closed finished = true
is_closed _ = false

unfoldable pub new_block_seq_func : List Phase
new_block_seq_func = []

-- The swap.
unfoldable pub arrive : List Phase → List Phase
arrive ts = ts ++ (waiting ∷ [])

-- The receive of the caller `i` from the channel before it, where `closed` says whether that of the
-- caller before the list is closed.
unfoldable pub enter : ℕ → Bool → List Phase → List Phase
enter i closed [] = []
enter zero true (waiting ∷ ts) = running ∷ ts
enter zero true (running ∷ ts) = running ∷ ts
enter zero true (finished ∷ ts) = finished ∷ ts
enter zero false (t ∷ ts) = t ∷ ts
enter (suc i) closed (t ∷ ts) = t ∷ enter i (is_closed t) ts

-- The done function.
unfoldable pub close_own : ℕ → List Phase → List Phase
close_own i [] = []
close_own zero (running ∷ ts) = finished ∷ ts
close_own zero (waiting ∷ ts) = waiting ∷ ts
close_own zero (finished ∷ ts) = finished ∷ ts
close_own (suc i) (t ∷ ts) = t ∷ close_own i ts

-- BlockCtx where the context is done first: it has swapped the pointer, and closes its channel.
unfoldable pub give_up : ℕ → List Phase → List Phase
give_up i [] = []
give_up zero (waiting ∷ ts) = finished ∷ ts
give_up zero (running ∷ ts) = running ∷ ts
give_up zero (finished ∷ ts) = finished ∷ ts
give_up (suc i) (t ∷ ts) = t ∷ give_up i ts

pub data Step : Type 0 where
  arrive_step : Step
  enter_step : ℕ → Step
  done_step : ℕ → Step
  give_up_step : ℕ → Step

unfoldable pub step : Step → List Phase → List Phase
unfolding arrive enter close_own give_up
step arrive_step ts = arrive ts
step (enter_step i) ts = enter i true ts
step (done_step i) ts = close_own i ts
step (give_up_step i) ts = give_up i ts

unfoldable pub run : List Step → List Phase → List Phase
unfolding step
run [] ts = ts
run (x ∷ xs) ts = run xs (step x ts)
