-- ===== src/Msgq/Removal.antt =====
-- When removeDisable of msgq/Msgq.go runs, and what it removes.
use part.Common.{
  Bool, Bool-cases, List, Option-cases, [], arith, drop, false, get_elem?, if◌then◌else◌, inl, inr,
  length, length-append, ltb, lt→ltb, not, refl, some, take, true, ℕ, ◌++◌, ◌+◌, ◌<◌, ◌||◌, ◌∷◌,
  ◌≡◌,
}
use part.Msgq.{
  Reg, Item, Msgq, new, remove_first, removal, remove_disable, remove_some, disable_item, cancel,
  clear_all, register, Outcome, cancel_each, find, is_linked, is_served, serve_item, push_loop, ids,
  push, Step, run_pending, step, run, register_step, cancel_step, clear_step, push_step,
  push_lock_step, removal_step,
}

-- Where the flag someNeedRemove is set, a goroutine is still to run the removal.
abbrev is_due : Bool → List ℕ → Bool
is_due some_need pending = not some_need || ltb 0 (length pending)

abbrev IsDue : Msgq → Type 0
IsDue m = is_due m.some_need_remove m.pending ≡ true

due-append : (b : Bool) (ts : List ℕ) (ty : ℕ) → is_due b (ts ++ (ty ∷ [])) ≡ true
due-append b ts ty =
    let l = length-append ts (ty ∷ []) in
    let many : ltb 0 (length (ts ++ (ty ∷ []))) ≡ true = lt→ltb _ _ (omega arith) in ground arith

removal-IsDue : (ty : ℕ) (m : Msgq) → IsDue (removal ty m)
unfolding removal
removal-IsDue ty m = refl

remove_disable-IsDue : (ty : ℕ) (l : Bool) (m : Msgq) → IsDue (remove_disable ty true l m)
unfolding remove_disable
remove_disable-IsDue ty false m = due-append m.some_need_remove m.pending ty
remove_disable-IsDue ty true m = removal-IsDue ty m

remove_some-IsDue : (ty : ℕ) (l : Bool) (m : Msgq) → IsDue m → IsDue (remove_some ty l m)
unfolding remove_some
remove_some-IsDue ty l m h = flagged m.some_need_remove
  where
    flagged :
        (b : Bool)
        → IsDue (
            if b
            then remove_disable ty false l m
            else remove_disable ty true l (record m { some_need_remove = true }))
    flagged false = remove_disable-IsDue ty l (record m { some_need_remove = true })
    flagged true = h

cancel-IsDue : (r : Reg) (m : Msgq) → IsDue m → IsDue (cancel r m)
unfolding cancel
cancel-IsDue r m h = remove_some-IsDue r.ty false (record m { funcs = disable_item r.id m.funcs }) h

cancel_each-IsDue : (rs : List Reg) (m : Msgq) → IsDue m → IsDue (cancel_each rs m)
unfolding cancel_each
cancel_each-IsDue [] m h = h
cancel_each-IsDue (r ∷ rs) m h = cancel_each-IsDue rs (cancel r m) (cancel-IsDue r m h)

register-IsDue : (r : Reg) (front : Bool) (m : Msgq) → IsDue m → IsDue (register r front m)
unfolding register
register-IsDue r front m h = removed m.all_need_remove
  where
    removed : (a : Bool) → IsDue (if a then remove_some r.ty true m else m)
    removed false = h
    removed true = remove_some-IsDue r.ty true m h

run_pending-IsDue : (k : ℕ) (m : Msgq) → IsDue m → IsDue (run_pending k m)
unfolding run_pending
run_pending-IsDue k m h =
    let m' : Msgq = record m { pending = take k m.pending ++ drop (k + 1) m.pending } in
    elim (Option-cases (get_elem? m.pending k)) [
      | inl nobody ↦ rw (run_pending, nobody) h
      | inr (ty, e) ↦ rw (run_pending, e) (removal-IsDue ty m')
    ]

waiting :
    (b : Bool) (ts : List ℕ)
    → is_due b ts ≡ true
    → b ≡ true
    → (ty : ℕ) × (0 < length ts) × (get_elem? ts 0 ≡ some ty)
waiting b [] h e = absurd (ground arith)
waiting b (ty ∷ ts) h e = (ty, omega arith, refl)

due_runs :
    (m : Msgq)
    → IsDue m
    → m.some_need_remove ≡ true
    → (0 < length m.pending) × ((run_pending 0 m).some_need_remove ≡ false)
unfolding run_pending removal
due_runs m h e =
    let found = waiting m.some_need_remove m.pending h e in
    (found.1, rw (run_pending, found.2) refl)

module _ {ℓ κ} {Msg : Type ℓ} {W : Type κ} (type_of : Msg → ℕ)
    (handle : ℕ → Msg → W → Outcome W) where
  serve_item-IsDue :
      (msg : Msg) (l : Bool) (x : Item) (m : Msgq) (w : W)
      → IsDue m
      → IsDue (serve_item type_of handle msg l x m w).0
  unfolding serve_item clear_all
  serve_item-IsDue msg l x m w h =
      let o = handle x.reg.id msg w in
      let m₁ = cancel_each o.cancels m in
      cleared o.clears o.result m₁ (cancel_each-IsDue o.cancels m h)
    where
      returned :
          (r : Bool) (m₂ : Msgq)
          → IsDue m₂
          → IsDue (
              if r
              then remove_some
                  (type_of msg)
                  l
                  (record m₂ { funcs = disable_item x.reg.id m₂.funcs })
              else m₂)
      returned false m₂ h = h
      returned true m₂ h =
          remove_some-IsDue (type_of msg) l (record m₂ { funcs = disable_item x.reg.id m₂.funcs }) h

      cleared :
          (c r : Bool) (m₁ : Msgq)
          → IsDue m₁
          → let m₂ : Msgq = if c then clear_all m₁ else m₁ in
            IsDue (
              if r
              then remove_some
                  (type_of msg)
                  l
                  (record m₂ { funcs = disable_item x.reg.id m₂.funcs })
              else m₂)
      cleared false r m₁ h = returned r m₁ h
      cleared true r m₁ h = returned r (clear_all m₁) h

  push_loop-IsDue :
      (msg : Msg) (l : Bool) (js : List ℕ) (m : Msgq) (w : W)
      → IsDue m
      → IsDue (push_loop type_of handle msg l js m w).queue
  unfolding push_loop
  push_loop-IsDue msg l [] m w h = h
  push_loop-IsDue msg l (j ∷ js) m w h = elim (Option-cases (find j m.funcs)) [
    | inl gone ↦ rw (push_loop, gone) (push_loop-IsDue msg l js m w h)
    | inr (x, found) ↦ elim (Bool-cases (is_served (type_of msg) x)) [
      | inr not_served ↦ rw (push_loop, found, not_served) (push_loop-IsDue msg l js m w h)
      | inl served ↦
          let s = serve_item type_of handle msg l x m w in
          let h' = serve_item-IsDue msg l x m w h in
          let on = push_loop-IsDue msg l js s.0 s.1 h' in
          elim (Bool-cases (is_linked j s.0.funcs)) [
            | inl linked ↦ rw (push_loop, found, served, linked) on
            | inr unlinked ↦ rw (push_loop, found, served, unlinked) h'
          ]
    ]
  ]

  push-IsDue :
      (msg : Msg) (l : Bool) (m : Msgq) (w : W)
      → IsDue m
      → IsDue (push type_of handle msg l m w).queue
  unfolding push
  push-IsDue msg l m w h = flagged m.all_need_remove l
    where
      flagged :
          (a l : Bool)
          → let m' : Msgq = remove_disable (type_of msg) true l m in
            IsDue
              (if a
                then (if l
                    then push_loop type_of handle msg true (ids m'.funcs) m' w
                    else record { queue = m'; world = w; calls = [] })
                else push_loop type_of handle msg l (ids m.funcs) m w).queue
      flagged false l = push_loop-IsDue msg l (ids m.funcs) m w h
      flagged true false = remove_disable-IsDue (type_of msg) false m
      flagged true true =
          push_loop-IsDue msg true _ (remove_disable (type_of msg) true true m) w
            (remove_disable-IsDue (type_of msg) true m)

  step-IsDue : (x : Step Msg) (m : Msgq) (w : W) → IsDue m → IsDue (step type_of handle x m w).queue
  unfolding step clear_all
  step-IsDue (register_step r front) m w h = register-IsDue r front m h
  step-IsDue (cancel_step r) m w h = cancel-IsDue r m h
  step-IsDue clear_step m w h = h
  step-IsDue (push_step msg) m w h = push-IsDue msg false m w h
  step-IsDue (push_lock_step msg) m w h = push-IsDue msg true m w h
  step-IsDue (removal_step k) m w h = run_pending-IsDue k m h

  run-IsDue :
      (xs : List (Step Msg)) (m : Msgq) (w : W) → IsDue m → IsDue (run type_of handle xs m w).queue
  unfolding run
  run-IsDue [] m w h = h
  run-IsDue (x ∷ xs) m w h =
      let r = step type_of handle x m w in run-IsDue xs r.queue r.world (step-IsDue x m w h)

  -- In any sequence of steps from a new queue, a removal that has been asked for is not lost:
  -- while someNeedRemove is set, and so keeps others from asking for one, a goroutine that will run
  -- it, and then reset the flag, waits for the lock.
  pub run_removes :
      (xs : List (Step Msg)) (w : W)
      → (run type_of handle xs new w).queue.some_need_remove ≡ true
      → let m = (run type_of handle xs new w).queue in
        (0 < length m.pending) × ((run_pending 0 m).some_need_remove ≡ false)
  unfolding new
  run_removes xs w h = due_runs _ (run-IsDue xs new w refl) h

  -- The next PushLock after ClearAll gives its message to every function but the first of the list:
  -- the clearing takes only that one out.
  pub clear_all-push_lock :
      (msg : Msg) (x : Item) (xs : List Item) (some_need : Bool) (pending : List ℕ) (w : W)
      → let before : Msgq = record {
        funcs = x ∷ xs;
        some_need_remove = some_need;
        all_need_remove = false;
        pending = pending;
      } in
        let after : Msgq = record {
          funcs = xs;
          some_need_remove = false;
          all_need_remove = false;
          pending = pending;
        } in
        push type_of handle msg true (clear_all before) w ≡ push type_of handle msg true after w
  unfolding push clear_all remove_disable removal remove_first
  clear_all-push_lock msg x xs some_need pending w = refl
