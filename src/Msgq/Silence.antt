-- ===== src/Msgq/Silence.antt =====
-- A registered function that has been disabled is never called again (msgq/Msgq.go).
use part.Common.{
  ==_iff, Bool, Bool-cases, List, Option-cases, [], ap, arith, drop, false, get_elem?,
  if◌then◌else◌, inl, inr, not, refl, some, take, true, ℕ, ◌&&◌, ◌++◌, ◌+◌, ◌==◌, ◌||◌, ◌∙◌, ◌∷◌,
  ◌≡◌,
}
use part.Msgq.{
  Reg, Item, Msgq, remove_first, removal, remove_disable, remove_some, disable_item, cancel,
  clear_all, register, Outcome, cancel_each, find, Run, is_linked, is_served, serve_item, push_loop,
  ids, push, Step, run_pending, step, run, register_step, cancel_step, clear_step, push_step,
  push_lock_step, removal_step,
}

-- No element with this name is enabled.
unfoldable pub is_off : ℕ → List Item → Bool
is_off i [] = true
is_off i (x ∷ xs) = (not (x.reg.id == i) || x.disable) && is_off i xs

unfoldable pub is_in : ℕ → List ℕ → Bool
is_in i [] = false
is_in i (j ∷ js) = (i == j) || is_in i js

is_in-append : (i : ℕ) (xs ys : List ℕ) → is_in i (xs ++ ys) ≡ (is_in i xs || is_in i ys)
unfolding is_in
is_in-append i [] ys = refl
is_in-append i (x ∷ xs) ys = ground (arith, is_in-append i xs ys)

is_off-append : (i : ℕ) (xs ys : List Item) → is_off i (xs ++ ys) ≡ (is_off i xs && is_off i ys)
unfolding is_off
is_off-append i [] ys = refl
is_off-append i (x ∷ xs) ys = ground (arith, is_off-append i xs ys)

is_off-remove_first :
    (i : ℕ) (p : Item → Bool) (xs : List Item)
    → is_off i xs ≡ true
    → is_off i (remove_first p xs) ≡ true
unfolding is_off remove_first
is_off-remove_first i p [] h = refl
is_off-remove_first i p (x ∷ xs) h = ground (arith, is_off-remove_first i p xs)

is_off-disable_item :
    (i j : ℕ) (xs : List Item) → is_off i xs ≡ true → is_off i (disable_item j xs) ≡ true
unfolding is_off disable_item
is_off-disable_item i j [] h = refl
is_off-disable_item i j (x ∷ xs) h = ground (arith, is_off-disable_item i j xs)

pub is_off-disable_self : (i : ℕ) (xs : List Item) → is_off i (disable_item i xs) ≡ true
unfolding is_off disable_item
is_off-disable_self i [] = refl
is_off-disable_self i (x ∷ xs) = ground (arith, is_off-disable_self i xs)

is_off-removal :
    (i ty : ℕ) (m : Msgq) → is_off i m.funcs ≡ true → is_off i (removal ty m).funcs ≡ true
unfolding removal
is_off-removal i ty m h = is_off-remove_first i _ m.funcs h

is_off-remove_disable :
    (i ty : ℕ) (sig l : Bool) (m : Msgq)
    → is_off i m.funcs ≡ true
    → is_off i (remove_disable ty sig l m).funcs ≡ true
unfolding remove_disable
is_off-remove_disable i ty false l m h = h
is_off-remove_disable i ty true false m h = h
is_off-remove_disable i ty true true m h = is_off-removal i ty m h

pub is_off-remove_some :
    (i ty : ℕ) (l : Bool) (m : Msgq)
    → is_off i m.funcs ≡ true
    → is_off i (remove_some ty l m).funcs ≡ true
unfolding remove_some
is_off-remove_some i ty l m h = elim (Bool-cases m.some_need_remove) [
  | inl e ↦ rw e (is_off-remove_disable i ty false l m h)
  | inr e ↦ rw e (is_off-remove_disable i ty true l (record m { some_need_remove = true }) h)
]

is_off-cancel :
    (i : ℕ) (r : Reg) (m : Msgq) → is_off i m.funcs ≡ true → is_off i (cancel r m).funcs ≡ true
unfolding cancel
is_off-cancel i r m h = is_off-remove_some i r.ty false _ (is_off-disable_item i r.id m.funcs h)

pub is_off-cancel_each :
    (i : ℕ) (rs : List Reg) (m : Msgq)
    → is_off i m.funcs ≡ true
    → is_off i (cancel_each rs m).funcs ≡ true
unfolding cancel_each
is_off-cancel_each i [] m h = h
is_off-cancel_each i (r ∷ rs) m h = is_off-cancel_each i rs (cancel r m) (is_off-cancel i r m h)

is_off-find :
    (i : ℕ) (xs : List Item) (x : Item) → is_off i xs ≡ true → find i xs ≡ some x → x.disable ≡ true
unfolding is_off find
is_off-find i [] x h e = cc
is_off-find i (y ∷ xs) x h e = elim (Bool-cases (y.reg.id == i)) [
  | inl same ↦
      let found : some y ≡ some x = ground arith in let at : y.disable ≡ true = ground arith in cc
  | inr other ↦ is_off-find i xs x (ground arith) (ground arith)
]

served_other :
    (i j ty : ℕ) (xs : List Item) (x : Item)
    → is_off i xs ≡ true
    → find j xs ≡ some x
    → is_served ty x ≡ true
    → (i == j) ≡ false
unfolding is_served
served_other i j ty xs x h found served = elim (Bool-cases (i == j)) [
  | inr other ↦ other
  | inl same ↦
      let e : i ≡ j = (==_iff i j).0 same in
      let found' : find i xs ≡ some x = ap (λ k. find k xs) e ∙ found in
      let off : x.disable ≡ true = is_off-find i xs x h found' in absurd (ground arith)
]

-- Whether a step registers a function under the name.
unfoldable pub registers {ℓ} : {Msg : Type ℓ} → ℕ → Step Msg → Bool
registers i (register_step r front) = i == r.id
registers i _ = false

unfoldable pub some_registers {ℓ} : {Msg : Type ℓ} → ℕ → List (Step Msg) → Bool
unfolding registers
some_registers i [] = false
some_registers i (x ∷ xs) = registers i x || some_registers i xs

is_off-register :
    (i : ℕ) (r : Reg) (front : Bool) (m : Msgq)
    → is_off i m.funcs ≡ true
    → (i == r.id) ≡ false
    → is_off i (register r front m).funcs ≡ true
unfolding register is_off
is_off-register i r front m h other = put front _ (removed m.all_need_remove)
  where
    removed : (a : Bool) → is_off i (if a then remove_some r.ty true m else m).funcs ≡ true
    removed false = h
    removed true = is_off-remove_some i r.ty true m h

    put :
        (front : Bool) (ys : List Item)
        → is_off i ys ≡ true
        → let x : Item = record { reg = r; disable = false } in
          is_off i (if front then x ∷ ys else ys ++ (x ∷ [])) ≡ true
    put true ys h = ground arith
    put false ys h = ground (arith, is_off-append i ys (record { reg = r; disable = false } ∷ []))

is_off-run_pending :
    (i k : ℕ) (m : Msgq) → is_off i m.funcs ≡ true → is_off i (run_pending k m).funcs ≡ true
unfolding run_pending
is_off-run_pending i k m h =
    let m' : Msgq = record m { pending = take k m.pending ++ drop (k + 1) m.pending } in
    elim (Option-cases (get_elem? m.pending k)) [
      | inl nobody ↦ rw (run_pending, nobody) h
      | inr (ty, e) ↦ rw (run_pending, e) (is_off-removal i ty m' h)
    ]

-- What is left of serve_item after the cancels.
pub is_off-finish :
    (i ty j : ℕ) (l clears result : Bool) (m : Msgq)
    → is_off i m.funcs ≡ true
    → let m₂ : Msgq = if clears then clear_all m else m in
      is_off i
        (if result
          then remove_some ty l (record m₂ { funcs = disable_item j m₂.funcs })
          else m₂).funcs
      ≡ true
unfolding clear_all
is_off-finish i ty j l false false m h = h
is_off-finish i ty j l true false m h = h
is_off-finish i ty j l false true m h =
    is_off-remove_some i ty l (record m { funcs = disable_item j m.funcs })
      (is_off-disable_item i j m.funcs h)
is_off-finish i ty j l true true m h =
    is_off-remove_some i ty l (record m { funcs = disable_item j m.funcs; all_need_remove = true })
      (is_off-disable_item i j m.funcs h)

module _ {ℓ κ} {Msg : Type ℓ} {W : Type κ} (type_of : Msg → ℕ)
    (handle : ℕ → Msg → W → Outcome W) where
  is_off-serve_item :
      (i : ℕ) (msg : Msg) (l : Bool) (x : Item) (m : Msgq) (w : W)
      → is_off i m.funcs ≡ true
      → is_off i (serve_item type_of handle msg l x m w).0.funcs ≡ true
  unfolding serve_item
  is_off-serve_item i msg l x m w h =
      let o = handle x.reg.id msg w in
      is_off-finish i (type_of msg) x.reg.id l o.clears o.result (cancel_each o.cancels m)
        (is_off-cancel_each i o.cancels m h)

  -- Nothing with this name is enabled in the end, and it has not been called.
  abbrev IsSilent : ℕ → Run W → Type 0
  IsSilent i r = (is_off i r.queue.funcs ≡ true) × (is_in i r.calls ≡ false)

  push_loop-IsSilent :
      (i : ℕ) (msg : Msg) (l : Bool) (js : List ℕ) (m : Msgq) (w : W)
      → is_off i m.funcs ≡ true
      → IsSilent i (push_loop type_of handle msg l js m w)
  unfolding push_loop is_in is_served
  push_loop-IsSilent i msg l [] m w h = (h, refl)
  push_loop-IsSilent i msg l (j ∷ js) m w h = elim (Option-cases (find j m.funcs)) [
    | inl gone ↦ rw (push_loop, gone) (push_loop-IsSilent i msg l js m w h)
    | inr (x, found) ↦ elim (Bool-cases (is_served (type_of msg) x)) [
      | inr not_served ↦ rw (push_loop, found, not_served) (push_loop-IsSilent i msg l js m w h)
      | inl served ↦
          let s = serve_item type_of handle msg l x m w in
          let other : (i == j) ≡ false = served_other i j (type_of msg) m.funcs x h found served in
          let h' : is_off i s.0.funcs ≡ true = is_off-serve_item i msg l x m w h in
          let on = push_loop-IsSilent i msg l js s.0 s.1 h' in
          elim (Bool-cases (is_linked j s.0.funcs)) [
            | inl linked ↦ rw (push_loop, found, served, linked) (on.0, rw other on.1)
            | inr unlinked ↦ rw (push_loop, found, served, unlinked) (h', rw other refl)
          ]
    ]
  ]

  push-IsSilent :
      (i : ℕ) (msg : Msg) (l : Bool) (m : Msgq) (w : W)
      → is_off i m.funcs ≡ true
      → IsSilent i (push type_of handle msg l m w)
  unfolding push is_in
  push-IsSilent i msg l m w h = flagged m.all_need_remove l
    where
      flagged :
          (a l : Bool)
          → let m' : Msgq = remove_disable (type_of msg) true l m in
            IsSilent i (
              if a
              then (if l
                  then push_loop type_of handle msg true (ids m'.funcs) m' w
                  else record { queue = m'; world = w; calls = [] })
              else push_loop type_of handle msg l (ids m.funcs) m w)
      flagged false l = push_loop-IsSilent i msg l (ids m.funcs) m w h
      flagged true false = (is_off-remove_disable i (type_of msg) true false m h, refl)
      flagged true true =
          push_loop-IsSilent i msg true _ _ w (is_off-remove_disable i (type_of msg) true true m h)

  step-IsSilent :
      (i : ℕ) (x : Step Msg) (m : Msgq) (w : W)
      → is_off i m.funcs ≡ true
      → registers i x ≡ false
      → IsSilent i (step type_of handle x m w)
  unfolding step registers is_in clear_all
  step-IsSilent i (register_step r front) m w h n = (is_off-register i r front m h n, refl)
  step-IsSilent i (cancel_step r) m w h n = (is_off-cancel i r m h, refl)
  step-IsSilent i clear_step m w h n = (h, refl)
  step-IsSilent i (push_step msg) m w h n = push-IsSilent i msg false m w h
  step-IsSilent i (push_lock_step msg) m w h n = push-IsSilent i msg true m w h
  step-IsSilent i (removal_step k) m w h n = (is_off-run_pending i k m h, refl)

  pub run-IsSilent :
      (i : ℕ) (xs : List (Step Msg)) (m : Msgq) (w : W)
      → is_off i m.funcs ≡ true
      → some_registers i xs ≡ false
      → is_in i (run type_of handle xs m w).calls ≡ false
  unfolding run some_registers is_in
  run-IsSilent i [] m w h n = refl
  run-IsSilent i (x ∷ xs) m w h n =
      let r = step type_of handle x m w in
      let first = step-IsSilent i x m w h (ground arith) in
      let rest = run-IsSilent i xs r.queue r.world first.0 (ground arith) in
      let calls = is_in-append i r.calls (run type_of handle xs r.queue r.world).calls in
      ground arith

  -- Once the cancel function of a registration has been called, the registered function is not
  -- called in any sequence of steps that does not register it again: pushes with either lock,
  -- whatever the functions that are called do, ClearAll, other registrations and cancels, and
  -- removals at any time.
  pub cancel-run_silent :
      (r : Reg) (xs : List (Step Msg)) (m : Msgq) (w : W)
      → some_registers r.id xs ≡ false
      → is_in r.id (run type_of handle xs (cancel r m) w).calls ≡ false
  unfolding cancel
  cancel-run_silent r xs m w h =
      run-IsSilent r.id xs (cancel r m) w
        (is_off-remove_some r.id r.ty false _ (is_off-disable_self r.id m.funcs)) h
