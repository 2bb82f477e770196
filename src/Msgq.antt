-- ===== src/Msgq.antt =====
-- `Msgq` of msgq/Msgq.go: the list of registered functions, the two flags, and the goroutines that
-- wait for the write lock to run removeDisable. A registration is named by a number (its pointer)
-- and by the number of its message type T; what the registered functions do is a parameter, and
-- they may call the cancel functions and ClearAll. One operation is one step.
pub mod Removal
pub mod Serving
pub mod Silence
pub mod Stopping
pub mod Tags
mod Tests
use part.Common.{
  ==_iff, ==_refl, Bool, Bool-cases, List, Option, [], ap, append-nil, append_assoc, ap₂, arith,
  drop, drop-append_exact, drop-append_sum, drop-drop, drop-min, drop-take, drop_all, false,
  get_elem?, if◌then◌else◌, inl, inr, leb, leb→le, length, length-append, length-drop,
  length-replicate, length-set, length-take, le→leb, ltb, ltb→lt, lt→ltb, max, min, negsuc, none,
  not, pos, refl, replicate, require, set, some, suc, sym, take, take-append, take-append-drop,
  take-append_exact, take-append_sum, take-min, take-take, take_all, true, zero, ℕ, ℤ, ◌%◌, ◌&&◌,
  ◌*◌, ◌++◌, ◌+◌, ◌-◌, ◌/◌, ◌<◌, ◌==◌, ◌>>=◌, ◌>>◌, ◌^◌, ◌||◌, ◌↔◌, ◌∙◌, ◌∷◌, ◌≡◌, ◌≢◌, ◌≤◌, ◌⊎◌,
}

pub record Reg : Type 0 where
  pub id : ℕ
  pub ty : ℕ

-- msgqItem
pub record Item : Type 0 where
  pub reg : Reg
  pub disable : Bool

-- `pending` holds the message type of each goroutine that is still to run the removal.
pub record Msgq : Type 0 where
  pub funcs : List Item
  pub some_need_remove : Bool
  pub all_need_remove : Bool
  pub pending : List ℕ

unfoldable pub new : Msgq
new = record { funcs = []; some_need_remove = false; all_need_remove = false; pending = [] }

-- list.Remove takes the element out and leaves it without a next one, so the loop of removeDisable
-- ends at the first element that it removes.
unfoldable pub remove_first : (Item → Bool) → List Item → List Item
remove_first p [] = []
remove_first p (x ∷ xs) = if p x then xs else x ∷ remove_first p xs

-- `f` in removeDisable[T], under the write lock; `ty` is T.
unfoldable pub removal : ℕ → Msgq → Msgq
unfolding remove_first
removal ty m = record m {
  funcs = remove_first (λ x. m.all_need_remove || ((x.reg.ty == ty) && x.disable)) m.funcs;
  all_need_remove = false;
  some_need_remove = false;
}

unfoldable pub remove_disable : ℕ → Bool → Bool → Msgq → Msgq
unfolding removal
remove_disable ty sig is_lock m =
    if sig
    then (if is_lock then removal ty m else record m { pending = m.pending ++ (ty ∷ []) })
    else m

-- m.removeDisable[T](m.someNeedRemove.CompareAndSwap(false, true), isLock)
unfoldable pub remove_some : ℕ → Bool → Msgq → Msgq
unfolding remove_disable
remove_some ty is_lock m =
    if m.some_need_remove
    then remove_disable ty false is_lock m
    else remove_disable ty true is_lock (record m { some_need_remove = true })

-- mp.disable.Store(true)
unfoldable pub disable_item : ℕ → List Item → List Item
disable_item i [] = []
disable_item i (x ∷ xs) =
    (if x.reg.id == i then record x { disable = true } else x) ∷ disable_item i xs

-- The function that Register returns.
unfoldable pub cancel : Reg → Msgq → Msgq
unfolding remove_some disable_item
cancel r m = remove_some r.ty false (record m { funcs = disable_item r.id m.funcs })

unfoldable pub clear_all : Msgq → Msgq
clear_all m = record m { all_need_remove = true }

-- Register and RegisterFront.
unfoldable pub register : Reg → Bool → Msgq → Msgq
unfolding remove_some
register r front m =
    let m' : Msgq = if m.all_need_remove then remove_some r.ty true m else m in
    let x : Item = record { reg = r; disable = false } in
    record m' { funcs = if front then x ∷ m'.funcs else m'.funcs ++ (x ∷ []) }

-- What a call of a registered function does: the new state of its own world, its result, the
-- registrations that it cancels before it returns, and whether it then calls ClearAll.
pub record Outcome {ℓ} (W : Type ℓ) : Type ℓ where
  pub world : W
  pub result : Bool
  pub cancels : List Reg
  pub clears : Bool

unfoldable pub cancel_each : List Reg → Msgq → Msgq
unfolding cancel
cancel_each [] m = m
cancel_each (r ∷ rs) m = cancel_each rs (cancel r m)

unfoldable pub find : ℕ → List Item → Option Item
find i [] = none
find i (x ∷ xs) = if x.reg.id == i then some x else find i xs

-- A state, the world, and the registrations called so far, the first first.
pub record Run {ℓ} (W : Type ℓ) : Type ℓ where
  pub queue : Msgq
  pub world : W
  pub calls : List ℕ

unfoldable pub is_linked : ℕ → List Item → Bool
unfolding find
is_linked i xs = elim (find i xs) [ none ↦ false | some x ↦ true ]

unfoldable pub ids : List Item → List ℕ
ids [] = []
ids (x ∷ xs) = x.reg.id ∷ ids xs

-- The operations, and a goroutine of removeDisable that gets the lock.
pub data Step {ℓ} (Msg : Type ℓ) : Type ℓ where
  register_step : Reg → Bool → Step Msg
  cancel_step : Reg → Step Msg
  clear_step : Step Msg
  push_step : Msg → Step Msg
  push_lock_step : Msg → Step Msg
  removal_step : ℕ → Step Msg

unfoldable pub run_pending : ℕ → Msgq → Msgq
unfolding removal
run_pending k m = elim (get_elem? m.pending k) [
  | none ↦ m
  | some ty ↦ removal ty (record m { pending = take k m.pending ++ drop (k + 1) m.pending })
]

-- The condition on an element in the loops of push.
unfoldable pub is_served : ℕ → Item → Bool
is_served ty x = (x.reg.ty == ty) && not x.disable

abbrev pub push_calls {κ} : {W : Type κ} → ℕ → Run W → Run W
push_calls i r = record r { calls = i ∷ r.calls }

module _ {ℓ κ} {Msg : Type ℓ} {W : Type κ} (type_of : Msg → ℕ)
    (handle : ℕ → Msg → W → Outcome W) where
  -- A call on the element, and what push does with its result.
  unfoldable pub serve_item : Msg → Bool → Item → Msgq → W → Msgq × W
  unfolding cancel_each clear_all disable_item remove_some
  serve_item msg is_lock x m w =
      let o : Outcome W = handle x.reg.id msg w in
      let m₁ : Msgq = cancel_each o.cancels m in
      let m₂ : Msgq = if o.clears then clear_all m₁ else m₁ in
      let m₃ : Msgq =
        if o.result
        then remove_some (type_of msg) is_lock
            (record m₂ { funcs = disable_item x.reg.id m₂.funcs })
        else m₂ in
      (m₃, o.world)

  -- The loops of push, over the elements that the list has when they start. An element that is
  -- no longer in the list has no next one.
  unfoldable pub push_loop : Msg → Bool → List ℕ → Msgq → W → Run W
  unfolding find is_served serve_item is_linked
  push_loop msg is_lock [] m w = record { queue = m; world = w; calls = [] }
  push_loop msg is_lock (i ∷ is) m w = elim (find i m.funcs) [
    | none ↦ push_loop msg is_lock is m w
    | some x ↦ elim (is_served (type_of msg) x) [
      | false ↦ push_loop msg is_lock is m w
      | true ↦
          let s : Msgq × W = serve_item msg is_lock x m w in
          elim (is_linked i (s.0).funcs) [
            | true ↦ push_calls i (push_loop msg is_lock is s.0 s.1)
            | false ↦ record { queue = s.0; world = s.1; calls = i ∷ [] }
          ]
    ]
  ]

  unfoldable pub push : Msg → Bool → Msgq → W → Run W
  unfolding remove_disable push_loop ids
  push msg is_lock m w =
      if m.all_need_remove
      then (let m' : Msgq = remove_disable (type_of msg) true is_lock m in
          if is_lock
          then push_loop msg true (ids m'.funcs) m' w
          else record { queue = m'; world = w; calls = [] })
      else push_loop msg is_lock (ids m.funcs) m w

  unfoldable pub step : Step Msg → Msgq → W → Run W
  unfolding register cancel clear_all push run_pending
  step (register_step r front) m w = record { queue = register r front m; world = w; calls = [] }
  step (cancel_step r) m w = record { queue = cancel r m; world = w; calls = [] }
  step clear_step m w = record { queue = clear_all m; world = w; calls = [] }
  step (push_step msg) m w = push msg false m w
  step (push_lock_step msg) m w = push msg true m w
  step (removal_step k) m w = record { queue = run_pending k m; world = w; calls = [] }

  unfoldable pub run : List (Step Msg) → Msgq → W → Run W
  unfolding step
  run [] m w = record { queue = m; world = w; calls = [] }
  run (x ∷ xs) m w =
      let r : Run W = step x m w in
      let on : Run W = run xs r.queue r.world in record on { calls = r.calls ++ on.calls }
