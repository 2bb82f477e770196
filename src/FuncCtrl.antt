-- ===== src/FuncCtrl.antt =====
-- SkipFunc and FlashFunc of funcCtrl/FuncCtrl.go; the children have the functions that wait.
-- A context or a callback is a number.
pub mod BlockN
pub mod BlockSeq
use part.Common.{
  ==_iff, ==_refl, Bool, Bool-cases, List, Option, Option-cases, [], ap, append-nil, append_assoc,
  ap₂, arith, drop, drop-append_exact, drop-append_sum, drop-drop, drop-min, drop-take, drop_all,
  false, get_elem?, if◌then◌else◌, inl, inr, leb, leb→le, length, length-append, length-drop,
  length-replicate, length-set, length-take, le→leb, le→not_ltb, ltb, ltb→lt, lt→ltb, max, min,
  negsuc, none, not, pos, refl, replicate, require, set, some, suc, sym, take, take-append,
  take-append-drop, take-append_exact, take-append_sum, take-min, take-take, take_all, true, zero,
  ℕ, ℤ, ◌%◌, ◌&&◌, ◌*◌, ◌++◌, ◌+◌, ◌-◌, ◌/◌, ◌<◌, ◌==◌, ◌>>=◌, ◌>>◌, ◌^◌, ◌||◌, ◌↔◌, ◌∙◌, ◌∷◌, ◌≡◌,
  ◌≢◌, ◌≤◌, ◌⊎◌,
}

-- Whether the pointer is set.
pub record SkipFunc : Type 0 where
  pub c : Bool

unfoldable pub need_skip : SkipFunc → SkipFunc × Bool
need_skip t = if t.c then (t, true) else (record { c = true }, false)

unfoldable pub un_set : SkipFunc → SkipFunc
un_set t = record t { c = false }

-- The current mark, the context to cancel, the callback to call, and what has been cancelled and
-- called, the last first.
pub record FlashFunc : Type 0 where
  pub b : ℕ
  pub c : Option ℕ
  pub f : Option ℕ
  pub cancelled : List ℕ
  pub called : List ℕ

-- `mark` is the address of the new struct{}. Addresses of two such need not differ.
unfoldable pub flash : ℕ → FlashFunc → FlashFunc × ℕ
flash mark t = (record t { b = mark }, mark)

unfoldable pub need_exit : FlashFunc → ℕ → Bool
need_exit t current = not (t.b == current)

unfoldable pub flash_with_context : ℕ → FlashFunc → FlashFunc × ℕ
flash_with_context ctx t = (
  elim (t.c) [
    | none ↦ record t { c = some ctx }
    | some old ↦ record t { c = some ctx; cancelled = old ∷ t.cancelled }
  ],
  ctx,
)

unfoldable pub flash_with_callback : ℕ → FlashFunc → FlashFunc
flash_with_callback g t = elim (t.f) [
  | none ↦ record t { f = some g }
  | some old ↦ record t { f = some g; called = old ∷ t.called }
]
