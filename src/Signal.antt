-- ===== src/Signal.antt =====
-- `Signal` of signal/Signal.go, in steps. Wait is a test, an addition to the counter and, once the
-- channel is closed, `fin`; WaitC is the first two. Done is a test, the close, and then one swap
-- after the other until one succeeds. A nil pointer is `none`.
pub mod Steps
pub mod Waiting
mod Tests
use part.Common.{
  ==_iff, ==_refl, Bool, Bool-cases, List, Option, [], ap, append-nil, append_assoc, ap₂, arith,
  drop, drop-append_exact, drop-append_sum, drop-drop, drop-min, drop-take, drop_all, false,
  get_elem?, if◌then◌else◌, inl, inr, leb, leb→le, length, length-append, length-drop,
  length-replicate, length-set, length-take, le→leb, ltb, ltb→lt, lt→ltb, max, min, negsuc, none,
  not, pos, refl, replicate, require, set, some, suc, sym, take, take-append, take-append-drop,
  take-append_exact, take-append_sum, take-min, take-take, take_all, true, zero, ℕ, ℤ, ◌%◌, ◌&&◌,
  ◌*◌, ◌++◌, ◌+◌, ◌-◌, ◌/◌, ◌<◌, ◌==◌, ◌>>=◌, ◌>>◌, ◌^◌, ◌||◌, ◌↔◌, ◌∙◌, ◌∷◌, ◌≡◌, ◌≢◌, ◌≤◌, ◌⊎◌,
}
use part.Sync.Map.{incr, decr}

pub data Chan : Type 0 where
  nil_chan open_chan closed_chan : Chan

pub record Signal : Type 0 where
  pub c : Chan
  pub wait_count : ℤ

pub init : Signal
init = record { c = Chan.open_chan; wait_count = pos 0 }

-- A closed channel can be received from; a nil one never.
pub is_live : Option Signal → Bool
is_live none = false
is_live (some i) = elim (i.c) [
  | Chan.closed_chan ↦ false
  | Chan.nil_chan ↦ false
  | Chan.open_chan ↦ true
]

-- Wait and WaitC go on where the signal is live, and only then add to the counter.
pub wait_test : Signal → Bool
unfolding is_live
wait_test i = is_live (some i)

pub wait_add : Signal → Signal
wait_add i = record i { wait_count = incr i.wait_count }

pub fin : Signal → Signal
fin i = record i { wait_count = decr i.wait_count }

-- Done goes on where the signal is live, and only then closes.
pub done_test : Signal → Bool
unfolding is_live
done_test i = is_live (some i)

-- The close of a closed or nil channel panics.
pub done_close : Signal → Option Signal
done_close i = elim (i.c) [ Chan.open_chan ↦ some (record i { c = Chan.closed_chan }) | _ ↦ none ]

abbrev pub is_zero : ℤ → Bool
is_zero (pos n) = n == 0
is_zero (negsuc n) = false

-- CompareAndSwap(0, -1); `true` ends the loop of Done.
pub done_swap : Signal → Signal × Bool
done_swap i =
    if is_zero i.wait_count then (record i { wait_count = negsuc 0 }, true) else (i, false)
