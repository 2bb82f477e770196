-- ===== src/KeyFunc/Tests.antt =====
-- Witnesses for the theorems on keyFunc, on the example of its tests: the function of key 0 wants
-- key 1, whose first function fails and whose second one gets it.
use part.Common.{
  Bool, List, Option, [], arith, false, if◌then◌else◌, none, not, refl, some, suc, true, zero, ℕ,
  ◌<◌, ◌==◌, ◌∷◌, ◌≡◌, ◌≤◌,
}
use part.KeyFunc.{Err, key_not_reg, other, Node, new_node, Called, get_trace, get, rounds}
use part.KeyFunc.Counting.{is_member}
use part.KeyFunc.Ends.{get_trace_ends}
use part.KeyFunc.Success.{get_checked}

record Ids : Type 0 where
  id1 : ℕ
  id2 : ℕ

abbrev methods : ℕ → ℕ
methods zero = 1
methods (suc zero) = 2
methods (suc (suc zero)) = 1
methods (suc (suc (suc k))) = 0

abbrev called : Ids → Option ℕ → Option (Err ℕ) → Called Ids ℕ
called w m e = record { world = w; misskey = m; err = e }

abbrev call : ℕ → ℕ → Ids → Called Ids ℕ
call zero i w =
    if w.id2 == 0 then called w (some 1) none else called (record w { id1 = 1 }) none none
call (suc zero) zero w = called w none (some (other 7))
call (suc zero) (suc i) w = called (record w { id2 = 1 }) none none
call (suc (suc k)) i w = called w (some 9) none

abbrev check : ℕ → Ids → Ids × Bool
check zero w = (w, not (w.id1 == 0))
check (suc zero) w = (w, not (w.id2 == 0))
check (suc (suc k)) w = (w, false)

abbrev is_next : ℕ → Bool
is_next e = e == 7

abbrev start : Ids
start = record { id1 = 0; id2 = 0 }

abbrev final : Ids
final = record { id1 = 1; id2 = 1 }

abbrev keys : List ℕ
keys = 0 ∷ 1 ∷ 2 ∷ []

registered : (k : ℕ) → 0 < methods k → is_member k keys ≡ true
unfolding is_member
registered zero h = refl
registered (suc zero) h = refl
registered (suc (suc zero)) h = refl
registered (suc (suc (suc k))) h = absurd (omega arith)

few : (k : ℕ) → methods k ≤ 2
few zero = omega arith
few (suc zero) = omega arith
few (suc (suc zero)) = omega arith
few (suc (suc (suc k))) = omega arith

get_trace_ends_example :
    (r : List (Node ℕ) × Ids) × (get_trace methods call check is_next 15 0 start ≡ some r)
get_trace_ends_example =
    get_trace_ends methods call check is_next keys 2 registered few 15 0 start (omega arith)

get_checked_example : (v : Ids) × (check 0 v ≡ (final, true))
unfolding get get_trace rounds
get_checked_example = get_checked methods call check is_next 15 0 start final refl

-- The trace from the first node on: key 0, the two functions of key 1, and key 0 again.
trace_of_example :
    get_trace methods call check is_next 15 0 start
    ≡ some (
      new_node 0 0 none
          ∷ new_node 1 1 none
          ∷ new_node 1 0 (some (other 7))
          ∷ new_node 0 0 none
          ∷ [],
      final,
    )
unfolding get_trace rounds
trace_of_example = refl

-- A missing key that is not registered: its node is not joined to the trace of the call.
trace_not_joined :
    get_trace methods call check is_next 15 2 start
    ≡ some (new_node 9 0 (some key_not_reg) ∷ [], start)
unfolding get_trace rounds
trace_not_joined = refl
