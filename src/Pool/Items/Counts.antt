-- ===== src/Pool/Items/Counts.antt =====
-- State of pool/Pool.go counts every entry once as pooled or not, and once as in use or not.
use part.Common.{
  Bool, Bool-cases, List, [], arith, false, inl, inr, length, refl, suc, true, ℕ, ◌+◌, ◌∙◌, ◌∷◌,
  ◌≡◌,
}
use part.Pool.Items.{PoolFunc, Items, State, used, count_entry, count_entries, state}

abbrev Sums : State → ℕ → Type 0
Sums s n = (s.pooled + s.nopooled ≡ n) × (s.inuse + s.nouse ≡ n)

count_entry-Sums :
    (pf : PoolFunc) (in_use : ℕ → Bool) (k : ℕ) (v : Bool) (s : State) (n : ℕ)
    → Sums s n
    → Sums (count_entry pf in_use k v s) (suc n)
unfolding count_entry
count_entry-Sums pf in_use k true s n (a, b) = elim (Bool-cases (used pf in_use k true)) [
  | inl busy ↦ rw busy (omega arith, omega arith)
  | inr other ↦ rw other (omega arith, omega arith)
]
count_entry-Sums pf in_use k false s n (a, b) = elim (Bool-cases (used pf in_use k false)) [
  | inl busy ↦ rw busy (omega arith, omega arith)
  | inr other ↦ rw other (omega arith, omega arith)
]

count_entries-Sums :
    (pf : PoolFunc) (in_use : ℕ → Bool) (m : List (ℕ × Bool)) (s : State) (n : ℕ)
    → Sums s n
    → Sums (count_entries pf in_use m s) (n + length m)
unfolding count_entries
count_entries-Sums pf in_use [] s n (a, b) = (omega arith, omega arith)
count_entries-Sums pf in_use ((k, v) ∷ m) s n h =
    let (a, b) =
      count_entries-Sums pf in_use m (count_entry pf in_use k v s) (suc n)
        (count_entry-Sums pf in_use k v s n h) in
    (omega arith, omega arith)

count_entry-sum :
    (pf : PoolFunc) (in_use : ℕ → Bool) (k : ℕ) (v : Bool) (s : State)
    → (count_entry pf in_use k v s).sum ≡ s.sum
unfolding count_entry
count_entry-sum pf in_use k true s = elim (Bool-cases (used pf in_use k true)) [
  | inl busy ↦ rw busy refl
  | inr other ↦ rw other refl
]
count_entry-sum pf in_use k false s = elim (Bool-cases (used pf in_use k false)) [
  | inl busy ↦ rw busy refl
  | inr other ↦ rw other refl
]

count_entries-sum :
    (pf : PoolFunc) (in_use : ℕ → Bool) (m : List (ℕ × Bool)) (s : State)
    → (count_entries pf in_use m s).sum ≡ s.sum
unfolding count_entries
count_entries-sum pf in_use [] s = refl
count_entries-sum pf in_use ((k, v) ∷ m) s =
    count_entries-sum pf in_use m (count_entry pf in_use k v s) ∙ count_entry-sum pf in_use k v s

-- In the counts of State the pooled and the other items, and the items in use and the others,
-- each add up to the number of entries.
pub state_lem :
    (t : Items) (in_use : ℕ → Bool)
    → ((state t in_use).sum ≡ length t.mbuf)
      × ((state t in_use).pooled + (state t in_use).nopooled ≡ (state t in_use).sum)
      × ((state t in_use).inuse + (state t in_use).nouse ≡ (state t in_use).sum)
unfolding state
state_lem t in_use =
    let start : State = record {
      pooled = 0;
      nopooled = 0;
      inuse = 0;
      nouse = 0;
      sum = length t.mbuf;
      allos = t.allocs;
    } in
    let total = count_entries-sum t.pf in_use t.mbuf start in
    let (a, b) = count_entries-Sums t.pf in_use t.mbuf start 0 (refl, refl) in
    (total, omega arith, omega arith)
