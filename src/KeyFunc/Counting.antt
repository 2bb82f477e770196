-- ===== src/KeyFunc/Counting.antt =====
-- Counting the keys that a trace does not hold yet, for the end of getTrace (keyFunc/keyFunc.go).
use part.Common.{
  ==_iff, Bool, Bool-cases, List, [], ap, arith, false, if◌then◌else◌, inl, inr, length, true, ℕ,
  ◌+◌, ◌<◌, ◌==◌, ◌||◌, ◌∙◌, ◌∷◌, ◌≡◌, ◌≤◌,
}

unfoldable pub count : (ℕ → Bool) → List ℕ → ℕ
count p [] = 0
count p (k ∷ ks) = (if p k then 0 else 1) + count p ks

unfoldable pub is_member : ℕ → List ℕ → Bool
is_member k [] = false
is_member k (j ∷ js) = (j == k) || is_member k js

-- The keys that are counted are those without the property.
pub count_mono :
    (p q : ℕ → Bool) (ks : List ℕ) → ((j : ℕ) → q j ≡ true → p j ≡ true) → count p ks ≤ count q ks
unfolding count
count_mono p q [] h = omega arith
count_mono p q (k ∷ ks) h = ground (arith, h k, count_mono p q ks h)

pub count-less :
    (p q : ℕ → Bool) (ks : List ℕ) (k : ℕ)
    → ((j : ℕ) → q j ≡ true → p j ≡ true)
    → p k ≡ true
    → q k ≡ false
    → is_member k ks ≡ true
    → count p ks < count q ks
unfolding count is_member
count-less p q [] k h new old m = absurd (cc)
count-less p q (j ∷ ks) k h new old m = elim (Bool-cases (j == k)) [
  | inl same ↦
      let e : j ≡ k = (==_iff j k).0 same in
      let pj : p j ≡ true = ap p e ∙ new in
      let qj : q j ≡ false = ap q e ∙ old in let rest = count_mono p q ks h in ground arith
  | inr differs ↦ ground (arith, h j, count-less p q ks k h new old (ground arith))
]

pub count-le : (p : ℕ → Bool) (ks : List ℕ) → count p ks ≤ length ks
unfolding count
count-le p [] = omega arith
count-le p (k ∷ ks) = ground (arith, count-le p ks)
