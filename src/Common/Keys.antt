-- ===== src/Common/Keys.antt =====
-- Keys with Go's `==`, and a map as a list of entries with distinct keys.
use Prim.Native.Nat.{ℕ, suc}
use mathlib.Core.Path.{◌≡◌, refl, sym, ap, ◌∙◌}
use mathlib.Core.Logic.{◌↔◌, inl, inr}
use mathlib.Core.Bool.{Bool, true, false, ◌&&◌}
use mathlib.Core.List.{List, [], ◌∷◌}
use mathlib.Core.Option.{Option, none, some}
use native.Mathlib.Omega.{arith}
use part.Common.Tests.{if◌then◌else◌, Bool-cases, ◌==◌, ==_iff}
use part.Common.Lists.{length}

pub record Eq {ℓ} (A : Type ℓ) : Type ℓ where
  pub beq : A → A → Bool
  pub beq_iff : (a b : A) → (beq a b ≡ true) ↔ (a ≡ b)

abbrev pub nat_eq : Eq ℕ
nat_eq = record { beq = ◌==◌; beq_iff = ==_iff }

abbrev pub same_bytes : List ℕ → List ℕ → Bool
same_bytes [] [] = true
same_bytes [] (y ∷ ys) = false
same_bytes (x ∷ xs) [] = false
same_bytes (x ∷ xs) (y ∷ ys) = (x == y) && same_bytes xs ys

pub same_bytes_refl : (xs : List ℕ) → same_bytes xs xs ≡ true
same_bytes_refl [] = refl
same_bytes_refl (x ∷ xs) = ground (arith, same_bytes_refl xs, (==_iff x x).1 refl)

pub same_bytes→≡ : (xs ys : List ℕ) → same_bytes xs ys ≡ true → xs ≡ ys
same_bytes→≡ [] [] h = refl
same_bytes→≡ [] (y ∷ ys) h = absurd (cc)
same_bytes→≡ (x ∷ xs) [] h = absurd (cc)
same_bytes→≡ (x ∷ xs) (y ∷ ys) h =
    let e : x ≡ y = ground arith in let es = same_bytes→≡ xs ys (ground arith) in cc

-- Strings, as lists of bytes.
abbrev pub bytes_eq : Eq (List ℕ)
bytes_eq = record {
  beq = same_bytes;
  beq_iff = λ a b. (same_bytes→≡ a b, λ e. ap (same_bytes a) (sym e) ∙ same_bytes_refl a);
}

pub beq_self {ℓ} : {K : Type ℓ} (e : Eq K) (k : K) → e.beq k k ≡ true
beq_self e k = (e.beq_iff k k).1 refl

module _ {ℓ κ} {K : Type ℓ} {V : Type κ} (e : Eq K) where
  unfoldable pub lookup : K → List (K × V) → Option V
  lookup k [] = none
  lookup k ((j, v) ∷ m) = if e.beq j k then some v else lookup k m

  unfoldable pub insert : K → V → List (K × V) → List (K × V)
  insert k v [] = (k, v) ∷ []
  insert k v ((j, w) ∷ m) = if e.beq j k then (j, v) ∷ m else (j, w) ∷ insert k v m

  unfoldable pub erase : K → List (K × V) → List (K × V)
  erase k [] = []
  erase k ((j, w) ∷ m) = if e.beq j k then erase k m else (j, w) ∷ erase k m

  -- No key occurs twice.
  abbrev pub IsUnique : List (K × V) → Type κ
  IsUnique [] = Unit
  IsUnique ((j, v) ∷ m) = (lookup j m ≡ none) × IsUnique m

  pub lookup-insert :
      (k j : K) (v : V) (m : List (K × V))
      → lookup j (insert k v m) ≡ (if e.beq k j then some v else lookup j m)
  unfolding lookup insert
  lookup-insert k j v [] = refl
  lookup-insert k j v ((i, w) ∷ m) =
      ground (arith, e.beq_iff i k, e.beq_iff k j, e.beq_iff i j, lookup-insert k j v m)

  pub lookup-erase :
      (k j : K) (m : List (K × V)) → lookup j (erase k m) ≡ (if e.beq k j then none else lookup j m)
  unfolding lookup erase
  lookup-erase k j [] = ground arith
  lookup-erase k j ((i, w) ∷ m) =
      ground (arith, e.beq_iff i k, e.beq_iff k j, e.beq_iff i j, lookup-erase k j m)

  pub IsUnique-insert : (k : K) (v : V) (m : List (K × V)) → IsUnique m → IsUnique (insert k v m)
  unfolding lookup insert
  IsUnique-insert k v [] u = (refl, tt)
  IsUnique-insert k v ((i, w) ∷ m) (fresh, u) = elim (Bool-cases (e.beq i k)) [
    | inl same ↦ rw same (fresh, u)
    | inr other ↦
        let back : e.beq k i ≡ false = ground (arith, e.beq_iff i k, e.beq_iff k i) in
        rw other (lookup-insert k i v m ∙ rw back fresh, IsUnique-insert k v m u)
  ]

  pub IsUnique-erase : (k : K) (m : List (K × V)) → IsUnique m → IsUnique (erase k m)
  unfolding lookup erase
  IsUnique-erase k [] u = tt
  IsUnique-erase k ((i, w) ∷ m) (fresh, u) =
      let u' = IsUnique-erase k m u in
      elim (Bool-cases (e.beq i k)) [
        | inl same ↦ rw same u'
        | inr other ↦
            let back : e.beq k i ≡ false = ground (arith, e.beq_iff i k, e.beq_iff k i) in
            rw other (lookup-erase k i m ∙ rw back fresh, u')
      ]

  pub length-insert_absent :
      (k : K) (v : V) (m : List (K × V))
      → lookup k m ≡ none
      → length (insert k v m) ≡ suc (length m)
  unfolding lookup insert
  length-insert_absent k v [] h = refl
  length-insert_absent k v ((i, w) ∷ m) h = elim (Bool-cases (e.beq i k)) [
    | inl same ↦ let h' : some w ≡ none = rw same at h in absurd (cc)
    | inr other ↦ rw other (ap suc (length-insert_absent k v m (rw other at h)))
  ]

  pub length-insert_present :
      (k : K) (v : V) (m : List (K × V)) {w : V}
      → lookup k m ≡ some w
      → length (insert k v m) ≡ length m
  unfolding lookup insert
  length-insert_present k v [] h = absurd (cc)
  length-insert_present k v ((i, x) ∷ m) {w} h = elim (Bool-cases (e.beq i k)) [
    | inl same ↦ rw same
    | inr other ↦ rw other (ap suc (length-insert_present k v m {w = w} (rw other at h)))
  ]

  pub erase-absent : (k : K) (m : List (K × V)) → lookup k m ≡ none → erase k m ≡ m
  unfolding lookup erase
  erase-absent k [] h = refl
  erase-absent k ((i, w) ∷ m) h = elim (Bool-cases (e.beq i k)) [
    | inl same ↦ let h' : some w ≡ none = rw same at h in absurd (cc)
    | inr other ↦ rw other (ap (λ t. (i, w) ∷ t) (erase-absent k m (rw other at h)))
  ]

  pub length-erase :
      (k : K) (m : List (K × V)) {v : V}
      → IsUnique m
      → lookup k m ≡ some v
      → suc (length (erase k m)) ≡ length m
  unfolding lookup erase
  length-erase k [] u h = cc
  length-erase k ((i, w) ∷ m) {v} (fresh, u) h = elim (Bool-cases (e.beq i k)) [
    | inl same ↦
        let p : i ≡ k = (e.beq_iff i k).0 same in
        let gone : erase k m ≡ m = erase-absent k m (rw p at fresh) in rw (same, gone)
    | inr other ↦ let ih = length-erase k m {v = v} u (rw other at h) in rw other (ap suc ih)
  ]
