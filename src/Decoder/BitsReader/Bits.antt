-- ===== src/Decoder/BitsReader/Bits.antt =====
-- Masks and fields of numbers as arithmetic, for the reader of decoder/tool/bitsReader.go.
use part.Common.{
  ==_iff, Bool, ap, ap₂, arith, max, refl, suc, sym, true, zero, ℕ, ◌%◌, ◌&&◌, ◌*◌, ◌+◌, ◌-◌, ◌/◌,
  ◌<◌, ◌==◌, ◌^◌, ◌∙◌, ◌≡◌, ◌≤◌,
}
use Prim.Native.Nat.{bit_and, bit_or, digits, bit_or-bitwise}
use native.Mathlib.Nat.{
  pow-suc, pow-succ', mod-lt, mod-eq_of_lt, div-eq_of_lt, mul-le-mul_right, div-add-mod',
  mul-add-div_right, mul-add-mod_self_right,
}

-- `|` on fields that do not meet.
or_digits : ℕ → ℕ → ℕ → ℕ
or_digits n a b = digits (λ x. x) max n a b

or_digits_enough : (n m a b : ℕ) → a ≤ n → a ≤ m → or_digits n a b ≡ or_digits m a b
unfolding or_digits
or_digits_enough zero zero a b p q = refl
or_digits_enough zero (suc m) zero b p q = refl
or_digits_enough zero (suc m) (suc a) b p q = absurd (omega arith)
or_digits_enough (suc n) zero zero b p q = refl
or_digits_enough (suc n) zero (suc a) b p q = absurd (omega arith)
or_digits_enough (suc n) (suc m) zero b p q = refl
or_digits_enough (suc n) (suc m) (suc a) b p q =
    omega (arith, or_digits_enough n m (suc a / 2) (b / 2) (omega arith) (omega arith))

bit_or_halves : (a b : ℕ) → bit_or a b ≡ bit_or (a / 2) (b / 2) * 2 + max (a % 2) (b % 2)
unfolding or_digits
bit_or_halves zero b = omega (arith, bit_or-bitwise 0 b, bit_or-bitwise 0 (b / 2))
bit_or_halves (suc a) b = omega (
  arith,
  bit_or-bitwise (suc a) b,
  bit_or-bitwise (suc a / 2) (b / 2),
  or_digits_enough a (suc a / 2) (suc a / 2) (b / 2) (omega arith) (omega arith),
)

bit_or-zero : (n a : ℕ) → a ≤ n → bit_or a 0 ≡ a
bit_or-zero n zero h = bit_or-bitwise 0 0
bit_or-zero zero (suc a) h = absurd (omega arith)
bit_or-zero (suc n) (suc a) h =
    omega (arith, bit_or_halves (suc a) 0, bit_or-zero n (suc a / 2) (omega arith))

pub bit_or_sum : (k q r : ℕ) → r < 2 ^ k → bit_or (q * 2 ^ k) r ≡ q * 2 ^ k + r
bit_or_sum zero q r h = ground (arith, bit_or-zero q q)
bit_or_sum (suc k) q r h =
    let power : q * 2 ^ suc k ≡ q * 2 ^ k * 2 = omega (arith, ap (λ x. q * x) (pow-suc 2 k)) in
    ground (arith, bit_or_halves (q * 2 ^ suc k) r, power, bit_or_sum k q (r / 2) (omega arith))

max_comm : (a b : ℕ) → max a b ≡ max b a
max_comm a b = omega arith

-- The other way round.
bit_or-zero_first : (b : ℕ) → bit_or 0 b ≡ b
bit_or-zero_first b = bit_or-bitwise 0 b

pub bit_or_power : (k r : ℕ) → r < 2 ^ k → bit_or r (2 ^ k) ≡ 2 ^ k + r
bit_or_power zero r h = let e : r ≡ 0 = omega arith in rw e (bit_or-zero_first 1)
bit_or_power (suc k) r h =
    ground (arith, bit_or_halves r (2 ^ suc k), pow-suc 2 k, bit_or_power k (r / 2) (omega arith))

-- The masks of a byte, all of them.
abbrev all_below : ℕ → (ℕ → Bool) → Bool
all_below zero p = true
all_below (suc n) p = p n && all_below n p

all_below_holds : (n : ℕ) (p : ℕ → Bool) (x : ℕ) → all_below n p ≡ true → x < n → p x ≡ true
all_below_holds zero p x h lt = absurd (omega arith)
all_below_holds (suc n) p x h lt = ground (arith, all_below_holds n p x)

abbrev is_masked : ℕ → Bool
is_masked x = bit_and (x % 256) (255 / 2 ^ (x / 256)) == x % 256 % 2 ^ (8 - x / 256)

all_masked : all_below 2048 is_masked ≡ true
all_masked = refl

pub mask : (b r : ℕ) → b < 256 → r < 8 → bit_and b (255 / 2 ^ r) ≡ b % 2 ^ (8 - r)
mask b r hb hr =
    let x = r * 256 + b in
    let low : x % 256 ≡ b = omega arith in
    let high : x / 256 ≡ r = omega arith in
    let holds = (==_iff _ _).0 (all_below_holds 2048 is_masked x all_masked (omega arith)) in
    sym (ap₂ (λ a c. bit_and a (255 / 2 ^ c)) low high)
    ∙ holds
    ∙ ap₂ (λ a c. a % 2 ^ (8 - c)) low high

pub two_parts : (q p s : ℕ) → q < 2 → s < p → q * p + s < p * 2
two_parts zero p s h k = omega arith
two_parts (suc zero) p s h k = omega arith
two_parts (suc (suc q)) p s h k = absurd (omega arith)

-- The bit above a field.
pub mod_double : (c p : ℕ) → 0 < p → c % (p * 2) ≡ c / p % 2 * p + c % p
mod_double c p h =
    let q = c / p in
    let r = q % 2 * p + c % p in
    let whole : c ≡ q / 2 * (p * 2) + r = grind (arith, div-add-mod' c p, div-add-mod' q 2) in
    let small = two_parts (q % 2) p (c % p) (omega arith) (mod-lt c h) in
    ap (λ x. x % (p * 2)) whole ∙ mul-add-mod_self_right (q / 2) (p * 2) r ∙ mod-eq_of_lt small

-- A field in the middle.
pub mod-div : (c p q : ℕ) → 0 < p → 0 < q → c % (p * q) / q ≡ c / q % p
mod-div c p q hp hq =
    let t = c / q in
    let r = t % p * q + c % q in
    let inner : t / p * (p * q) + t % p * q ≡ t * q =
      grind (arith, ap (λ x. x * q) (div-add-mod' t p)) in
    let whole : t / p * (p * q) + r ≡ c = omega (arith, inner, div-add-mod' c q) in
    let row : suc (t % p) * q ≤ p * q = mul-le-mul_right q (mod-lt t hp) in
    let small : r < p * q = omega (arith, row, mod-lt c hq) in
    ap (λ x. x % (p * q) / q) (sym whole)
    ∙ ap (λ x. x / q) (mul-add-mod_self_right (t / p) (p * q) r ∙ mod-eq_of_lt small)
    ∙ mul-add-div_right hq (t % p) (c % q)
    ∙ ap (λ x. t % p + x) (div-eq_of_lt (mod-lt c hq))
    ∙ omega arith

pub power_sum : (k m : ℕ) → 2 ^ (k + m) ≡ 2 ^ k * 2 ^ m
power_sum zero m = let same : 0 + m ≡ m = omega arith in rw same (omega arith)
power_sum (suc k) m =
    let next : suc k + m ≡ suc (k + m) = omega arith in
    rw next (grind (arith, pow-succ' 2 k, pow-succ' 2 (k + m), power_sum k m))
