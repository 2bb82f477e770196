-- ===== src/Decoder/BitsReader/Numbers.antt =====
-- The bits of numbers and of bytes, the highest first, and the numbers that they are.
use part.Common.{
  List, [], ap, arith, drop, drop-drop, drop_all, length, length-append, length-take, refl, suc,
  sym, take, zero, ℕ, ◌%◌, ◌*◌, ◌++◌, ◌+◌, ◌/◌, ◌<◌, ◌^◌, ◌∙◌, ◌∷◌, ◌≡◌, ◌≤◌,
}
use native.Mathlib.Nat.{
  pow-suc, pow-succ', pow-le-pow_right, one-le-pow, mod-lt, div-div-eq-div-mul, mul_comm,
}
use part.Decoder.BitsReader.Bits.{mod_double, mod-div, power_sum, two_parts}

-- The lowest `k` bits of `b`.
unfoldable pub bits : ℕ → ℕ → List ℕ
bits zero b = []
bits (suc k) b = b / 2 ^ k % 2 ∷ bits k b

-- The bits of bytes.
unfoldable pub stream : List ℕ → List ℕ
unfolding bits
stream [] = []
stream (b ∷ bs) = bits 8 b ++ stream bs

-- The number that bits are, behind `acc`.
unfoldable pub number : ℕ → List ℕ → ℕ
number acc [] = acc
number acc (x ∷ xs) = number (2 * acc + x) xs

-- The first bits of a part of a number are a field of it.
pub number-take-bits :
    (n m b acc : ℕ) → number acc (take n (bits (n + m) b)) ≡ acc * 2 ^ n + b / 2 ^ m % 2 ^ n
unfolding number bits
number-take-bits zero m b acc =
    let c = b / 2 ^ m in let none_left : c % 1 ≡ 0 = omega arith in omega (arith, none_left)
number-take-bits (suc n) m b acc =
    let c = b / 2 ^ m in
    let x = b / 2 ^ (n + m) % 2 in
    let same : b / 2 ^ (n + m) ≡ c / 2 ^ n =
      ap (λ z. b / z) (power_sum n m ∙ mul_comm (2 ^ n) (2 ^ m))
      ∙ sym (div-div-eq-div-mul b (2 ^ m) (2 ^ n)) in
    let two : 2 ^ suc n ≡ 2 ^ n * 2 = pow-suc 2 n in
    let halves = mod_double c (2 ^ n) (one-le-pow n 2 (omega arith)) in
    let next : suc n + m ≡ suc (n + m) = omega arith in
    rw next (
      number-take-bits n m b (2 * acc + x)
      ∙ rw (two, halves) (grind (arith, ap (λ z. z % 2 * 2 ^ n) same)))

number-acc : (acc : ℕ) (xs : List ℕ) → number acc xs ≡ acc * 2 ^ length xs + number 0 xs
unfolding number
number-acc acc [] = omega arith
number-acc acc (x ∷ xs) =
    grind (arith, number-acc (2 * acc + x) xs, number-acc x xs, pow-succ' 2 (length xs))

pub number-append : (acc : ℕ) (xs ys : List ℕ) → number acc (xs ++ ys) ≡ number (number acc xs) ys
unfolding number
number-append acc [] ys = refl
number-append acc (x ∷ xs) ys = number-append (2 * acc + x) xs ys

-- Numbers below 2.
abbrev pub AreBits : List ℕ → Type 0
AreBits [] = Unit
AreBits (x ∷ xs) = (x < 2) × AreBits xs

AreBits-append : (xs ys : List ℕ) → AreBits xs → AreBits ys → AreBits (xs ++ ys)
AreBits-append [] ys h k = k
AreBits-append (x ∷ xs) ys (e, h) k = (e, AreBits-append xs ys h k)

AreBits-bits : (k b : ℕ) → AreBits (bits k b)
unfolding bits
AreBits-bits zero b = tt
AreBits-bits (suc k) b = (mod-lt (b / 2 ^ k) (omega arith), AreBits-bits k b)

AreBits-stream : (bs : List ℕ) → AreBits (stream bs)
unfolding stream
AreBits-stream [] = tt
AreBits-stream (b ∷ bs) =
    AreBits-append (bits 8 b) (stream bs) (AreBits-bits 8 b) (AreBits-stream bs)

AreBits-take : (n : ℕ) (xs : List ℕ) → AreBits xs → AreBits (take n xs)
AreBits-take zero xs h = tt
AreBits-take (suc n) [] h = tt
AreBits-take (suc n) (x ∷ xs) (e, h) = (e, AreBits-take n xs h)

number_small : (xs : List ℕ) → AreBits xs → number 0 xs < 2 ^ length xs
unfolding number
number_small [] h = omega arith
number_small (x ∷ xs) (e, h) =
    let rest = number_small xs h in
    let sum = number-acc x xs in
    let small = two_parts x (2 ^ length xs) (number 0 xs) e rest in
    grind (arith, pow-suc 2 (length xs))

pub length-bits : (k b : ℕ) → length (bits k b) ≡ k
unfolding bits
length-bits zero b = refl
length-bits (suc k) b = omega (arith, length-bits k b)

pub length-stream : (bs : List ℕ) → length (stream bs) ≡ 8 * length bs
unfolding stream
length-stream [] = refl
length-stream (b ∷ bs) =
    omega (arith, length-append (bits 8 b) (stream bs), length-bits 8 b, length-stream bs)

-- Bits behind a number are a field below it.
pub number-take-stream :
    (acc k : ℕ) (bs : List ℕ)
    → k ≤ 8 * length bs
    → let low = number 0 (take k (stream bs)) in
      (number acc (take k (stream bs)) ≡ acc * 2 ^ k + low) × (low < 2 ^ k)
number-take-stream acc k bs h =
    let xs = take k (stream bs) in
    let size : length xs ≡ k = omega (arith, length-take k (stream bs), length-stream bs) in
    let small = number_small xs (AreBits-take k (stream bs) (AreBits-stream bs)) in
    (
      number-acc acc xs ∙ ap (λ z. acc * 2 ^ z + number 0 xs) size,
      omega (arith, small, ap (λ z. 2 ^ z) size),
    )

AreBits-drop : (n : ℕ) (xs : List ℕ) → AreBits xs → AreBits (drop n xs)
AreBits-drop zero xs h = h
AreBits-drop (suc n) [] h = tt
AreBits-drop (suc n) (x ∷ xs) (e, h) = AreBits-drop n xs h

pub number_bound : (k p : ℕ) (bs : List ℕ) → number 0 (take k (drop p (stream bs))) < 2 ^ k
number_bound k p bs =
    let xs = drop p (stream bs) in
    let small =
      number_small (take k xs)
        (AreBits-take k xs (AreBits-drop p (stream bs) (AreBits-stream bs))) in
    let room : 2 ^ length (take k xs) ≤ 2 ^ k =
      pow-le-pow_right (omega arith) (omega (arith, length-take k xs)) in
    omega arith

drop-bits : (r k b : ℕ) (s : List ℕ) → drop r (bits (r + k) b ++ s) ≡ bits k b ++ s
unfolding bits
drop-bits zero k b s = let e : 0 + k ≡ k = omega arith in rw e refl
drop-bits (suc r) k b s = let e : suc r + k ≡ suc (r + k) = omega arith in rw e (drop-bits r k b s)

take-bits : (n m b : ℕ) (s : List ℕ) → take n (bits (n + m) b ++ s) ≡ take n (bits (n + m) b)
unfolding bits
take-bits zero m b s = refl
take-bits (suc n) m b s =
    let e : suc n + m ≡ suc (n + m) = omega arith in
    rw e (ap (λ z. b / 2 ^ (n + m) % 2 ∷ z) (take-bits n m b s))

-- A field of the first byte.
pub number_field :
    (r n m b : ℕ) (bs : List ℕ)
    → r + (n + m) ≡ 8
    → number 0 (take n (drop r (stream (b ∷ bs)))) ≡ b % 2 ^ (n + m) / 2 ^ m
unfolding stream
number_field r n m b bs e =
    ap (λ z. number 0 (take n (drop r (bits z b ++ stream bs)))) (sym e)
    ∙ ap (λ z. number 0 (take n z)) (drop-bits r (n + m) b (stream bs))
    ∙ ap (number 0) (take-bits n m b (stream bs))
    ∙ number-take-bits n m b 0
    ∙ omega arith
    ∙ sym (mod-div b (2 ^ n) (2 ^ m) (one-le-pow n 2 (omega arith)) (one-le-pow m 2 (omega arith)))
    ∙ ap (λ z. b % z / 2 ^ m) (sym (power_sum n m))

-- The first byte and more.
pub number_byte :
    (k b : ℕ) (bs : List ℕ)
    → b < 256
    → number 0 (take (8 + k) (stream (b ∷ bs))) ≡ number b (take k (stream bs))
unfolding stream bits number
number_byte k b bs h =
    let e : 8 + k ≡ suc (suc (suc (suc (suc (suc (suc (suc k))))))) = omega arith in
    rw e (ap (λ z. number z (take k (stream bs))) (omega arith))

pub drop-stream :
    (k r : ℕ) (bs : List ℕ) → drop (8 * k + r) (stream bs) ≡ drop r (stream (drop k bs))
unfolding stream
drop-stream zero r bs = let e : 8 * 0 + r ≡ r = omega arith in ap (λ z. drop z (stream bs)) e
drop-stream (suc k) r [] =
    drop_all (8 * suc k + r) [] (omega arith) ∙ sym (drop_all r [] (omega arith))
drop-stream (suc k) r (b ∷ bs) =
    let e : 8 * suc k + r ≡ 8 + (8 * k + r) = omega arith in
    ap (λ z. drop z (stream (b ∷ bs))) e
    ∙ sym (drop-drop (8 * k + r) 8 (stream (b ∷ bs)))
    ∙ drop-stream k r bs
