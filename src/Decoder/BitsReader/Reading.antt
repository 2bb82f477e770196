-- ===== src/Decoder/BitsReader/Reading.antt =====
-- U of decoder/tool/bitsReader.go reads the next bits, the highest first, where it stays in a byte or
-- begins at one.
use part.Common.{
  Bool-cases, List, Option, [], ap, arith, drop, false, inl, inr, leb, leb→le, length, length-drop,
  ltb, refl, some, suc, sym, take, true, zero, ℕ, ◌%◌, ◌*◌, ◌+◌, ◌-◌, ◌/◌, ◌<◌, ◌==◌, ◌^◌, ◌∙◌, ◌∷◌,
  ◌≡◌, ◌≤◌, ◌⊎◌,
}
use Prim.Native.Nat.{bit_and, bit_or}
use native.Mathlib.Nat.{mod-eq_of_lt, pow-le-pow_right, mul-lt-mul_of_pos_right, one-le-pow}
use part.Decoder.BitsReader.{BitsReader, byte_sub, read_bits, u}
use part.Decoder.BitsReader.Bits.{mask, power_sum, bit_or_sum}
use part.Decoder.BitsReader.Numbers.{
  drop-stream, stream, number, number_field, number_byte, number-take-stream,
}

-- Numbers below 256.
abbrev pub AreBytes : List ℕ → Type 0
AreBytes [] = Unit
AreBytes (b ∷ bs) = (b < 256) × AreBytes bs

abbrev triple : ℕ → ℕ → ℕ → Option (ℕ × ℕ × ℕ)
triple a b c = some (a, b, c)

result : {a a' b b' c c' : ℕ} → a ≡ a' → b ≡ b' → c ≡ c' → triple a b c ≡ triple a' b' c'
result p q r = λ i. triple (p i) (q i) (r i)

le_or_more : (n m : ℕ) → (n ≤ m) ⊎ ((k : ℕ) × (n ≡ m + k) × (0 < k))
le_or_more n m = elim (Bool-cases (leb n m)) [
  | inl le ↦ inl (leb→le n m le)
  | inr more ↦ inr (n - m, ground arith, ground arith)
]

module _ (w : ℕ) (wide : 8 ≤ w) where
  mask_lem : (b r : ℕ) → b < 256 → r < 8 → bit_and (b % 2 ^ w) (255 / 2 ^ r) ≡ b % 2 ^ (8 - r)
  mask_lem b r hb hr =
      let room : 2 ^ 8 ≤ 2 ^ w = pow-le-pow_right (omega arith) wide in
      let whole : b % 2 ^ w ≡ b = mod-eq_of_lt (omega arith) in rw whole (mask b r hb hr)

  -- In the first byte.
  read_bits_within :
      (b : ℕ) (bs : List ℕ) (i r n : ℕ)
      → b < 256
      → r < 8
      → r + n ≤ 8
      → read_bits w (b ∷ bs) i r n
        ≡ some (number 0 (take n (drop r (stream (b ∷ bs)))), i + (r + n) / 8, (r + n) % 8)
  unfolding read_bits
  read_bits_within b bs i r n hb hr h =
      let m = 8 - r - n in
      let e : r + (n + m) ≡ 8 = omega arith in
      let left : byte_sub 8 r ≡ 8 - r = omega arith in
      let cut : byte_sub (8 - r) n ≡ m = omega arith in
      let split : n + m ≡ 8 - r = omega arith in
      let field = mask_lem b r hb hr ∙ ap (λ z. b % 2 ^ z) (sym split) in
      let spec = sym (number_field r n m b bs e) in
      elim (Bool-cases (ltb n (8 - r))) [
        | inl less ↦
            let p : i ≡ i + (r + n) / 8 = ground arith in
            let q : (r + n) % 256 ≡ (r + n) % 8 = ground arith in
            rw (read_bits, left, less, cut) (result (ap (λ z. z / 2 ^ m) field ∙ spec) p q)
        | inr full ↦
            let none_left : m ≡ 0 = ground arith in
            let same : (8 - r == n) ≡ true = ground arith in
            let x = b % 2 ^ (n + m) in
            let over = ap (λ z. x / 2 ^ z) none_left in
            let by_one : x / 1 ≡ x = omega arith in
            let p : i + 1 ≡ i + (r + n) / 8 = ground arith in
            let q : 0 ≡ (r + n) % 8 = ground arith in
            rw (read_bits, left, full, same) (result (field ∙ sym (over ∙ by_one) ∙ spec) p q)
      ]

  read_bits_first :
      (b : ℕ) (bs : List ℕ) (i n : ℕ)
      → b < 256
      → n ≤ 8
      → read_bits w (b ∷ bs) i 0 n ≡ some (number 0 (take n (stream (b ∷ bs))), i + n / 8, n % 8)
  read_bits_first b bs i n hb h =
      let e : 0 + n ≡ n = omega arith in
      read_bits_within b bs i 0 n hb (omega arith) (omega arith)
      ∙ ap (λ z. triple (number 0 (take n (stream (b ∷ bs)))) (i + z / 8) (z % 8)) e

  -- A call that reads on has the low bits of the result.
  read_bits_more :
      (b : ℕ) (bs : List ℕ) (i k x y : ℕ)
      → b < 256
      → 0 < k
      → 8 + k ≤ w
      → 8 + k < 256
      → k ≤ 8 * length bs
      → read_bits w bs (i + 1) 0 k ≡ some (number 0 (take k (stream bs)), x, y)
      → read_bits w (b ∷ bs) i 0 (8 + k) ≡ some (number 0 (take (8 + k) (stream (b ∷ bs))), x, y)
  unfolding read_bits
  read_bits_more b bs i k x y hb pos_k fits small h rest =
      let not_less : ltb (8 + k) 8 ≡ false = ground arith in
      let not_full : (8 == 8 + k) ≡ false = ground arith in
      let shift : byte_sub (8 + k) 8 ≡ k = omega arith in
      let first = mask_lem b 0 hb (omega arith) ∙ mod-eq_of_lt hb in
      let (sum, low) = number-take-stream b k bs h in
      let room : 2 ^ (8 + k) ≤ 2 ^ w = pow-le-pow_right (omega arith) fits in
      let high : b * 2 ^ k < 2 ^ w =
        omega (arith, mul-lt-mul_of_pos_right hb (one-le-pow k 2 (omega arith)), power_sum 8 k) in
      let low_bits = number 0 (take k (stream bs)) in
      let value =
        ap (λ z. bit_or (bit_and (b % 2 ^ w) 255 * 2 ^ z % 2 ^ w) low_bits) shift
        ∙ ap (λ z. bit_or (z * 2 ^ k % 2 ^ w) low_bits) first
        ∙ ap (λ z. bit_or z low_bits) (mod-eq_of_lt high)
        ∙ bit_or_sum k b low_bits low
        ∙ sym sum
        ∙ sym (number_byte k b bs hb) in
      rw (not_less, not_full, shift, rest) (result value refl refl)

  -- From the beginning of a byte.
  read_bits_aligned :
      (b : ℕ) (bs : List ℕ) (i n : ℕ)
      → AreBytes (b ∷ bs)
      → n ≤ w
      → n < 256
      → n ≤ 8 * length (b ∷ bs)
      → read_bits w (b ∷ bs) i 0 n ≡ some (number 0 (take n (stream (b ∷ bs))), i + n / 8, n % 8)
  read_bits_aligned b [] i n (hb, hs) fits small h = read_bits_first b [] i n hb (omega arith)
  read_bits_aligned b (b2 ∷ bs) i n (hb, hs) fits small h = elim (le_or_more n 8) [
    | inl le ↦ read_bits_first b (b2 ∷ bs) i n hb le
    | inr (k, e, pos_k) ↦
        let at_byte : i + 1 + k / 8 ≡ i + (8 + k) / 8 = omega arith in
        let at_bit : k % 8 ≡ (8 + k) % 8 = omega arith in
        let rest =
          read_bits_aligned b2 bs (i + 1) k hs (omega arith) (omega arith) (omega arith)
          ∙ result refl at_byte at_bit in
        rw e (
          read_bits_more b (b2 ∷ bs) i k (i + (8 + k) / 8) ((8 + k) % 8) hb pos_k (omega arith)
            (omega arith) (omega arith) rest)
  ]

read_bits_at :
    (w : ℕ) (bs : List ℕ) (i r n : ℕ)
    → AreBytes bs
    → 8 ≤ w
    → n ≤ w
    → n < 256
    → r < 8
    → 0 < length bs
    → r + n ≤ 8 * length bs
    → (r ≡ 0) ⊎ (r + n ≤ 8)
    → read_bits w bs i r n
      ≡ triple (number 0 (take n (drop r (stream bs)))) (i + (r + n) / 8) ((r + n) % 8)
read_bits_at w [] i r n h wide fits small pr some_left enough place = absurd (omega arith)
read_bits_at w (b ∷ bs) i r n h wide fits small pr some_left enough (inl start) =
    let e : n ≡ 0 + n = omega arith in
    rw start (
      read_bits_aligned w wide b bs i n h fits small (omega arith)
      ∙ ap (λ z. triple (number 0 (take n (stream (b ∷ bs)))) (i + z / 8) (z % 8)) e)
read_bits_at w (b ∷ bs) i r n (hb, hs) wide fits small pr some_left enough (inr within) =
    read_bits_within w wide b bs i r n hb pr within

AreBytes-drop : (k : ℕ) (bs : List ℕ) → AreBytes bs → AreBytes (drop k bs)
AreBytes-drop zero bs h = h
AreBytes-drop (suc k) [] h = tt
AreBytes-drop (suc k) (b ∷ bs) (e, h) = AreBytes-drop k bs h

-- U reads `n` bits at the current place: the result is the number that these bits are, the highest
-- first, and the place moves on by `n` bits. The type has room for `n` bits and the data has them,
-- and the bits are all in the current byte or the place is the beginning of a byte.
pub u_lem :
    (w : ℕ) (t : BitsReader) (n : ℕ)
    → AreBytes t.bytes
    → 8 ≤ w
    → n ≤ w
    → n < 256
    → t.readed_in_byte < 8
    → t.readed_byte < length t.bytes
    → 8 * t.readed_byte + t.readed_in_byte + n ≤ 8 * length t.bytes
    → (t.readed_in_byte ≡ 0) ⊎ (t.readed_in_byte + n ≤ 8)
    → let place = 8 * t.readed_byte + t.readed_in_byte in
      u w t n
      ≡ some (
        number 0 (take n (drop place (stream t.bytes))),
        record t { readed_byte = (place + n) / 8; readed_in_byte = (place + n) % 8 },
      )
unfolding u
u_lem w t n bytes wide fits small in_byte byte enough place =
    let k = t.readed_byte in
    let r = t.readed_in_byte in
    let left = length-drop k t.bytes in
    let read =
      read_bits_at w (drop k t.bytes) k r n (AreBytes-drop k t.bytes bytes) wide fits small in_byte
        (omega arith) (omega arith) place in
    let value = ap (λ z. number 0 (take n z)) (sym (drop-stream k r t.bytes)) in
    let at_byte : k + (r + n) / 8 ≡ (8 * k + r + n) / 8 = omega arith in
    let at_bit : (r + n) % 8 ≡ (8 * k + r + n) % 8 = omega arith in
    rw (u, read)
      (λ i. some (value i, record t { readed_byte = at_byte i; readed_in_byte = at_bit i }))
