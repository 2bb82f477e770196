-- ===== src/Decoder/BitsReader/Golomb.antt =====
-- UE and SE of decoder/tool/bitsReader.go decode Exp-Golomb codes.
use part.Common.{
  List, ap, arith, drop, drop-drop, if◌then◌else◌, inr, length, length-append, length-drop,
  length-replicate, replicate, some, suc, sym, take, zero, ℕ, ◌%◌, ◌*◌, ◌++◌, ◌+◌, ◌-◌, ◌/◌, ◌<◌,
  ◌==◌, ◌^◌, ◌∙◌, ◌∷◌, ◌≡◌, ◌≤◌, ◌⊎◌,
}
use Prim.Native.Nat.{bit_or}
use native.Mathlib.Nat.{mod-eq_of_lt, pow-le-pow_right, pow-succ', one-le-pow}
use part.Decoder.BitsReader.{BitsReader, byte_sub, u, zeros, se}
use part.Decoder.BitsReader.Bits.{bit_or_power}
use part.Decoder.BitsReader.Numbers.{stream, number, length-stream, number_bound}
use part.Decoder.BitsReader.Reading.{AreBytes, u_lem}

-- The reader that is behind `p` bits.
abbrev pub placed : List ℕ → ℕ → BitsReader
placed bs p = record { bytes = bs; len = length bs; readed_byte = p / 8; readed_in_byte = p % 8 }

u-placed :
    (w : ℕ) (bs : List ℕ) (p n : ℕ)
    → AreBytes bs
    → 8 ≤ w
    → n ≤ w
    → n < 256
    → p < 8 * length bs
    → p + n ≤ 8 * length bs
    → (p % 8 ≡ 0) ⊎ (p % 8 + n ≤ 8)
    → u w (placed bs p) n ≡ some (number 0 (take n (drop p (stream bs))), placed bs (p + n))
u-placed w bs p n h wide fits small some_left enough within =
    let whole : 8 * (p / 8) + p % 8 ≡ p = omega arith in
    u_lem w (placed bs p) n h wide fits small (omega arith) (omega arith) (omega arith) within
    ∙ ap (λ z. some (number 0 (take n (drop z (stream bs))), placed bs (z + n))) whole

next_bit :
    (bs : List ℕ) (p x : ℕ) (ys : List ℕ)
    → AreBytes bs
    → drop p (stream bs) ≡ x ∷ ys
    → (u 8 (placed bs p) 1 ≡ some (x, placed bs (p + 1))) × (drop (p + 1) (stream bs) ≡ ys)
unfolding number
next_bit bs p x ys h e =
    let size : length (drop p (stream bs)) ≡ suc (length ys) = ap length e in
    let more : p < 8 * length bs =
      omega (arith, size, length-drop p (stream bs), length-stream bs) in
    let value : number 0 (take 1 (drop p (stream bs))) ≡ x =
      ap (λ z. number 0 (take 1 z)) e ∙ omega arith in
    (
      u-placed 8 bs p 1 h (omega arith) (omega arith) (omega arith) more (omega arith)
            (inr (omega arith))
          ∙ ap (λ z. some (z, placed bs (p + 1))) value,
      sym (drop-drop 1 p (stream bs)) ∙ ap (drop 1) e,
    )

zeros_lem :
    (bs : List ℕ) (k fuel move p : ℕ) (xs : List ℕ)
    → AreBytes bs
    → k < fuel
    → move + k < 256
    → drop p (stream bs) ≡ replicate k 0 ++ (1 ∷ xs)
    → (zeros fuel move (placed bs p) ≡ some (move + k, placed bs (p + k + 1)))
      × (drop (p + k + 1) (stream bs) ≡ xs)
unfolding zeros
zeros_lem bs k zero move p xs h lt small e = absurd (omega arith)
zeros_lem bs zero (suc fuel) move p xs h lt small e =
    let (bit, rest) = next_bit bs p 1 xs h e in
    let same : p + 1 ≡ p + 0 + 1 = omega arith in
    let still : move ≡ move + 0 = omega arith in
    (
      rw (zeros, bit) (λ i. some (still i, placed bs (same i))),
      ap (λ z. drop z (stream bs)) (sym same) ∙ rest,
    )
zeros_lem bs (suc k) (suc fuel) move p xs h lt small e =
    let (bit, rest) = next_bit bs p 0 (replicate k 0 ++ (1 ∷ xs)) h e in
    let one_more : (move + 1) % 256 ≡ move + 1 = omega arith in
    let (counted, after) =
      zeros_lem bs k fuel (move + 1) (p + 1) xs h (omega arith) (omega arith) rest in
    let same : p + 1 + k + 1 ≡ p + suc k + 1 = omega arith in
    let still : move + 1 + k ≡ move + suc k = omega arith in
    (
      rw (zeros, bit, one_more, counted) (λ i. some (still i, placed bs (same i))),
      ap (λ z. drop z (stream bs)) (sym same) ∙ after,
    )

-- `low | 1 << k` at `w` bits.
joined : (w k low : ℕ) → k < w → low < 2 ^ k → bit_or low (2 ^ k % 2 ^ w) ≡ 2 ^ k + low
joined w k low h small =
    let double = pow-succ' 2 k in
    let room : 2 ^ suc k ≤ 2 ^ w = pow-le-pow_right (omega arith) h in
    let one_at_least = one-le-pow k 2 (omega arith) in
    let fits : 2 ^ k % 2 ^ w ≡ 2 ^ k = mod-eq_of_lt (omega arith) in
    ap (bit_or low) fits ∙ bit_or_power k low small

code_length :
    (bs : List ℕ) (p k : ℕ) (xs : List ℕ)
    → drop p (stream bs) ≡ replicate k 0 ++ (1 ∷ xs)
    → p + k + suc (length xs) ≡ 8 * length bs
code_length bs p k xs e =
    let parts = ap length e ∙ length-append (replicate k 0) (1 ∷ xs) in
    let size : length (drop p (stream bs)) ≡ k + suc (length xs) =
      omega (arith, parts, length-replicate {A = ℕ} k 0) in
    omega (arith, size, length-drop p (stream bs), length-stream bs)

abbrev signed : ℕ → ℕ → ℕ → ℕ
signed w bit v = if bit == 0 then (2 ^ w - v) % 2 ^ w else v

-- The same for SE, behind one zero more: the bit that follows is the sign, and where it is 0 the
-- number is negated, as an integer of `w` bits.
pub se_lem :
    (w : ℕ) (bs : List ℕ) (p k bit : ℕ) (xs ys : List ℕ)
    → AreBytes bs
    → 8 ≤ w
    → k < w
    → k < 255
    → drop p (stream bs) ≡ replicate (suc k) 0 ++ (1 ∷ xs)
    → drop k xs ≡ bit ∷ ys
    → ((p + suc k + 1) % 8 ≡ 0) ⊎ ((p + suc k + 1) % 8 + k ≤ 8)
    → se w (placed bs p)
      ≡ some (signed w bit (2 ^ k + number 0 (take k xs)), placed bs (p + suc k + 1 + k + 1))
unfolding se
se_lem w bs p k bit xs ys h wide fits small e sign within =
    let bound = code_length bs p (suc k) xs e in
    let follows = ap length sign in
    let (counted, after) =
      zeros_lem bs (suc k) (8 * length bs + 1) 0 p xs h (omega arith) (omega arith) e in
    let less : byte_sub (0 + suc k) 1 ≡ k = omega arith in
    let place = p + suc k + 1 in
    let more : k + 1 ≤ length xs = omega (arith, follows, length-drop k xs) in
    let read =
      u-placed w bs place k h wide (omega arith) (omega arith) (omega arith) (omega arith) within in
    let at_sign : drop (place + k) (stream bs) ≡ bit ∷ ys =
      sym (drop-drop k place (stream bs)) ∙ ap (drop k) after ∙ sign in
    let last = (next_bit bs (place + k) bit ys h at_sign).0 in
    let low = number_bound k place bs in
    let value =
      ap (λ z. bit_or (number 0 (take k (drop place (stream bs)))) (2 ^ z % 2 ^ w)) less
      ∙ joined w k (number 0 (take k (drop place (stream bs)))) fits low in
    let spec = ap (λ z. 2 ^ k + number 0 (take k z)) after in
    rw (se, counted, less, read, last)
      (ap (λ z. some (signed w bit z, placed bs (place + k + 1))) (value ∙ spec))
