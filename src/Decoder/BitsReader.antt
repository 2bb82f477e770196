-- ===== src/Decoder/BitsReader.antt =====
-- U, UE and SE of decoder/tool/bitsReader.go at a type of `w` bits. A uint8 is a number below 256.
mod Bits
mod Numbers
pub mod Reading
pub mod Golomb
mod Tests
use part.Common.{
  ==_iff, ==_refl, Bool, Bool-cases, List, Option, Option-cases, [], ap, append-nil, append_assoc,
  ap₂, arith, drop, drop-append_exact, drop-append_sum, drop-drop, drop-min, drop-take, drop_all,
  false, get_elem?, if◌then◌else◌, inl, inr, leb, leb→le, length, length-append, length-drop,
  length-replicate, length-set, length-take, le→leb, le→not_ltb, ltb, ltb→lt, lt→ltb, max, min,
  negsuc, none, not, pos, refl, replicate, require, set, some, suc, sym, take, take-append,
  take-append-drop, take-append_exact, take-append_sum, take-min, take-take, take_all, true, zero,
  ℕ, ℤ, ◌%◌, ◌&&◌, ◌*◌, ◌++◌, ◌+◌, ◌-◌, ◌/◌, ◌<◌, ◌==◌, ◌>>=◌, ◌>>◌, ◌^◌, ◌||◌, ◌↔◌, ◌∙◌, ◌∷◌, ◌≡◌,
  ◌≢◌, ◌≤◌, ◌⊎◌,
}
use Prim.Native.Nat.{bit_and, bit_or}

-- The field Data is bytes here. The field len is written once and not read.
pub record BitsReader : Type 0 where
  pub bytes : List ℕ
  pub len : ℕ
  pub readed_byte : ℕ
  pub readed_in_byte : ℕ

unfoldable pub new_bits_reader : List ℕ → BitsReader
new_bits_reader bytes = record {
  bytes = bytes;
  len = length bytes;
  readed_byte = 0;
  readed_in_byte = 0;
}

-- The subtraction of two uint8.
abbrev pub byte_sub : ℕ → ℕ → ℕ
byte_sub a b = (a + 256 - b) % 256

-- The bytes from the current one on, its index, the position in it, and how many bits to read: the
-- result with the new index and position, or a panic. `rest` is the call that reads on.
unfoldable pub read_bits : ℕ → List ℕ → ℕ → ℕ → ℕ → Option (ℕ × ℕ × ℕ)
read_bits w [] byte in_byte n = none
read_bits w (b ∷ bs) byte in_byte n =
    let r = bit_and (b % 2 ^ w) (255 / 2 ^ in_byte) in
    let rest = read_bits w bs (byte + 1) 0 (byte_sub n 8) in
    if ltb n (byte_sub 8 in_byte)
    then some (r / 2 ^ byte_sub (byte_sub 8 in_byte) n, byte, (in_byte + n) % 256)
    else if byte_sub 8 in_byte == n
    then some (r, byte + 1, 0)
    else elim rest [
      | none ↦ none
      | some (low, i, j) ↦ some (bit_or (r * 2 ^ byte_sub n (byte_sub 8 in_byte) % 2 ^ w) low, i, j)
    ]

unfoldable pub u : ℕ → BitsReader → ℕ → Option (ℕ × BitsReader)
unfolding read_bits
u w t n = elim (read_bits w (drop t.readed_byte t.bytes) t.readed_byte t.readed_in_byte n) [
  | none ↦ none
  | some (r, byte, in_byte) ↦ some (r, record t { readed_byte = byte; readed_in_byte = in_byte })
]

-- The loop of UE, which counts zeros; it reads the one behind them too. Each round reads a bit, so
-- one round more than there are bits is enough.
unfoldable pub zeros : ℕ → ℕ → BitsReader → Option (ℕ × BitsReader)
unfolding u
zeros zero move t = none
zeros (suc fuel) move t = elim (u 8 t 1) [
  | none ↦ none
  | some (bit, t') ↦
      let rest = zeros fuel ((move + 1) % 256) t' in if bit == 0 then rest else some (move, t')
]

unfoldable pub ue : ℕ → BitsReader → Option (ℕ × BitsReader)
unfolding u zeros
ue w t = elim (zeros (8 * length t.bytes + 1) 0 t) [
  | none ↦ none
  | some (move, t') ↦ elim (u w t' move) [
    | none ↦ none
    | some (r, t'') ↦ some ((bit_or r (2 ^ move % 2 ^ w) + 2 ^ w - 1) % 2 ^ w, t'')
  ]
]

-- A signed result is its bit pattern. The sign is read from the bit behind the number; 0 negates.
unfoldable pub se : ℕ → BitsReader → Option (ℕ × BitsReader)
unfolding u zeros
se w t = elim (zeros (8 * length t.bytes + 1) 0 t) [
  | none ↦ none
  | some (move, t1) ↦ elim (u w t1 (byte_sub move 1)) [
    | none ↦ none
    | some (low, t2) ↦
        let r = bit_or low (2 ^ byte_sub move 1 % 2 ^ w) in
        elim (u 8 t2 1) [
          | none ↦ none
          | some (bit, t3) ↦ some (if bit == 0 then (2 ^ w - r) % 2 ^ w else r, t3)
        ]
  ]
]
