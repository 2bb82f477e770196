-- ===== src/Decoder/Integers.antt =====
-- Itob and Btoi of decoder/tool/B_I.go. A byte is a number below 256, and a w-bit integer, signed
-- or not, is its bit pattern, a number below 2 ^ w: a conversion between two types of one width
-- keeps it. A shift right is a division and a shift left a multiplication; the bytes that Btoi
-- joins by `|` have no bit in common, so `|` is written as `+`.
pub mod Reading
pub mod RoundTrip
mod Tests
use part.Common.{
  ==_iff, ==_refl, Bool, Bool-cases, List, Option, [], ap, append-nil, append_assoc, ap₂, arith,
  drop, drop-append_exact, drop-append_sum, drop-drop, drop-min, drop-take, drop_all, false,
  get_elem?, if◌then◌else◌, inl, inr, leb, leb→le, length, length-append, length-drop,
  length-replicate, length-set, length-take, le→leb, ltb, ltb→lt, lt→ltb, max, min, negsuc, none,
  not, pos, refl, replicate, require, set, some, suc, sym, take, take-append, take-append-drop,
  take-append_exact, take-append_sum, take-min, take-take, take_all, true, zero, ℕ, ℤ, ◌%◌, ◌&&◌,
  ◌*◌, ◌++◌, ◌+◌, ◌-◌, ◌/◌, ◌<◌, ◌==◌, ◌>>=◌, ◌>>◌, ◌^◌, ◌||◌, ◌↔◌, ◌∙◌, ◌∷◌, ◌≡◌, ◌≢◌, ◌≤◌, ◌⊎◌,
}

abbrev pub byte : ℕ → ℕ
byte v = v % 256

pub itob64 : ℕ → List ℕ
itob64 v =
    byte (v / 72057594037927936)
    ∷ byte (v / 281474976710656)
    ∷ byte (v / 1099511627776)
    ∷ byte (v / 4294967296)
    ∷ byte (v / 16777216)
    ∷ byte (v / 65536)
    ∷ byte (v / 256)
    ∷ byte v
    ∷ []

unfoldable pub itob32 : ℕ → List ℕ
itob32 v = byte (v / 16777216) ∷ byte (v / 65536) ∷ byte (v / 256) ∷ byte v ∷ []

pub itob16 : ℕ → List ℕ
itob16 v = byte (v / 256) ∷ byte v ∷ []

-- `bu[i+shift] = b[offset+i]` for the `n` values of i from `i` on. An index out of range panics.
pub copy_bytes : ℕ → ℕ → ℕ → List ℕ → ℕ → List ℕ → Option (List ℕ)
copy_bytes zero i shift b offset bu = some bu
copy_bytes (suc n) i shift b offset bu = do
  c ← get_elem? b (offset + i)
  require (ltb (i + shift) (length bu))
  copy_bytes n (i + 1) shift b offset (set bu (i + shift) c)

-- The number that the bytes spell, the first the highest, after the value `n`.
abbrev pub join_from : ℕ → List ℕ → ℕ
join_from n [] = n
join_from n (c ∷ cs) = join_from (n * 256 + c) cs

abbrev pub join : List ℕ → ℕ
join bu = join_from 0 bu

-- How many bytes are copied. With an offset past the end the length is negative and there are none.
abbrev pub available : List ℕ → ℕ → ℕ → ℕ
available b offset size = min size (length b - offset)

-- A size past 8 panics.
unfoldable pub btoi : List ℕ → ℕ → ℕ → Option ℕ
unfolding copy_bytes
btoi b offset size = do
  require (leb size 8)
  bu ← copy_bytes (available b offset size) 0 (8 - size) b offset (replicate 8 0)
  some (join bu)

pub btoui32 : List ℕ → ℕ → Option ℕ
unfolding copy_bytes
btoui32 b offset =
    let l = available b offset 4 in
    (do bu ← copy_bytes l 0 (4 - l) b offset (replicate 4 0); some (join bu))

pub btoi32 : List ℕ → ℕ → Option ℕ
unfolding copy_bytes
btoi32 b offset =
    let l = available b offset 4 in
    (do bu ← copy_bytes l 0 (4 - l) b offset (replicate 4 0); some (join bu))

pub btoui16 : List ℕ → ℕ → Option ℕ
unfolding copy_bytes
btoui16 b offset =
    let l = available b offset 2 in
    (do bu ← copy_bytes l 0 (2 - l) b offset (replicate 2 0); some (join bu))

pub btoi16 : List ℕ → ℕ → Option ℕ
unfolding copy_bytes
btoi16 b offset =
    let l = available b offset 2 in
    (do bu ← copy_bytes l 0 (2 - l) b offset (replicate 2 0); some (join bu))

pub btoi64 : List ℕ → ℕ → Option ℕ
unfolding copy_bytes
btoi64 b offset =
    let l = available b offset 8 in
    (do bu ← copy_bytes l 0 (8 - l) b offset (replicate 8 0); some (join bu))
