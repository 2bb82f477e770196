-- ===== src/Common/Utf8.antt =====
-- Go's conversions between strings, as lists of bytes, and runes. They model no code.
use Prim.Native.Nat.{ℕ, zero, suc, ◌+◌, ◌*◌, ◌/◌, ◌%◌}
use mathlib.Core.Path.{◌≡◌, refl, sym, ap, ap₂, ◌∙◌}
use mathlib.Core.Logic.{inl, inr}
use mathlib.Core.Bool.{Bool, true, false, not, ◌&&◌, ◌||◌}
use mathlib.Core.List.{List, [], ◌∷◌, ◌++◌, append_assoc}
use native.Mathlib.Omega.{arith}
use part.Common.Tests.{if◌then◌else◌, Bool-cases, ◌==◌, ltb, leb}

-- What stands for bytes that are not UTF-8, and for numbers that are no characters.
abbrev pub rune_error : ℕ
rune_error = 0xfffd

abbrev is_between : ℕ → ℕ → ℕ → Bool
is_between low b high = leb low b && leb b high

abbrev is_two : ℕ → ℕ → Bool
is_two a b = is_between 0xc2 a 0xdf && is_between 0x80 b 0xbf

abbrev is_three : ℕ → ℕ → ℕ → Bool
is_three a b c =
    is_between 0xe0 a 0xef
    && is_between (if a == 0xe0 then 0xa0 else 0x80) b (if a == 0xed then 0x9f else 0xbf)
    && is_between 0x80 c 0xbf

abbrev is_four : ℕ → ℕ → ℕ → ℕ → Bool
is_four a b c d =
    is_between 0xf0 a 0xf4
    && is_between (if a == 0xf0 then 0x90 else 0x80) b (if a == 0xf4 then 0x8f else 0xbf)
    && is_between 0x80 c 0xbf
    && is_between 0x80 d 0xbf

-- The first rune of `a` and what follows, and how many bytes of it follow `a`.
unfoldable pub decode_rune : ℕ → List ℕ → ℕ × ℕ
decode_rune a s = if ltb a 0x80 then (a, 0) else elim s [
  | [] ↦ (rune_error, 0)
  | b ∷ s2 ↦ if is_two a b then (a % 32 * 64 + b % 64, 1) else elim s2 [
    | [] ↦ (rune_error, 0)
    | c ∷ s3 ↦ if is_three a b c then (a % 16 * 4096 + b % 64 * 64 + c % 64, 2) else elim s3 [
      | [] ↦ (rune_error, 0)
      | d ∷ s4 ↦
          if is_four a b c d
          then (a % 8 * 262144 + b % 64 * 4096 + c % 64 * 64 + d % 64, 3)
          else (rune_error, 0)
    ]
  ]
]

-- The runes behind `skip` bytes.
unfoldable pub runes_from : ℕ → List ℕ → List ℕ
unfolding decode_rune
runes_from skip [] = []
runes_from (suc skip) (a ∷ s) = runes_from skip s
runes_from zero (a ∷ s) = let r = decode_rune a s in r.0 ∷ runes_from r.1 s

-- []rune(s)
unfoldable pub to_runes : List ℕ → List ℕ
unfolding runes_from
to_runes s = runes_from 0 s

abbrev is_rune : ℕ → Bool
is_rune r = ltb r 0xd800 || is_between 0xe000 r 0x10ffff

unfoldable pub encode_rune : ℕ → List ℕ
encode_rune r =
    if ltb r 0x80
    then r ∷ []
    else if ltb r 0x800
    then (0xc0 + r / 64) ∷ (0x80 + r % 64) ∷ []
    else if not (is_rune r)
    then 0xef ∷ 0xbf ∷ 0xbd ∷ []
    else if ltb r 0x10000
    then (0xe0 + r / 4096) ∷ (0x80 + r / 64 % 64) ∷ (0x80 + r % 64) ∷ []
    else (0xf0 + r / 262144) ∷ (0x80 + r / 4096 % 64) ∷ (0x80 + r / 64 % 64) ∷ (0x80 + r % 64) ∷ []

-- string(rs)
unfoldable pub of_runes : List ℕ → List ℕ
unfolding encode_rune
of_runes [] = []
of_runes (r ∷ rs) = encode_rune r ++ of_runes rs

abbrev pub AreRunes : List ℕ → Type 0
AreRunes [] = Unit
AreRunes (r ∷ rs) = (is_rune r ≡ true) × AreRunes rs

decode_two :
    (a b : ℕ) (s : List ℕ)
    → ltb a 0x80 ≡ false
    → is_two a b ≡ true
    → decode_rune a (b ∷ s) ≡ (a % 32 * 64 + b % 64, 1)
unfolding decode_rune
decode_two a b s long two = rw (decode_rune, long, two) refl

decode_three :
    (a b c : ℕ) (s : List ℕ)
    → ltb a 0x80 ≡ false
    → is_two a b ≡ false
    → is_three a b c ≡ true
    → decode_rune a (b ∷ c ∷ s) ≡ (a % 16 * 4096 + b % 64 * 64 + c % 64, 2)
unfolding decode_rune
decode_three a b c s long two three = rw (decode_rune, long, two, three) refl

decode_four :
    (a b c d : ℕ) (s : List ℕ)
    → ltb a 0x80 ≡ false
    → is_two a b ≡ false
    → is_three a b c ≡ false
    → is_four a b c d ≡ true
    → decode_rune a (b ∷ c ∷ d ∷ s) ≡ (a % 8 * 262144 + b % 64 * 4096 + c % 64 * 64 + d % 64, 3)
unfolding decode_rune
decode_four a b c d s long two three four = rw (decode_rune, long, two, three, four) refl

runes_two :
    (r : ℕ) (s : List ℕ)
    → ltb r 0x80 ≡ false
    → ltb r 0x800 ≡ true
    → runes_from 0 ((0xc0 + r / 64) ∷ (0x80 + r % 64) ∷ s) ≡ r ∷ runes_from 0 s
unfolding runes_from
runes_two r s more two =
    let a = 0xc0 + r / 64 in
    let b = 0x80 + r % 64 in
    let value : a % 32 * 64 + b % 64 ≡ r = ground arith in
    let first = decode_two a b s (ground arith) (ground arith) in
    rw first (ap (λ z. z ∷ runes_from 0 s) value)

runes_three :
    (r : ℕ) (s : List ℕ)
    → is_rune r ≡ true
    → ltb r 0x800 ≡ false
    → ltb r 0x10000 ≡ true
    → runes_from 0 ((0xe0 + r / 4096) ∷ (0x80 + r / 64 % 64) ∷ (0x80 + r % 64) ∷ s)
      ≡ r ∷ runes_from 0 s
unfolding runes_from
runes_three r s h more three =
    let a = 0xe0 + r / 4096 in
    let b = 0x80 + r / 64 % 64 in
    let c = 0x80 + r % 64 in
    let value : a % 16 * 4096 + b % 64 * 64 + c % 64 ≡ r = ground arith in
    let first = decode_three a b c s (ground arith) (ground arith) (ground arith) in
    rw first (ap (λ z. z ∷ runes_from 0 s) value)

runes_four :
    (r : ℕ) (s : List ℕ)
    → is_rune r ≡ true
    → ltb r 0x10000 ≡ false
    → runes_from 0
        ((0xf0 + r / 262144) ∷ (0x80 + r / 4096 % 64) ∷ (0x80 + r / 64 % 64) ∷ (0x80 + r % 64) ∷ s)
      ≡ r ∷ runes_from 0 s
unfolding runes_from
runes_four r s h more =
    let a = 0xf0 + r / 262144 in
    let b = 0x80 + r / 4096 % 64 in
    let c = 0x80 + r / 64 % 64 in
    let d = 0x80 + r % 64 in
    let value : a % 8 * 262144 + b % 64 * 4096 + c % 64 * 64 + d % 64 ≡ r = ground arith in
    let first = decode_four a b c d s (ground arith) (ground arith) (ground arith) (ground arith) in
    rw first (ap (λ z. z ∷ runes_from 0 s) value)

runes_from-encode_rune :
    (r : ℕ) (s : List ℕ) → is_rune r ≡ true → runes_from 0 (encode_rune r ++ s) ≡ r ∷ runes_from 0 s
unfolding encode_rune runes_from decode_rune
runes_from-encode_rune r s h = elim (Bool-cases (ltb r 0x80)) [
  | inl one ↦ rw (encode_rune, one, decode_rune, one) refl
  | inr more ↦ elim (Bool-cases (ltb r 0x800)) [
    | inl two ↦ rw (encode_rune, more, two) (runes_two r s more two)
    | inr more2 ↦ elim (Bool-cases (ltb r 0x10000)) [
      | inl three ↦ rw (encode_rune, more, more2, h, three) (runes_three r s h more2 three)
      | inr four ↦ rw (encode_rune, more, more2, h, four) (runes_four r s h four)
    ]
  ]
]

runes_from-of_runes :
    (rs s : List ℕ) → AreRunes rs → runes_from 0 (of_runes rs ++ s) ≡ rs ++ runes_from 0 s
unfolding of_runes
runes_from-of_runes [] s h = refl
runes_from-of_runes (r ∷ rs) s (h, hs) =
    ap (runes_from 0) (append_assoc (encode_rune r) (of_runes rs) s)
    ∙ runes_from-encode_rune r (of_runes rs ++ s) h
    ∙ ap (λ z. r ∷ z) (runes_from-of_runes rs s hs)

-- The runes of a text of characters are these, also with more behind it.
pub to_runes-of_runes :
    (rs s : List ℕ) → AreRunes rs → to_runes (of_runes rs ++ s) ≡ rs ++ to_runes s
unfolding to_runes
to_runes-of_runes rs s h = runes_from-of_runes rs s h

pub of_runes-append : (xs ys : List ℕ) → of_runes (xs ++ ys) ≡ of_runes xs ++ of_runes ys
unfolding of_runes
of_runes-append [] ys = refl
of_runes-append (x ∷ xs) ys =
    ap (λ z. encode_rune x ++ z) (of_runes-append xs ys)
    ∙ sym (append_assoc (encode_rune x) (of_runes xs) (of_runes ys))

AreRunes-append : (xs ys : List ℕ) → AreRunes xs → AreRunes ys → AreRunes (xs ++ ys)
AreRunes-append [] ys h k = k
AreRunes-append (x ∷ xs) ys (e, h) k = (e, AreRunes-append xs ys h k)

-- Valid UTF-8.
abbrev pub IsText : List ℕ → Type 0
IsText s = (rs : List ℕ) × AreRunes rs × (s ≡ of_runes rs)

pub IsText-append : (s t : List ℕ) → IsText s → IsText t → IsText (s ++ t)
IsText-append s t (xs, hx, ex) (ys, hy, ey) =
    (xs ++ ys, AreRunes-append xs ys hx hy, ap₂ (λ a b. a ++ b) ex ey ∙ sym (of_runes-append xs ys))
