-- ===== src/Decoder/Mp4.antt =====
-- The boxes of decoder/mp4/main.go: searchBox and decode; the children Dealing and Init have deal,
-- deals and Init_fmp4. Bytes are numbers
-- below 256 and a name is its four bytes. `spare` are the bytes of the array behind the slice, up
-- to its capacity, which an index of a slice expression may reach. Positions are natural numbers:
-- where the code would take a negative one it panics at the next read.
pub mod Dealing
pub mod Init
pub mod Boxes
pub mod Decoding
pub mod Faults
pub mod Frames
mod Tests
use part.Common.{
  ==_iff, ==_refl, Bool, Bool-cases, List, Option, Option-cases, [], ap, append-nil, append_assoc,
  ap₂, arith, drop, drop-append_exact, drop-append_sum, drop-drop, drop-min, drop-take, drop_all,
  false, get_elem?, if◌then◌else◌, inl, inr, leb, leb→le, length, length-append, length-drop,
  length-replicate, length-set, length-take, le→leb, ltb, ltb→lt, lt→ltb, max, min, negsuc, none,
  not, pos, refl, replicate, require, set, some, suc, sym, take, take-append, take-append-drop,
  take-append_exact, take-append_sum, take-min, take-take, take_all, true, zero, ℕ, ℤ, ◌%◌, ◌&&◌,
  ◌*◌, ◌++◌, ◌+◌, ◌-◌, ◌/◌, ◌<◌, ◌==◌, ◌>>=◌, ◌>>◌, ◌^◌, ◌||◌, ◌↔◌, ◌∙◌, ◌∷◌, ◌≡◌, ◌≢◌, ◌≤◌, ◌⊎◌,
}
use part.Decoder.Integers.{btoi}

unfoldable pub same : List ℕ → List ℕ → Bool
same [] [] = true
same [] (d ∷ ds) = false
same (c ∷ cs) [] = false
same (c ∷ cs) (d ∷ ds) = (c == d) && same cs ds

unfoldable pub find_name : List ℕ → List (List ℕ × Bool) → Option Bool
unfolding same
find_name name [] = none
find_name name ((n, pure) ∷ rows) = if same n name then some pure else find_name name rows

-- boxs: whether the box is taken as a whole, or its content is searched for boxes.
abbrev pub boxs : List (List ℕ × Bool)
boxs =
    (102 ∷ 116 ∷ 121 ∷ 112 ∷ [], true)
    ∷ (109 ∷ 111 ∷ 111 ∷ 118 ∷ [], false)
    ∷ (109 ∷ 118 ∷ 104 ∷ 100 ∷ [], true)
    ∷ (116 ∷ 114 ∷ 97 ∷ 107 ∷ [], false)
    ∷ (116 ∷ 107 ∷ 104 ∷ 100 ∷ [], true)
    ∷ (109 ∷ 100 ∷ 105 ∷ 97 ∷ [], false)
    ∷ (109 ∷ 100 ∷ 104 ∷ 100 ∷ [], true)
    ∷ (104 ∷ 100 ∷ 108 ∷ 114 ∷ [], true)
    ∷ (109 ∷ 105 ∷ 110 ∷ 102 ∷ [], true)
    ∷ (109 ∷ 118 ∷ 101 ∷ 120 ∷ [], true)
    ∷ (109 ∷ 111 ∷ 111 ∷ 102 ∷ [], false)
    ∷ (109 ∷ 102 ∷ 104 ∷ 100 ∷ [], true)
    ∷ (116 ∷ 114 ∷ 97 ∷ 102 ∷ [], false)
    ∷ (116 ∷ 102 ∷ 104 ∷ 100 ∷ [], true)
    ∷ (116 ∷ 102 ∷ 100 ∷ 116 ∷ [], true)
    ∷ (116 ∷ 114 ∷ 117 ∷ 110 ∷ [], true)
    ∷ (109 ∷ 100 ∷ 97 ∷ 116 ∷ [], true)
    ∷ []

-- `ie`: the name of a box, its start and its end.
pub record Ie : Type 0 where
  pub n : List ℕ
  pub i : ℕ
  pub e : ℕ

pub data Err : Type 0 where
  eof unknown_box mis_box cant_resync no_trak : Err

-- errors.Is(err, io.EOF)
abbrev pub is_eof : Err → Bool
is_eof eof = true
is_eof _ = false

-- What searchBox returns, with the new value of `*cu`.
pub record Found : Type 0 where
  pub ie : Ie
  pub cu : ℕ
  pub err : Option Err

unfoldable pub search_box : List ℕ → List ℕ → ℕ → Option Found
unfolding find_name
search_box buf spare cu = do
  size ← btoi buf cu 4
  require (leb (cu + 8) (length buf + length spare))
  some (
      let name : List ℕ = take 4 (drop (cu + 4) (buf ++ spare)) in
      let ie : Ie = record { n = name; i = cu; e = cu + size } in
      elim (find_name name boxs) [
        | none ↦ record { ie = ie; cu = cu; err = some unknown_box }
        | some pure ↦
            if ltb (length buf) (cu + size)
            then record { ie = ie; cu = cu; err = some eof }
            else record { ie = ie; cu = if pure then cu + size else cu + 8; err = none }
      ])

unfoldable pub starts_with : List ℕ → List ℕ → Bool
starts_with [] bs = true
starts_with (c ∷ cs) [] = false
starts_with (c ∷ cs) (b ∷ bs) = (c == b) && starts_with cs bs

-- bytes.Index
unfoldable pub index_of : List ℕ → List ℕ → Option ℕ
unfolding starts_with
index_of name [] = if starts_with name [] then some 0 else none
index_of name (b ∷ bs) =
    if starts_with name (b ∷ bs)
    then some 0
    else elim (index_of name bs) [ none ↦ none | some k ↦ some (suc k) ]

-- A loop ends with a value, or panics, or is not over when the fuel is.
pub data Loop {ℓ} (A : Type ℓ) : Type ℓ where
  ends : A → Loop A
  panics : Loop A
  runs_on : Loop A

module _ (buf spare resync : List ℕ) where
  unfoldable pub decode_loop : ℕ → ℕ → List Ie → Option Err → Loop (List Ie × Option Err)
  unfolding search_box index_of
  decode_loop zero cu m err = runs_on
  decode_loop (suc fuel) cu m err = elim (ltb (cu + 3) (length buf)) [
    | false ↦ ends (m, err)
    | true ↦ elim (search_box buf spare cu) [
      | none ↦ panics
      | some f ↦ elim (f.err) [
        | none ↦ decode_loop fuel f.cu (m ++ (f.ie ∷ [])) err
        | some x ↦ elim (is_eof x) [
          | true ↦ ends (m, if length m == 0 then some mis_box else err)
          | false ↦ elim (index_of resync (drop cu buf)) [
            | none ↦ ends (m, some cant_resync)
            | some k ↦ elim (ltb (cu + k) 4) [
              | true ↦ panics
              | false ↦ decode_loop fuel (cu + k - 4) [] (some x)
            ]
          ]
        ]
      ]
    ]
  ]

  unfoldable pub decode : ℕ → Loop (List Ie × Option Err)
  unfolding decode_loop
  decode fuel = decode_loop fuel 0 [] none
