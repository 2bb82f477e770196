-- ===== src/Decoder/Mp4/Faults.antt =====
-- Where decode and Init_fmp4 of decoder/mp4/main.go do not do what they mean to.
use part.Common.{
  Bool, Bool-cases, List, Option, Option-cases, [], ap, arith, drop, false, if◌then◌else◌, inl, inr,
  leb, length, le→leb, le→not_ltb, ltb, lt→ltb, none, refl, some, suc, take, true, zero, ℕ, ◌++◌,
  ◌+◌, ◌-◌, ◌<◌, ◌==◌, ◌∷◌, ◌≡◌, ◌≤◌,
}
use part.Decoder.Integers.{btoi}
use part.Decoder.Mp4.{
  find_name, boxs, Ie, Err, unknown_box, is_eof, Found, search_box, index_of, Loop, ends, panics,
  runs_on, decode_loop, decode,
}
use part.Decoder.Mp4.Init.{Init, Trak, init_fmp4, init_tail, ftyp}

abbrev pub has_err : Option Err → Bool
has_err none = false
has_err (some e) = true

-- It does not end without an error.
abbrev pub Fails : Loop (List Ie × Option Err) → Type 0
Fails (ends r) = has_err r.1 ≡ true
Fails panics = Unit
Fails runs_on = Unit

-- It does not end with bytes or an error.
abbrev pub IsNil : Loop Init → Type 0
IsNil (ends r) = (r.b ≡ none) × (r.err ≡ none)
IsNil panics = Unit
IsNil runs_on = Unit

module _ (buf spare resync : List ℕ) where
  -- Once `err` is set, it stays set.
  decode_loop-Fails :
      (fuel cu : ℕ) (m : List Ie) (x : Err)
      → Fails (decode_loop buf spare resync fuel cu m (some x))
  unfolding decode_loop
  decode_loop-Fails zero cu m x = tt
  decode_loop-Fails (suc fuel) cu m x = elim (Bool-cases (ltb (cu + 3) (length buf))) [
    | inr over ↦ rw (decode_loop, over) refl
    | inl going ↦ elim (Option-cases (search_box buf spare cu)) [
      | inl panic ↦ rw (decode_loop, going, panic) tt
      | inr (f, found) ↦ elim (Option-cases f.err) [
        | inl fine ↦
            rw (decode_loop, going, found, fine) (decode_loop-Fails fuel f.cu (m ++ (f.ie ∷ [])) x)
        | inr (y, bad) ↦ elim (Bool-cases (is_eof y)) [
          | inl at_end ↦ rw (decode_loop, going, found, bad, at_end) (either (length m == 0))
          | inr unknown ↦ elim (Option-cases (index_of resync (drop cu buf))) [
            | inl nowhere ↦ rw (decode_loop, going, found, bad, unknown, nowhere) refl
            | inr (k, at) ↦ elim (Bool-cases (ltb (cu + k) 4)) [
              | inl negative ↦ rw (decode_loop, going, found, bad, unknown, at, negative) tt
              | inr positive ↦
                  rw (decode_loop, going, found, bad, unknown, at, positive)
                    (decode_loop-Fails fuel (cu + k - 4) [] y)
            ]
          ]
        ]
      ]
    ]
  ]
    where
      either : (b : Bool) → has_err (if b then some Err.mis_box else some x) ≡ true
      either true = refl
      either false = refl

  -- A name that is not known, wherever decode meets it: decode does not return without an error,
  -- also where it finds the start of a box to go on from and reads boxes to the end.
  pub decode_loop-unknown-Fails :
      (fuel cu : ℕ) (m : List Ie) (err : Option Err) (f : Found)
      → cu + 3 < length buf
      → search_box buf spare cu ≡ some f
      → f.err ≡ some unknown_box
      → Fails (decode_loop buf spare resync fuel cu m err)
  unfolding decode_loop
  decode_loop-unknown-Fails zero cu m err f h found bad = tt
  decode_loop-unknown-Fails (suc fuel) cu m err f h found bad =
      let going = lt→ltb _ _ h in
      elim (Option-cases (index_of resync (drop cu buf))) [
        | inl nowhere ↦ rw (decode_loop, going, found, bad, nowhere) refl
        | inr (k, at) ↦ elim (Bool-cases (ltb (cu + k) 4)) [
          | inl negative ↦ rw (decode_loop, going, found, bad, at, negative) tt
          | inr positive ↦
              rw (decode_loop, going, found, bad, at, positive)
                (decode_loop-Fails fuel (cu + k - 4) [] unknown_box)
        ]
      ]

  search_box_zero :
      (cu : ℕ)
      → cu + 8 ≤ length buf
      → btoi buf cu 4 ≡ some 0
      → find_name (take 4 (drop (cu + 4) (buf ++ spare))) boxs ≡ some true
      → search_box buf spare cu
        ≡ some (record {
          ie = record { n = take 4 (drop (cu + 4) (buf ++ spare)); i = cu; e = cu + 0 };
          cu = cu;
          err = none;
        })
  unfolding search_box
  search_box_zero cu h size pure =
      let inside : leb (cu + 8) (length buf + length spare) ≡ true = le→leb _ _ (omega arith) in
      let whole : ltb (length buf) (cu + 0) ≡ false = le→not_ltb _ _ (omega arith) in
      let still : cu + 0 ≡ cu = omega arith in
      rw (size, inside, pure, whole)
        (ap
          (λ x. some (record {
            ie = record { n = take 4 (drop (cu + 4) (buf ++ spare)); i = cu; e = cu + 0 };
            cu = x;
            err = none;
          }))
          still)

  -- A box that is taken as a whole and says that its length is 0: decode reads it again and again
  -- and does not end with any fuel.
  pub decode_loop-zero_runs_on :
      (fuel cu : ℕ) (m : List Ie) (err : Option Err)
      → cu + 8 ≤ length buf
      → btoi buf cu 4 ≡ some 0
      → find_name (take 4 (drop (cu + 4) (buf ++ spare))) boxs ≡ some true
      → decode_loop buf spare resync fuel cu m err ≡ runs_on
  unfolding decode_loop
  decode_loop-zero_runs_on zero cu m err h size pure = refl
  decode_loop-zero_runs_on (suc fuel) cu m err h size pure =
      let going : ltb (cu + 3) (length buf) ≡ true = lt→ltb _ _ (omega arith) in
      let ie : Ie = record { n = take 4 (drop (cu + 4) (buf ++ spare)); i = cu; e = cu + 0 } in
      let found = search_box_zero cu h size pure in
      rw (decode_loop, going, found)
        (decode_loop-zero_runs_on fuel cu (m ++ (ie ∷ [])) err h size pure)

-- What Init_fmp4 makes of the result of decode.
init_of_Fails :
    (o : Loop (List Ie × Option Err)) (buf : List ℕ) (traks : List (ℕ × Trak))
    → Fails o
    → IsNil (elim o [
      | panics ↦ panics
      | runs_on ↦ runs_on
      | ends r ↦ elim (r.1) [
        | some e ↦ ends (record { traks = traks; b = none; err = none })
        | none ↦ init_tail buf traks r.0
      ]
    ])
init_of_Fails (ends (m, none)) buf traks h = absurd (cc)
init_of_Fails (ends (m, some e)) buf traks h = (refl, refl)
init_of_Fails panics buf traks h = tt
init_of_Fails runs_on buf traks h = tt

-- Where the name of the first box is not known, Init_fmp4 does not return bytes or an error: if it
-- ends, both are nil.
pub init_fmp4-unknown-IsNil :
    (buf spare : List ℕ) (fuel : ℕ) (traks : List (ℕ × Trak)) (f : Found)
    → 3 < length buf
    → search_box buf spare 0 ≡ some f
    → f.err ≡ some unknown_box
    → IsNil (init_fmp4 buf spare fuel traks)
unfolding init_fmp4 decode
init_fmp4-unknown-IsNil buf spare fuel traks f h found bad =
    init_of_Fails (decode buf spare ftyp fuel) buf traks
      (decode_loop-unknown-Fails buf spare ftyp fuel 0 [] none f (omega arith) found bad)
