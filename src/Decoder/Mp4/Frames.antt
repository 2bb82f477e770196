-- ===== src/Decoder/Mp4/Frames.antt =====
-- deal of decoder/mp4/main.go on boxes that are sequences of the names, one behind the other.
use part.Common.{
  ==_iff, ==_refl, Bool, List, Option, [], ap, append_assoc, ap₂, arith, drop, drop-append_exact,
  false, get_elem?, if◌then◌else◌, length, length-append, none, refl, some, suc, sym, take,
  take-append_exact, true, ℕ, ◌++◌, ◌+◌, ◌-◌, ◌<◌, ◌==◌, ◌∙◌, ◌∷◌, ◌≡◌,
}
use part.Decoder.Mp4.{same, Ie}
use part.Decoder.Mp4.Dealing.{
  Visit, Row, Pass, goes, fails, faults, deal_box, deal_boxes, deals, deal,
}

abbrev pub names_of : List Ie → List (List ℕ)
names_of [] = []
names_of (ie ∷ ies) = ie.n ∷ names_of ies

abbrev pub concat : List (List Ie) → List Ie
concat [] = []
concat (fr ∷ frs) = fr ++ concat frs

-- Every frame has the names.
abbrev pub AreFrames : List (List ℕ) → List (List Ie) → Type 0
AreFrames names [] = Unit
AreFrames names (fr ∷ frs) = (names_of fr ≡ names) × AreFrames names frs

same_refl : (n : List ℕ) → same n n ≡ true
unfolding same
same_refl [] = refl
same_refl (c ∷ cs) = rw (==_refl c) (same_refl cs)

names_of-append : (xs ys : List Ie) → names_of (xs ++ ys) ≡ names_of xs ++ names_of ys
names_of-append [] ys = refl
names_of-append (x ∷ xs) ys = ap (λ l. x.n ∷ l) (names_of-append xs ys)

length-names_of : (xs : List Ie) → length (names_of xs) ≡ length xs
length-names_of [] = refl
length-names_of (x ∷ xs) = ap suc (length-names_of xs)

get_elem?-names_of :
    (xs ys : List Ie) (x : Ie) → get_elem? (names_of (xs ++ (x ∷ ys))) (length xs) ≡ some x.n
get_elem?-names_of [] ys x = refl
get_elem?-names_of (z ∷ xs) ys x = get_elem?-names_of xs ys x

module _ {ℓ κ} {W : Type ℓ} {E : Type κ} (names : List (List ℕ)) (f : List Ie → W → Visit W E) where
  abbrev row : ℕ → Row W E
  row k = record { box_names = names; match_count = k; f = f }

  -- The callback on one frame after the other, until it returns an error or wants no more.
  unfoldable pub each_frame : List (List Ie) → W → Pass W E
  each_frame [] w = goes (record { box_names = names; match_count = 0; f = f } ∷ []) w
  each_frame (fr ∷ frs) w =
      let r : Visit W E = f fr w in
      elim (r.err) [
        | some e ↦ fails e r.world
        | none ↦ elim (r.breakloop) [ true ↦ goes [] r.world | false ↦ each_frame frs r.world ]
      ]

module _ {ℓ κ} {W : Type ℓ} {E : Type κ} (names : List (List ℕ)) (f : List Ie → W → Visit W E)
    (ies : List Ie) where
  -- A box inside a frame.
  deal_box-inside :
      (cu : ℕ) (xs ys : List Ie) (x y : Ie) (w : W)
      → names_of (xs ++ (x ∷ y ∷ ys)) ≡ names
      → deal_box ies cu x (row names f (length xs) ∷ []) w
        ≡ goes (row names f (length xs + 1) ∷ []) w
  unfolding deal_box
  deal_box-inside cu xs ys x y w e =
      let found : get_elem? names (length xs) ≡ some x.n =
        ap (λ l. get_elem? l (length xs)) (sym e) ∙ get_elem?-names_of xs (y ∷ ys) x in
      let l = length-append xs (x ∷ y ∷ ys) in
      let len : length names ≡ length xs + suc (suc (length ys)) =
        ap length (sym e) ∙ length-names_of (xs ++ (x ∷ y ∷ ys)) ∙ l in
      let more : (length xs + 1 == length names) ≡ false = ground arith in
      rw (found, same_refl x.n, more) refl

  -- The last box of a frame.
  deal_box-last :
      (cu : ℕ) (xs : List Ie) (x : Ie) (w : W)
      → names_of (xs ++ (x ∷ [])) ≡ names
      → take (length names) (drop (cu + 1 - length names) ies) ≡ xs ++ (x ∷ [])
      → let r = f (xs ++ (x ∷ [])) w in
        deal_box ies cu x (row names f (length xs) ∷ []) w ≡ elim (r.err) [
          | some e ↦ fails e r.world
          | none ↦ goes (if r.breakloop then [] else row names f 0 ∷ []) r.world
        ]
  unfolding deal_box
  deal_box-last cu xs x w e part =
      let found : get_elem? names (length xs) ≡ some x.n =
        ap (λ l. get_elem? l (length xs)) (sym e) ∙ get_elem?-names_of xs [] x in
      let l = length-append xs (x ∷ []) in
      let len : length names ≡ length xs + 1 =
        ap length (sym e) ∙ length-names_of (xs ++ (x ∷ [])) ∙ l in
      let last : (length xs + 1 == length names) ≡ true = (==_iff _ _).1 (sym len) in
      rw (found, same_refl x.n, last)
        (ap
          (λ fr.
            let r = f fr w in
            elim (r.err) [
              | some e ↦ fails e r.world
              | none ↦ goes (if r.breakloop then [] else row names f 0 ∷ []) r.world
            ])
          part)

  abbrev no_rows : List (Row W E)
  no_rows = []

  deal_boxes_none : (cu : ℕ) (rest : List Ie) (w : W) → deal_boxes ies cu rest no_rows w ≡ goes [] w
  unfolding deal_boxes
  deal_boxes_none cu [] w = refl
  deal_boxes_none cu (x ∷ rest) w = refl

  abbrev after_frame : ℕ → List Ie → List Ie → W → Pass W E
  after_frame cu rest fr w =
      let r = f fr w in
      elim (r.err) [
        | some e ↦ fails e r.world
        | none ↦ deal_boxes ies cu rest (if r.breakloop then [] else row names f 0 ∷ []) r.world
      ]

  settle :
      (k : ℕ) (rest : List Ie) (o : Option E) (b : Bool) (v : W)
      → let o' : Pass W E = elim o [
        | some e ↦ fails e v
        | none ↦ goes (if b then [] else row names f 0 ∷ []) v
      ] in
        elim o' [ goes rs v ↦ deal_boxes ies k rest rs v | fails e v ↦ fails e v | faults ↦ faults ]
        ≡ elim o [
          | some e ↦ fails e v
          | none ↦ deal_boxes ies k rest (if b then [] else row names f 0 ∷ []) v
        ]
  settle k rest none b v = refl
  settle k rest (some e) b v = refl

  -- The rest of a frame, and what comes behind it.
  deal_boxes-frame :
      (pre xs ys rest : List Ie) (x : Ie) (w : W)
      → ies ≡ pre ++ ((xs ++ (x ∷ ys)) ++ rest)
      → names_of (xs ++ (x ∷ ys)) ≡ names
      → deal_boxes ies (length pre + length xs) ((x ∷ ys) ++ rest) (row names f (length xs) ∷ []) w
        ≡ after_frame (length pre + length (xs ++ (x ∷ ys))) rest (xs ++ (x ∷ ys)) w
  unfolding deal_boxes
  deal_boxes-frame pre xs [] rest x w e n =
      let fr = xs ++ (x ∷ []) in
      let l = length-append xs (x ∷ []) in
      let len : length names ≡ length fr = ap length (sym n) ∙ length-names_of fr in
      let begin : length pre + length xs + 1 - length names ≡ length pre = omega arith in
      let next : length pre + length xs + 1 ≡ length pre + length fr = omega arith in
      let part : take (length names) (drop (length pre + length xs + 1 - length names) ies) ≡ fr =
        ap (λ k. take (length names) (drop k ies)) begin
        ∙ ap (λ l. take (length names) (drop (length pre) l)) e
        ∙ ap (take (length names)) (drop-append_exact (length pre) pre (fr ++ rest) refl)
        ∙ take-append_exact (length names) fr rest len in
      rw (deal_box-last (length pre + length xs) xs x w n part) (
        settle (length pre + length xs + 1) rest (f fr w).err (f fr w).breakloop (f fr w).world
        ∙ ap (λ k. after_frame k rest fr w) next)
  deal_boxes-frame pre xs (y ∷ ys) rest x w e n =
      let xs' = xs ++ (x ∷ []) in
      let l = length-append xs (x ∷ []) in
      let fr = append_assoc xs (x ∷ []) (y ∷ ys) in
      let next : length pre + length xs + 1 ≡ length pre + length xs' = omega arith in
      rw (deal_box-inside (length pre + length xs) xs ys x y w n) (
        ap₂ (λ k c. deal_boxes ies k ((y ∷ ys) ++ rest) (row names f c ∷ []) w) next (sym l)
        ∙ deal_boxes-frame pre xs' ys rest y w (e ∙ ap (λ m. pre ++ (m ++ rest)) (sym fr))
            (ap names_of fr ∙ n)
        ∙ ap (λ m. after_frame (length pre + length m) rest m w) fr)

  rests :
      (frs : List (List Ie)) (k : ℕ) (o : Option E) (b : Bool) (v : W)
      → deal_boxes ies k (concat frs) (row names f 0 ∷ []) v ≡ each_frame names f frs v
      → elim o [
        | some e ↦ fails e v
        | none ↦ deal_boxes ies k (concat frs) (if b then [] else row names f 0 ∷ []) v
      ]
        ≡ elim o [
          | some e ↦ fails e v
          | none ↦ elim b [ true ↦ goes [] v | false ↦ each_frame names f frs v ]
        ]
  rests frs k (some e) b v h = refl
  rests frs k none true v h = deal_boxes_none k (concat frs) v
  rests frs k none false v h = h

  deal_boxes-each_frame :
      (frs : List (List Ie)) (pre : List Ie) (w : W)
      → ies ≡ pre ++ concat frs
      → 0 < length names
      → AreFrames names frs
      → deal_boxes ies (length pre) (concat frs) (row names f 0 ∷ []) w ≡ each_frame names f frs w
  unfolding deal_boxes each_frame
  deal_boxes-each_frame [] pre w e some_names are = refl
  deal_boxes-each_frame ([] ∷ frs) pre w e some_names (n, are) =
      absurd (let l = ap length (sym n) in omega arith)
  deal_boxes-each_frame ((x ∷ ys) ∷ frs) pre w e some_names (n, are) =
      let fr = x ∷ ys in
      let l = length-append pre fr in
      let start : length pre + 0 ≡ length pre = omega arith in
      let ih = λ (v : W).
        deal_boxes-each_frame frs (pre ++ fr) v (e ∙ sym (append_assoc pre fr (concat frs)))
          some_names are in
      ap (λ k. deal_boxes ies k (fr ++ concat frs) (row names f 0 ∷ []) w) (sym start)
      ∙ deal_boxes-frame pre [] ys (concat frs) x w e n
      ∙ rests frs (length pre + length fr) (f fr w).err (f fr w).breakloop (f fr w).world (
          ap (λ k. deal_boxes ies k (concat frs) (row names f 0 ∷ []) (f fr w).world) (sym l)
          ∙ ih (f fr w).world)

-- deal on boxes that are frames with the given names, one behind the other, calls its function on
-- every frame in order, until it returns an error or wants no more, and does not panic.
pub deal-each_frame {ℓ κ} :
    {W : Type ℓ} {E : Type κ} (names : List (List ℕ)) (f : List Ie → W → Visit W E)
    (frs : List (List Ie)) (w : W)
    → 0 < length names
    → AreFrames names frs
    → deal (concat frs) names f w ≡ each_frame names f frs w
unfolding deal deals
deal-each_frame names f frs w some_names are =
    deal_boxes-each_frame names f (concat frs) frs [] w refl some_names are
