-- ===== src/Decoder/Mp4/Tests.antt =====
-- Witnesses for the theorems on the boxes of mp4.
use part.Common.{List, [], arith, none, refl, some, ℕ, ◌+◌, ◌==◌, ◌∷◌, ◌≡◌}
use part.Decoder.Integers.{btoi, itob32}
use part.Decoder.Mp4.{
  find_name, Ie, Err, unknown_box, Found, search_box, ends, runs_on, decode_loop, decode,
}
use part.Decoder.Mp4.Init.{ftyp, moov}
use part.Decoder.Mp4.Dealing.{Visit, goes, deal}
use part.Decoder.Mp4.Boxes.{
  leaf, node, Boxes, nil, cons, encode, encode_all, entries_all, count, IsWell,
}
use part.Decoder.Mp4.Decoding.{decode-encode_all}
use part.Decoder.Mp4.Faults.{Fails, decode_loop-unknown-Fails, decode_loop-zero_runs_on}
use part.Decoder.Mp4.Frames.{concat, each_frame, deal-each_frame}

abbrev mfhd : List ℕ
mfhd = 109 ∷ 102 ∷ 104 ∷ 100 ∷ []

abbrev mdat : List ℕ
mdat = 109 ∷ 100 ∷ 97 ∷ 116 ∷ []

abbrev boxes : Boxes
boxes =
    cons (leaf ftyp [])
      (cons (node moov (cons (leaf mfhd (1 ∷ 2 ∷ [])) nil)) (cons (leaf mdat (7 ∷ [])) nil))

decode-encode_all_example : decode (encode_all boxes) [] ftyp 5 ≡ ends (entries_all 0 boxes, none)
unfolding IsWell find_name count encode itob32
decode-encode_all_example =
    decode-encode_all boxes [] ftyp 5
      (
        (refl, refl, omega arith),
        (
          ((refl, refl, omega arith), ((refl, refl, omega arith), tt)),
          ((refl, refl, omega arith), tt),
        ),
      )
      (omega arith)

-- A box with the name abcd, and then ftyp.
abbrev noise : List ℕ
noise = 0 ∷ 0 ∷ 0 ∷ 8 ∷ 97 ∷ 98 ∷ 99 ∷ 100 ∷ 0 ∷ 0 ∷ 0 ∷ 8 ∷ ftyp

abbrev unknown : Found
unknown = record {
  ie = record { n = 97 ∷ 98 ∷ 99 ∷ 100 ∷ []; i = 0; e = 8 };
  cu = 0;
  err = some unknown_box;
}

found_unknown : search_box noise [] 0 ≡ some unknown
unfolding search_box btoi
found_unknown = refl

decode_loop-unknown-Fails_example : Fails (decode_loop noise [] ftyp 9 0 [] none)
decode_loop-unknown-Fails_example =
    decode_loop-unknown-Fails noise [] ftyp 9 0 [] none unknown (omega arith) found_unknown refl

-- decode has found the start of ftyp, and read it.
resynced : decode noise [] ftyp 9 ≡ ends (record { n = ftyp; i = 8; e = 16 } ∷ [], some unknown_box)
unfolding decode search_box btoi
resynced = refl

abbrev stuck : List ℕ
stuck = 0 ∷ 0 ∷ 0 ∷ 0 ∷ ftyp

decode_loop-zero_runs_on_example : decode_loop stuck [] ftyp 100 0 [] none ≡ runs_on
unfolding btoi find_name
decode_loop-zero_runs_on_example =
    decode_loop-zero_runs_on stuck [] ftyp 100 0 [] none (omega arith) refl refl

abbrev frame_at : ℕ → List Ie
frame_at at =
    record { n = ftyp; i = at; e = at + 8 } ∷ record { n = moov; i = at + 8; e = at + 16 } ∷ []

abbrev frames : List (List Ie)
frames = frame_at 0 ∷ frame_at 16 ∷ []

-- It counts the frames and wants two.
abbrev take_two : List Ie → ℕ → Visit ℕ Err
take_two m w = record { world = w + 1; breakloop = w == 1; err = none }

deal-each_frame_example :
    deal (concat frames) (ftyp ∷ moov ∷ []) take_two 0
    ≡ each_frame (ftyp ∷ moov ∷ []) take_two frames 0
deal-each_frame_example =
    deal-each_frame (ftyp ∷ moov ∷ []) take_two frames 0 (omega arith) (refl, (refl, tt))

-- A sequence that begins again on its first name is missed.
missed :
    deal (record { n = ftyp; i = 0; e = 8 } ∷ frame_at 8) (ftyp ∷ moov ∷ []) take_two 0
    ≡ goes (record { box_names = ftyp ∷ moov ∷ []; match_count = 0; f = take_two } ∷ []) 0
unfolding deal
missed = refl
