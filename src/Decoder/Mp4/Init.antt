-- ===== src/Decoder/Mp4/Init.antt =====
-- Init_fmp4 of decoder/mp4/main.go.
use part.Common.{
  List, Option, [], drop, false, get_elem?, if◌then◌else◌, length, none, some, take, true, ℕ, ◌++◌,
  ◌+◌, ◌-◌, ◌==◌, ◌>>=◌, ◌∷◌,
}
use part.Common.Keys.{nat_eq, insert}
use part.Decoder.Integers.{btoi}
use part.Decoder.Mp4.{Ie, Err, no_trak, Loop, ends, panics, runs_on, decode}
use part.Decoder.Mp4.Dealing.{Visit, goes, fails, faults, deal}

pub record Trak : Type 0 where
  pub timescale : ℕ
  pub track_id : ℕ
  pub handler_type : ℕ

-- m[k].i and m[k].e; deals gives a callback as many boxes as there are names.
abbrev pub start_of : List Ie → ℕ → ℕ
start_of m k = elim (get_elem? m k) [ none ↦ 0 | some ie ↦ ie.i ]

abbrev pub end_of : List Ie → ℕ → ℕ
end_of m k = elim (get_elem? m k) [ none ↦ 0 | some ie ↦ ie.e ]

-- The variables ftypI, ftypE, moovI and moovE.
pub record Spans : Type 0 where
  pub ftyp_i : ℕ
  pub ftyp_e : ℕ
  pub moov_i : ℕ
  pub moov_e : ℕ

unfoldable pub set_spans : List Ie → Spans → Visit Spans Err
set_spans m w = record {
  world = record {
    ftyp_i = start_of m 0;
    ftyp_e = end_of m 0;
    moov_i = start_of m 1;
    moov_e = end_of m 1;
  };
  breakloop = true;
  err = none;
}

-- The callback on the boxes of a track. `none` is a panic.
unfoldable pub add_trak :
    List ℕ → List Ie → Option (List (ℕ × Trak)) → Visit (Option (List (ℕ × Trak))) Err
unfolding insert
add_trak buf m w = record {
  world = do
    traks ← w
    track_id ← btoi buf (start_of m 0 + 20) 4
    timescale ← btoi buf (start_of m 2 + 20) 4
    handler_type ← get_elem? buf (start_of m 3 + 16)
    some (
        insert nat_eq track_id
          (record { timescale = timescale; track_id = track_id; handler_type = handler_type })
          traks);
  breakloop = false;
  err = none;
}

abbrev pub ftyp : List ℕ
ftyp = 102 ∷ 116 ∷ 121 ∷ 112 ∷ []

abbrev pub moov : List ℕ
moov = 109 ∷ 111 ∷ 111 ∷ 118 ∷ []

abbrev pub trak_names : List (List ℕ)
trak_names =
    (116 ∷ 107 ∷ 104 ∷ 100 ∷ [])
    ∷ (109 ∷ 100 ∷ 105 ∷ 97 ∷ [])
    ∷ (109 ∷ 100 ∷ 104 ∷ 100 ∷ [])
    ∷ (104 ∷ 100 ∷ 108 ∷ 114 ∷ [])
    ∷ []

-- The tracks after Init_fmp4, its bytes (`none` for nil) and its error.
pub record Init : Type 0 where
  pub traks : List (ℕ × Trak)
  pub b : Option (List ℕ)
  pub err : Option Err

-- Init_fmp4 on what decode has returned. The bytes are those of the two boxes.
unfoldable pub init_tail : List ℕ → List (ℕ × Trak) → List Ie → Loop Init
unfolding deal set_spans add_trak
init_tail buf traks ies =
    elim (deal ies (ftyp ∷ moov ∷ []) set_spans
      (record { ftyp_i = 0; ftyp_e = 0; moov_i = 0; moov_e = 0 })) [
        | faults ↦ panics
        | fails e v ↦ ends (record { traks = traks; b = none; err = some e })
        | goes rs s ↦ elim (deal ies trak_names (add_trak buf) (some traks)) [
          | faults ↦ panics
          | fails e v ↦ ends (record { traks = traks; b = none; err = some e })
          | goes rs v ↦ elim v [
            | none ↦ panics
            | some ts ↦ ends (
                if length ts == 0
                then record { traks = ts; b = none; err = some no_trak }
                else record {
                  traks = ts;
                  b = some (
                      take (s.ftyp_e - s.ftyp_i) (drop s.ftyp_i buf)
                      ++ take (s.moov_e - s.moov_i) (drop s.moov_i buf));
                  err = none;
                })
          ]
        ]
      ]

unfoldable pub init_fmp4 : List ℕ → List ℕ → ℕ → List (ℕ × Trak) → Loop Init
unfolding decode init_tail
init_fmp4 buf spare fuel traks = elim (decode buf spare ftyp fuel) [
  | panics ↦ panics
  | runs_on ↦ runs_on
  | ends r ↦ elim (r.1) [
    | some e ↦ ends (record { traks = traks; b = none; err = none })
    | none ↦ init_tail buf traks r.0
  ]
]
