-- ===== src/Decoder/Mp4/Dealing.antt =====
-- deal and deals of decoder/mp4/main.go: sequences of names in the list of boxes, each with its
-- callback.
use part.Common.{
  Bool, List, Option, [], drop, false, get_elem?, if◌then◌else◌, length, none, some, take, true, ℕ,
  ◌+◌, ◌-◌, ◌==◌, ◌∷◌,
}
use part.Decoder.Mp4.{Ie, same}

-- A callback of deals: its world, whether it is to be called no more, and its error.
pub record Visit {ℓ κ} (W : Type ℓ) (E : Type κ) : Type (ℓ ⊔ κ) where
  pub world : W
  pub breakloop : Bool
  pub err : Option E

-- A sequence of names, how many of them have been met, and the callback.
pub record Row {ℓ κ} (W : Type ℓ) (E : Type κ) : Type (ℓ ⊔ κ) where
  pub box_names : List (List ℕ)
  pub match_count : ℕ
  pub f : List Ie → W → Visit W E

-- The rows that are left and the world; or the error that ends deals.
pub data Pass {ℓ κ} (W : Type ℓ) (E : Type κ) : Type (ℓ ⊔ κ) where
  goes : List (Row W E) → W → Pass W E
  fails : E → W → Pass W E
  faults : Pass W E

module _ {ℓ κ} {W : Type ℓ} {E : Type κ} (ies : List Ie) where
  -- The inner loop on the box at `cu`. A row without names panics.
  unfoldable pub deal_box : ℕ → Ie → List (Row W E) → W → Pass W E
  unfolding same
  deal_box cu ie [] w = goes [] w
  deal_box cu ie (row ∷ rows) w = elim (get_elem? row.box_names row.match_count) [
    | none ↦ faults
    | some name ↦ elim (same ie.n name) [
      | false ↦ elim (deal_box cu ie rows w) [
        | goes rs v ↦ goes (record row { match_count = 0 } ∷ rs) v
        | fails e v ↦ fails e v
        | faults ↦ faults
      ]
      | true ↦ elim (row.match_count + 1 == length row.box_names) [
        | false ↦ elim (deal_box cu ie rows w) [
          | goes rs v ↦ goes (record row { match_count = row.match_count + 1 } ∷ rs) v
          | fails e v ↦ fails e v
          | faults ↦ faults
        ]
        | true ↦
            let len : ℕ = length row.box_names in
            let r : Visit W E = row.f (take len (drop (cu + 1 - len) ies)) w in
            elim (r.err) [
              | some e ↦ fails e r.world
              | none ↦ elim (deal_box cu ie rows r.world) [
                | goes rs v ↦
                    goes (if r.breakloop then rs else record row { match_count = 0 } ∷ rs) v
                | fails e v ↦ fails e v
                | faults ↦ faults
              ]
            ]
      ]
    ]
  ]

  -- The outer loop, over the boxes from `cu` on.
  unfoldable pub deal_boxes : ℕ → List Ie → List (Row W E) → W → Pass W E
  unfolding deal_box
  deal_boxes cu [] rows w = goes rows w
  deal_boxes cu (ie ∷ rest) [] w = goes [] w
  deal_boxes cu (ie ∷ rest) (row ∷ rows) w = elim (deal_box cu ie (row ∷ rows) w) [
    | goes rs v ↦ deal_boxes (cu + 1) rest rs v
    | fails e v ↦ fails e v
    | faults ↦ faults
  ]

  unfoldable pub deals : List (Row W E) → W → Pass W E
  unfolding deal_boxes
  deals rows w = deal_boxes 0 ies rows w

  unfoldable pub deal : List (List ℕ) → (List Ie → W → Visit W E) → W → Pass W E
  unfolding deals
  deal box_names f w = deals (record { box_names = box_names; match_count = 0; f = f } ∷ []) w
