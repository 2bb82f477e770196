-- ===== src/Decoder/Mp4/Boxes.antt =====
-- Trees of boxes as mp4 files have them, what they are in bytes, and the list of their names and
-- places, for decode of decoder/mp4/main.go.
use part.Common.{Bool, List, [], false, length, some, suc, true, ℕ, ◌++◌, ◌+◌, ◌<◌, ◌∷◌, ◌≡◌}
use part.Decoder.Integers.{itob32}
use part.Decoder.Mp4.{Ie, boxs, find_name}

mutual
  pub data Box : Type 0 where
    leaf : List ℕ → List ℕ → Box
    node : List ℕ → Boxes → Box

  pub data Boxes : Type 0 where
    nil : Boxes
    cons : Box → Boxes → Boxes

-- The length of the box, the length itself and the name included, in four bytes; the name; and the
-- content.
abbrev pub frame : List ℕ → List ℕ → List ℕ
frame name content = itob32 (length content + 8) ++ (name ++ content)

unfoldable mutual
  pub encode : Box → List ℕ
  encode (leaf name payload) = frame name payload
  encode (node name bs) = frame name (encode_all bs)

  pub encode_all : Boxes → List ℕ
  encode_all nil = []
  encode_all (cons b bs) = encode b ++ encode_all bs

-- Every box before its content, at its place in the bytes.
unfoldable mutual
  unfolding encode

  pub entries : ℕ → Box → List Ie
  entries at (leaf name payload) = record { n = name; i = at; e = at + (length payload + 8) } ∷ []
  entries at (node name bs) =
      record { n = name; i = at; e = at + (length (encode_all bs) + 8) } ∷ entries_all (at + 8) bs

  pub entries_all : ℕ → Boxes → List Ie
  entries_all at nil = []
  entries_all at (cons b bs) = entries at b ++ entries_all (at + length (encode b)) bs

unfoldable mutual
  pub count : Box → ℕ
  count (leaf name payload) = 1
  count (node name bs) = suc (count_all bs)

  pub count_all : Boxes → ℕ
  count_all nil = 0
  count_all (cons b bs) = count b + count_all bs

-- The name is one of those of `boxs`, of the right kind, and the length fits in four bytes.
abbrev pub IsBox : Bool → List ℕ → List ℕ → Type 0
IsBox pure name content =
    (find_name name boxs ≡ some pure) × (length name ≡ 4) × (length content + 8 < 4294967296)

unfoldable mutual
  unfolding encode

  pub IsWell : Box → Type 0
  IsWell (leaf name payload) = IsBox true name payload
  IsWell (node name bs) = IsBox false name (encode_all bs) × AreWell bs

  pub AreWell : Boxes → Type 0
  AreWell nil = Unit
  AreWell (cons b bs) = IsWell b × AreWell bs
