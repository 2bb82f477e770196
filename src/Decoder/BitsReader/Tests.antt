-- ===== src/Decoder/BitsReader/Tests.antt =====
-- Witnesses for the theorems on the reader of bits, and runs of it.
use part.Common.{List, [], arith, inl, none, refl, some, ℕ, ◌∷◌, ◌≡◌}
use part.Decoder.BitsReader.{BitsReader, u, read_bits, zeros, ue, se}
use part.Decoder.BitsReader.Reading.{u_lem}
use part.Decoder.BitsReader.Golomb.{placed}
use part.Decoder.BitsReader.Numbers.{stream, bits, number}

abbrev two_bytes : BitsReader
two_bytes = record { bytes = 0x12 ∷ 0x34 ∷ []; len = 2; readed_byte = 0; readed_in_byte = 0 }

abbrev moved : BitsReader
moved = record { bytes = 0x12 ∷ 0x34 ∷ []; len = 2; readed_byte = 1; readed_in_byte = 4 }

u_lem_example : u 16 two_bytes 12 ≡ some (0x123, moved)
unfolding u read_bits stream bits number
u_lem_example =
    u_lem 16 two_bytes 12 (omega arith, (omega arith, tt)) (omega arith) (omega arith) (omega arith)
      (omega arith) (omega arith) (omega arith) (inl refl)

abbrev in_between : BitsReader
in_between = record { bytes = 0x12 ∷ 0x34 ∷ []; len = 2; readed_byte = 0; readed_in_byte = 4 }

-- The 8 bits from the middle of the first byte are 0x23.
u_across : u 8 in_between 8 ≡ some (0x20, record in_between { readed_byte = 1; readed_in_byte = 0 })
unfolding u read_bits
u_across = refl

-- Of 6 bits there it reads many more, to the end of the data.
u_panics : u 8 in_between 6 ≡ none
unfolding u read_bits
u_panics = refl

-- 0 1 1 0 1 1 0 0.
abbrev codes : List ℕ
codes = 0x6c ∷ []

-- The code of 0 is a one. SE asks for 255 bits then.
se_zero : se 8 (placed (0x80 ∷ 0 ∷ []) 0) ≡ none
unfolding se zeros u read_bits
se_zero = refl

-- The code of 0 as the last bit.
ue_end : ue 8 (placed (1 ∷ []) 7) ≡ none
unfolding ue zeros u read_bits
ue_end = refl
