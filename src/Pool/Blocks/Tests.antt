-- ===== src/Pool/Blocks/Tests.antt =====
-- Witnesses for the theorem on blocks.
use part.Common.{List, [], length, none, some, ℕ, ◌<◌, ◌∷◌, ◌≡◌, ◌⊎◌}
use part.Pool.Blocks.{Err, Blocks, Lent, new_blocks, get}
use part.Pool.Blocks.Offsets.{Call, AllApart}
use part.Pool.Blocks.Lending.{run, run-lends}

abbrev calls : List Call
calls = Call.get_call ∷ Call.get_call ∷ Call.put_call 1 ∷ Call.get_call ∷ []

run-lends_example :
    (t : Blocks ℕ) × (u : Blocks ℕ) × (held : List Lent) × (new_blocks 0 3 2 ≡ some t)
    × (run calls t [] ≡ some (u, held))
    × AllApart held
    × (((get u ≡ some (u, none, some Err.err_overflow)) × (length held ≡ 2))
        ⊎ ((v : Blocks ℕ) × (b : Lent) × (get u ≡ some (v, some b, none)) × (length held < 2)))
run-lends_example = run-lends 0 3 2 calls
