-- ===== src/Slice/Buf/Tests.antt =====
-- Runs of `Buf` (slice/Slice.go) on concrete buffers, and the theorems at inputs.
use part.Common.{
  ℕ, ◌+◌, ◌<◌, ◌≤◌, ◌≡◌, ◌≢◌, refl, pos, false, none, some, Option, List, [], ◌∷◌, length, arith,
}
use part.Slice.GoSlice.{append}
use part.Slice.Buf.{
  Buf, Err, over_max, over_len, new, append_data, size, remove_front, remove_front_pos, reset_size,
  read, get_pure_buf,
}
use part.Slice.Buf.Spec
use part.Slice.Buf.Spec.{Op}
use part.Slice.Buf.Valid.{IsValid, contents, view}
use part.Slice.Buf.Refine.{run, run_refines}
use part.Slice.Buf.Limits.{append_within}

-- The runtime doubles the array.
abbrev doubling : ℕ → ℕ → ℕ
doubling c n = c

abbrev three : Buf ℕ
three = record {
  maxsize = pos 4;
  bufsize = 3;
  modified = record { p = 8; t = 1 };
  buf = record { mem = 1 ∷ 2 ∷ 3 ∷ 0 ∷ []; len = 3; is_nil = false };
}

three-IsValid : IsValid three
three-IsValid = record { size_in = omega arith; len_in = omega arith; nil_empty = λ e. cc }

abbrev script : List (Op ℕ)
script =
    Op.append (1 ∷ 2 ∷ 3 ∷ [])
    ∷ Op.remove_front (pos 1)
    ∷ Op.append (4 ∷ [])
    ∷ Op.append (5 ∷ 6 ∷ [])
    ∷ Op.read 2
    ∷ Op.remove_back (pos 5)
    ∷ []

spec_replies :
    (Spec.run script (Spec.start (some (pos 4)))).1
    ≡ ([], none)
      ∷ ([], none)
      ∷ ([], none)
      ∷ ([], some over_max)
      ∷ (2 ∷ 3 ∷ [], none)
      ∷ ([], some over_len)
      ∷ []
unfolding Spec.run Spec.step Spec.add
spec_replies = refl

read_two : contents (elim (read 0 doubling three 2) [ none ↦ three | some r ↦ r.0 ]) ≡ 3 ∷ []
unfolding read get_pure_buf remove_front remove_front_pos reset_size append
read_two = refl

run_refines_example :
    (b' : Buf ℕ) × (run 0 doubling script (new 8 (some (pos 4)))
      ≡ some (b', (Spec.run script (Spec.start (some (pos 4)))).1))
    × IsValid b'
    × (view b' ≡ (Spec.run script (Spec.start (some (pos 4)))).0)
run_refines_example = run_refines 0 doubling script 8 (some (pos 4))

append_within_example :
    (r : Buf ℕ × Option Err) × (append_data 0 doubling three (7 ∷ []) ≡ some r)
    × (size r.0 ≤ 4)
    × (r.1 ≡ none → size r.0 ≡ size three + length {A = ℕ} (7 ∷ []))
    × (r.1 ≢ none → (r.0 ≡ three) × (4 < size three + length {A = ℕ} (7 ∷ [])))
unfolding size
append_within_example =
    append_within 0 doubling three (7 ∷ []) 4 three-IsValid refl refl (omega arith) (omega arith)
