-- ===== src/TmplKv/Times.antt =====
-- Comparisons of int64 values that the three stores (tmplKV/) make, and the ids of
-- idpool/Idpool.go. A time is a natural number of seconds; a limit or a duration may be negative.
use part.Common.{Bool, false, if◌then◌else◌, leb, ltb, negsuc, pos, true, ℕ, ℤ, ◌+◌, ◌-◌, ◌^◌}

-- now + exp in an int64, for exp >= 0: a sum past the largest value wraps to a negative one.
abbrev pub wrap_int64 : ℕ → ℤ
wrap_int64 n = if ltb n (2 ^ 63) then pos n else negsuc (2 ^ 64 - n - 1)

-- `limit >= 0 && n >= limit`
abbrev pub reached : ℤ → ℤ → Bool
reached (pos l) (pos n) = leb l n
reached _ _ = false

-- `n > limit`
abbrev pub exceeds : ℤ → ℤ → Bool
exceeds (pos n) (pos l) = ltb l n
exceeds (pos n) (negsuc l) = true
exceeds (negsuc n) (pos l) = false
exceeds (negsuc n) (negsuc l) = ltb n l

-- `now - kt <= duration`
abbrev pub within : ℕ → ℕ → ℤ → Bool
within now kt (pos d) = leb now (kt + d)
within now kt (negsuc d) = leb (now + d + 1) kt

abbrev pub is_negative : ℤ → Bool
is_negative (pos n) = false
is_negative (negsuc n) = true
