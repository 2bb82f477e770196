-- ===== src/Limit.antt =====
-- limit/Limit.go. The bucket is a channel of which only the number of values counts; its goroutine
-- and the callers of TO take one step at a time. The two durations are parsed before: `druation` is
-- not negative, and of the time limit only the sign counts.
pub mod Bound
pub mod Passing
mod Tests
use part.Common.{
  ==_iff, ==_refl, Bool, Bool-cases, List, Option, Option-cases, [], ap, append-nil, append_assoc,
  ap₂, arith, drop, drop-append_exact, drop-append_sum, drop-drop, drop-min, drop-take, drop_all,
  false, get_elem?, if◌then◌else◌, inl, inr, leb, leb→le, length, length-append, length-drop,
  length-replicate, length-set, length-take, le→leb, le→not_ltb, ltb, ltb→lt, lt→ltb, max, min,
  negsuc, none, not, pos, refl, replicate, require, set, some, suc, sym, take, take-append,
  take-append-drop, take-append_exact, take-append_sum, take-min, take-take, take_all, true, zero,
  ℕ, ℤ, ◌%◌, ◌&&◌, ◌*◌, ◌++◌, ◌+◌, ◌-◌, ◌/◌, ◌<◌, ◌==◌, ◌>>=◌, ◌>>◌, ◌^◌, ◌||◌, ◌↔◌, ◌∙◌, ◌∷◌, ◌≡◌,
  ◌≢◌, ◌≤◌, ◌⊎◌,
}

pub data Timeout : Type 0 where
  forever at_once later : Timeout

-- `cancel` is live until Close; the goroutine closes the bucket after that. `adding` is `i` in its
-- inner loop, the sends that are left in this period. `passed` and `periods` count the callers that
-- took a value and the periods that have ended; the code does not keep them.
pub record Limit : Type 0 where
  pub max_num_in_period : ℕ
  pub druation : ℕ
  pub druation_timeout : Timeout
  pub bucket : ℕ
  pub is_closed : Bool
  pub is_live : Bool
  pub adding : ℕ
  pub wait_num : ℕ
  pub pre_bucket_token_num : ℕ
  pub passed : ℕ
  pub periods : ℕ

abbrev pub started : ℕ → ℕ → Timeout → Limit
started max_num druation timeout = record {
  max_num_in_period = max_num;
  druation = druation;
  druation_timeout = timeout;
  bucket = max_num;
  is_closed = false;
  is_live = true;
  adding = 0;
  wait_num = 0;
  pre_bucket_token_num = 0;
  passed = 0;
  periods = 0;
}

-- `none` is a panic.
unfoldable pub new : ℕ → ℕ → Timeout → Option Limit
new max_num druation timeout =
    if max_num == 0 then none else some (started max_num druation timeout)

-- A period ends: `len(bucket)` is kept, and the inner loop begins. None ends in the inner loop.
unfoldable pub tick : Limit → Limit
tick l = if (l.druation == 0) || l.is_closed || ltb 0 l.adding then l else record l {
  pre_bucket_token_num = l.bucket;
  adding = l.max_num_in_period;
  periods = l.periods + 1;
}

-- A round of the inner loop; with the bucket full the default branch ends it. Where the duration is
-- 0 a send is tried all the time, and waits while the bucket is full.
unfoldable pub refill : Limit → Limit
refill l =
    if l.is_closed
    then l
    else if l.druation == 0
    then (if ltb l.bucket l.max_num_in_period then record l { bucket = l.bucket + 1 } else l)
    else if l.adding == 0
    then l
    else if ltb l.bucket l.max_num_in_period
    then record l { bucket = l.bucket + 1; adding = l.adding - 1 }
    else record l { adding = 0 }

-- The goroutine returns because of the signal.
unfoldable pub stop : Limit → Limit
stop l = if l.is_live then l else record l { is_closed = true; adding = 0 }

unfoldable pub close : Limit → Limit
close l = record l { is_live = false }

-- The result of TO where it does not wait: `true` is over the limit. A caller that waits has `none`.
unfoldable pub to : Limit → Limit × Option Bool
to l =
    if not l.is_live
    then (l, some false)
    else if l.druation == 0
    then (record l { wait_num = l.wait_num + 1 }, none)
    else elim (l.druation_timeout) [
      | forever ↦ (record l { wait_num = l.wait_num + 1 }, none)
      | later ↦ (record l { wait_num = l.wait_num + 1 }, none)
      | at_once ↦
          if ltb 0 l.bucket
          then (record l { bucket = l.bucket - 1; passed = l.passed + 1 }, some false)
          else (l, some (not l.is_closed))
    ]

-- A caller that waits receives: a value, or from the closed bucket. `none`: it goes on waiting.
unfoldable pub receive : Limit → Limit × Option Bool
receive l =
    if l.wait_num == 0
    then (l, none)
    else if ltb 0 l.bucket
    then (
      record l { bucket = l.bucket - 1; wait_num = l.wait_num - 1; passed = l.passed + 1 },
      some false,
    )
    else if l.is_closed
    then (record l { wait_num = l.wait_num - 1 }, some false)
    else (l, none)

-- The timer of a caller that waits.
unfoldable pub time_out : Limit → Limit × Option Bool
time_out l =
    if (l.wait_num == 0) || (l.druation == 0) then (l, none) else elim (l.druation_timeout) [
      | later ↦ (record l { wait_num = l.wait_num - 1 }, some true)
      | _ ↦ (l, none)
    ]

unfoldable pub tk : Limit → ℕ
tk l = l.bucket

unfoldable pub ptk : Limit → ℕ
ptk l = l.pre_bucket_token_num

pub data Step : Type 0 where
  tick_step refill_step stop_step close_step to_step receive_step time_out_step : Step

unfoldable pub step : Step → Limit → Limit
unfolding tick refill stop close to receive time_out
step tick_step l = tick l
step refill_step l = refill l
step stop_step l = stop l
step close_step l = close l
step to_step l = (to l).0
step receive_step l = (receive l).0
step time_out_step l = (time_out l).0

unfoldable pub run : List Step → Limit → Limit
unfolding step
run [] l = l
run (x ∷ xs) l = run xs (step x l)
