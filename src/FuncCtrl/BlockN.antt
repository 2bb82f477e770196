-- ===== src/FuncCtrl/BlockN.antt =====
-- `BlockFuncN` of funcCtrl/FuncCtrl.go: a channel with room for `most`, of which only the number of
-- values counts. Block and BlockAll send one value after the other, so other callers come between.
pub mod Exclusion
pub mod Deadlock
mod Tests
use part.Common.{
  ==_iff, ==_refl, Bool, Bool-cases, List, Option, Option-cases, [], ap, append-nil, append_assoc,
  ap₂, arith, drop, drop-append_exact, drop-append_sum, drop-drop, drop-min, drop-take, drop_all,
  false, get_elem?, if◌then◌else◌, inl, inr, leb, leb→le, length, length-append, length-drop,
  length-replicate, length-set, length-take, le→leb, le→not_ltb, ltb, ltb→lt, lt→ltb, max, min,
  negsuc, none, not, pos, refl, replicate, require, set, some, suc, sym, take, take-append,
  take-append-drop, take-append_exact, take-append_sum, take-min, take-take, take_all, true, zero,
  ℕ, ℤ, ◌%◌, ◌&&◌, ◌*◌, ◌++◌, ◌+◌, ◌-◌, ◌/◌, ◌<◌, ◌==◌, ◌>>=◌, ◌>>◌, ◌^◌, ◌||◌, ◌↔◌, ◌∙◌, ◌∷◌, ◌≡◌,
  ◌≢◌, ◌≤◌, ◌⊎◌,
}

-- A caller that has sent `held` of `target` values; one that has got its unBlock; one whose unBlock
-- has still to receive.
pub data Task : Type 0 where
  acquiring : ℕ → ℕ → Task
  holding : ℕ → Task
  releasing : ℕ → Task

pub record BlockFuncN : Type 0 where
  pub n : ℕ
  pub tasks : List Task

unfoldable pub new_block_func_n : BlockFuncN
new_block_func_n = record { n = 0; tasks = [] }

pub data Step : Type 0 where
  block : Step
  block_all : Step
  go : ℕ → Step

module _ (most : ℕ) where
  -- What the next thing is that the caller does, and the number of values in the channel after it.
  -- A send to a full channel waits.
  unfoldable pub advance : Task → ℕ → Task × ℕ
  advance (acquiring held target) n =
      if held == target
      then (holding target, n)
      else if ltb n most
      then (acquiring (held + 1) target, n + 1)
      else (acquiring held target, n)
  advance (holding target) n = (releasing target, n)
  advance (releasing zero) n = (releasing zero, n)
  advance (releasing (suc held)) n = (releasing held, n - 1)

  unfoldable pub step : Step → BlockFuncN → BlockFuncN
  unfolding advance
  step block t = record t { tasks = t.tasks ++ (acquiring 0 1 ∷ []) }
  step block_all t = record t { tasks = t.tasks ++ (acquiring 0 most ∷ []) }
  step (go i) t = elim (get_elem? t.tasks i) [
    | none ↦ t
    | some x ↦ let r : Task × ℕ = advance x t.n in record { n = r.1; tasks = set t.tasks i r.0 }
  ]

  unfoldable pub run : List Step → BlockFuncN → BlockFuncN
  unfolding step
  run [] t = t
  run (x ∷ xs) t = run xs (step x t)
