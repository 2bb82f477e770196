-- ===== src/Msgq/Tags/Tests.antt =====
-- Witnesses for the theorems on tags.
use part.Common.{Bool, List, [], false, refl, some, true, ℕ, ◌+◌, ◌∷◌, ◌≡◌}
use part.Msgq.{Run, Reg, Msgq, new, cancel_each, Outcome, Step, run, register_step, push_step}
use part.Msgq.Tags.{TagData, TagChan, returns, panics, chan_pull, close_chan, batch_tag, pull_tags}
use part.Msgq.Tags.Latest.{latest}
use part.Msgq.Tags.Batch.{pull_tags-cancel_silent}
use part.Msgq.Silence.{is_in, some_registers}

abbrev msgs : List (TagData ℕ)
msgs =
    record { tag = 1; data_of = 10 }
    ∷ record { tag = 2; data_of = 20 }
    ∷ record { tag = 1; data_of = 30 }
    ∷ []

latest_is_last : latest 1 msgs [] ≡ 30 ∷ []
unfolding latest
latest_is_last = refl

-- Where the context has been cancelled by the cancel function and a message gets to the channel
-- before that closes it, both close it.
abbrev done : TagChan ℕ
done = record { buf = []; size = 2; is_closed = false; is_done = true }

pull_closes :
    chan_pull 1 (record { tag = 1; data_of = 10 }) done
    ≡ returns (record done { is_closed = true }, true)
unfolding chan_pull
pull_closes = refl

cancel_panics : close_chan (record done { is_closed = true }) ≡ panics
unfolding close_chan
cancel_panics = refl

abbrev reg : ℕ → Reg
reg i = record { id = i; ty = 7 }

abbrev batch : List Reg
batch = reg 1 ∷ reg 2 ∷ []

abbrev tags : List (Reg × Bool)
tags = (reg 1, false) ∷ (reg 2, true) ∷ []

-- The function of tag 5 ends the batch.
abbrev ends : ℕ → ℕ → ℕ × Bool
ends d w = (w + d, true)

abbrev handle : ℕ → TagData ℕ → ℕ → Outcome ℕ
handle i msg w = batch_tag 5 ends batch msg w

abbrev type_of : TagData ℕ → ℕ
type_of msg = 7

abbrev five : TagData ℕ
five = record { tag = 5; data_of = 1 }

abbrev steps : List (Step (TagData ℕ))
steps = push_step five ∷ register_step (reg 3) true ∷ push_step five ∷ []

-- A message of another tag, before the cancel.
abbrev before : List (Step (TagData ℕ))
before = push_step (record { tag = 4; data_of = 1 }) ∷ []

pull_tags-cancel_silent_example :
    (m' : Msgq) × (rs : List Reg) × (pull_tags tags new ≡ some (m', rs))
    × (let s : Run ℕ = run type_of handle before m' 0 in
        is_in 2 (run type_of handle steps (cancel_each rs s.queue) s.world).calls ≡ false)
unfolding is_in some_registers
pull_tags-cancel_silent_example =
    pull_tags-cancel_silent type_of handle (reg 1, false) ((reg 2, true) ∷ []) new 2 before steps 0
      refl refl
