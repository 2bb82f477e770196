-- ===== src/Msgq/Tags/Latest.antt =====
-- The channel of Pull_tag_chan holds the latest data (msgq/Msgq.go).
use part.Common.{
  Bool-cases, List, [], false, if◌then◌else◌, inl, inr, lt→ltb, refl, true, ℕ, ◌<◌, ◌==◌, ◌∷◌, ◌≡◌,
}
use part.Msgq.Tags.{TagData, TagChan, ChanResult, returns, panics, blocks, send, replace, chan_pull}

module _ {ℓ} {T : Type ℓ} where
  -- The messages one after the other; `true` of the function ends its registration.
  unfoldable pub pull_each : ℕ → List (TagData T) → TagChan T → ChanResult (TagChan T)
  unfolding chan_pull
  pull_each key [] c = returns c
  pull_each key (msg ∷ msgs) c = elim (chan_pull key msg c) [
    | returns r ↦ elim (r.1) [ true ↦ returns r.0 | false ↦ pull_each key msgs r.0 ]
    | panics ↦ panics
    | blocks ↦ blocks
  ]

  -- The data of the last message with the tag, or else what there was.
  unfoldable pub latest : ℕ → List (TagData T) → List T → List T
  latest key [] old = old
  latest key (msg ∷ msgs) old = latest key msgs (if msg.tag == key then msg.data_of ∷ [] else old)

  -- While the context lives, and with room for at least one, messages neither panic nor wait for a
  -- receiver, however many come: the channel then holds the data of the last one with the tag and
  -- nothing else, or what it held if there was none.
  pub pull_each_lem :
      (key : ℕ) (msgs : List (TagData T)) (buf : List T) (size : ℕ)
      → 0 < size
      → let chan : List T → TagChan T =
          λ b. record { buf = b; size = size; is_closed = false; is_done = false } in
        pull_each key msgs (chan buf) ≡ returns (chan (latest key msgs buf))
  unfolding pull_each chan_pull latest replace send
  pull_each_lem key [] buf size h = refl
  pull_each_lem key (msg ∷ msgs) buf size h =
      let room = lt→ltb 0 size h in
      elim (Bool-cases (msg.tag == key)) [
        | inl same ↦
            rw (pull_each, chan_pull, same, room) (pull_each_lem key msgs (msg.data_of ∷ []) size h)
        | inr other ↦ rw (pull_each, chan_pull, other) (pull_each_lem key msgs buf size h)
      ]
