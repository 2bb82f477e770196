-- ===== src/Msgq/Tags.antt =====
-- The functions of msgq/Msgq.go that register by a tag: of Msgq and, the same with a pointer to the
-- data, of MsgType. A message is a tag and its data; the tags are numbers. What the caller's
-- functions do is a parameter. Two registrations that share a cancel function are a batch.
pub mod Batch
pub mod Latest
mod Tests
use part.Common.{
  ==_iff, ==_refl, Bool, Bool-cases, List, Option, Option-cases, [], ap, append-nil, append_assoc,
  ap₂, arith, drop, drop-append_exact, drop-append_sum, drop-drop, drop-min, drop-take, drop_all,
  false, get_elem?, if◌then◌else◌, inl, inr, leb, leb→le, length, length-append, length-drop,
  length-replicate, length-set, length-take, le→leb, ltb, ltb→lt, lt→ltb, max, min, negsuc, none,
  not, pos, refl, replicate, require, set, some, suc, sym, take, take-append, take-append-drop,
  take-append_exact, take-append_sum, take-min, take-take, take_all, true, zero, ℕ, ℤ, ◌%◌, ◌&&◌,
  ◌*◌, ◌++◌, ◌+◌, ◌-◌, ◌/◌, ◌<◌, ◌==◌, ◌>>=◌, ◌>>◌, ◌^◌, ◌||◌, ◌↔◌, ◌∙◌, ◌∷◌, ◌≡◌, ◌≢◌, ◌≤◌, ◌⊎◌,
}
use part.Common.Keys.{nat_eq, lookup}
use part.Msgq.{Reg, Msgq, cancel, cancel_each, register, Outcome}

-- Msgq_tag_data, MsgType_tag_data
pub record TagData {ℓ} (T : Type ℓ) : Type ℓ where
  pub tag : ℕ
  pub data_of : T

-- Pull_tag_only and PullSignOnly.
unfoldable pub tag_only {ℓ} : {T : Type ℓ} → ℕ → (T → Bool) → TagData T → Bool
tag_only key f msg = if msg.tag == key then f msg.data_of else false

-- Pull_tag and PullSign.
unfoldable pub tag_map {ℓ} : {T : Type ℓ} → List (ℕ × (T → Bool)) → TagData T → Bool
unfolding lookup
tag_map func_map msg = elim (lookup nat_eq msg.tag func_map) [
  | none ↦ false
  | some f ↦ f msg.data_of
]

-- The channel of Pull_tag_chan, the room it has, and whether its context is done.
pub record TagChan {ℓ} (T : Type ℓ) : Type ℓ where
  pub buf : List T
  pub size : ℕ
  pub is_closed : Bool
  pub is_done : Bool

-- A function on the channel returns, panics, or waits for a receiver.
pub data ChanResult {ℓ} (A : Type ℓ) : Type ℓ where
  returns : A → ChanResult A
  panics : ChanResult A
  blocks : ChanResult A

unfoldable pub close_chan {ℓ} : {T : Type ℓ} → TagChan T → ChanResult (TagChan T)
close_chan c = if c.is_closed then panics else returns (record c { is_closed = true })

-- `c <- data`
unfoldable pub send {ℓ} : {T : Type ℓ} → T → TagChan T → ChanResult (TagChan T)
send d c =
    if c.is_closed
    then panics
    else if ltb (length c.buf) c.size
    then returns (record c { buf = c.buf ++ (d ∷ []) })
    else blocks

-- The loop on `empty`: it receives until there is nothing, and then sends. A closed channel is
-- always ready to be received from, so there the loop does not end.
unfoldable pub replace {ℓ} : {T : Type ℓ} → T → TagChan T → ChanResult (TagChan T)
unfolding send
replace d c = if c.is_closed then blocks else send d (record c { buf = [] })

-- The function that Pull_tag_chan registers.
unfoldable pub chan_pull {ℓ} :
    {T : Type ℓ} → ℕ → TagData T → TagChan T → ChanResult (TagChan T × Bool)
unfolding close_chan replace
chan_pull key msg c =
    if msg.tag == key
    then (if c.is_done
        then elim (close_chan c) [
          | returns c' ↦ returns (c', true)
          | panics ↦ panics
          | blocks ↦ blocks
        ]
        else elim (replace msg.data_of c) [
          | returns c' ↦ returns (c', false)
          | panics ↦ panics
          | blocks ↦ blocks
        ])
    else returns (c, false)

-- The cancel function of Pull_tag_chan.
unfoldable pub chan_cancel {ℓ} :
    {T : Type ℓ} → Reg → TagChan T → Msgq → ChanResult (TagChan T × Msgq)
unfolding close_chan cancel
chan_cancel r c m =
    if c.is_done then returns (c, m) else elim (close_chan (record c { is_done = true })) [
      | returns c' ↦ returns (c', cancel r m)
      | panics ↦ panics
      | blocks ↦ blocks
    ]

-- The function that Register.Tag registers: `batch` are the registrations that the cancel
-- function of the batch cancels.
unfoldable pub batch_tag {ℓ κ} :
    {T : Type ℓ} {W : Type κ} → ℕ → (T → W → W × Bool) → List Reg → TagData T → W → Outcome W
batch_tag {W = W} key f batch msg w =
    if msg.tag == key
    then (let r : W × Bool = f msg.data_of w in
        record { world = r.0; result = r.1; cancels = if r.1 then batch else []; clears = false })
    else record { world = w; result = false; cancels = []; clears = false }

-- Register.Tag, and TagAsync, which registers at the front: `cur` cancels what `pre` does, and then
-- the new one.
unfoldable pub add_tag : Reg → Bool → Msgq → List Reg → Msgq × List Reg
unfolding register
add_tag r is_async m batch = (register r is_async m, batch ++ (r ∷ []))

unfoldable pub add_tags : List (Reg × Bool) → Msgq → List Reg → Msgq × List Reg
unfolding add_tag
add_tags [] m batch = (m, batch)
add_tags ((r, is_async) ∷ rs) m batch =
    let s : Msgq × List Reg = add_tag r is_async m batch in add_tags rs s.0 s.1

-- Pull_tags. Where batchTag registers nothing there is no cancel function, and it panics.
unfoldable pub pull_tags : List (Reg × Bool) → Msgq → Option (Msgq × List Reg)
unfolding add_tags
pull_tags rs m =
    let s : Msgq × List Reg = add_tags rs m [] in if length rs == 0 then none else some s
