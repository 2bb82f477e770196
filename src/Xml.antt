-- ===== src/Xml.antt =====
-- The decoder of xml/decoder.go over the bytes that its reader gives. bytes.TrimSpace and the
-- function that takes the nodes are parameters. A byte is a number.
pub mod RoundTrip
mod Tests
use part.Common.{
  ==_iff, ==_refl, Bool, Bool-cases, List, Option, Option-cases, [], ap, append-nil, append_assoc,
  ap₂, arith, drop, drop-append_exact, drop-append_sum, drop-drop, drop-min, drop-take, drop_all,
  false, get_elem?, if◌then◌else◌, inl, inr, leb, leb→le, length, length-append, length-drop,
  length-replicate, length-set, length-take, le→leb, ltb, ltb→lt, lt→ltb, max, min, negsuc, none,
  not, pos, refl, replicate, require, set, some, suc, sym, take, take-append, take-append-drop,
  take-append_exact, take-append_sum, take-min, take-take, take_all, true, zero, ℕ, ℤ, ◌%◌, ◌&&◌,
  ◌*◌, ◌++◌, ◌+◌, ◌-◌, ◌/◌, ◌<◌, ◌==◌, ◌>>=◌, ◌>>◌, ◌^◌, ◌||◌, ◌↔◌, ◌∙◌, ◌∷◌, ◌≡◌, ◌≢◌, ◌≤◌, ◌⊎◌,
}

pub data State : Type 0 where
  unname nameing unattr attring innering : State

pub record Node : Type 0 where
  pub name : List ℕ
  pub attr : List ℕ
  pub inner : List ℕ
  pub state : State

-- '<', '>' and ' '
abbrev pub lt_byte : ℕ
lt_byte = 60

abbrev pub gt_byte : ℕ
gt_byte = 62

abbrev pub space : ℕ
space = 32

abbrev pub start : Node
start = record { name = []; attr = []; inner = []; state = unname }

unfoldable pub clear : Node → Node
clear node = record node { name = []; attr = []; inner = [] }

unfoldable pub to_string : Node → List ℕ
to_string node =
    lt_byte
    ∷ (node.name
        ++ ((if length node.attr == 0 then [] else space ∷ [])
            ++ (node.attr ++ (gt_byte ∷ node.inner))))

module _ (trim_space : List ℕ → List ℕ) where
  -- One byte; `true` where the node is then yielded.
  unfoldable pub take_byte : State → ℕ → Node → Node × Bool
  take_byte unname b node =
      if b == lt_byte then (record node { state = nameing }, false) else (node, false)
  take_byte nameing b node =
      if b == space
      then (record node { state = attring }, false)
      else if b == gt_byte
      then (record node { state = innering }, false)
      else (record node { name = node.name ++ (b ∷ []) }, false)
  take_byte unattr b node = (node, false)
  take_byte attring b node =
      if b == gt_byte
      then (record node { state = innering }, false)
      else (record node { attr = node.attr ++ (b ∷ []) }, false)
  take_byte innering b node =
      if b == lt_byte
      then (record node { attr = trim_space node.attr }, true)
      else (record node { inner = node.inner ++ (b ∷ []) }, false)

  -- The node after a yield.
  unfoldable pub restart : Node → Node
  unfolding clear
  restart node = record (clear node) { state = nameing }

  -- The loop, up to io.EOF or a yield that returns false: the node that is kept for the next time,
  -- the nodes yielded, and the bytes not read.
  unfoldable pub decode : (Node → Bool) → List ℕ → Node → Node × List Node × List ℕ
  unfolding take_byte restart
  decode yields [] node = (node, [], [])
  decode yields (b ∷ bs) node =
      let r : Node × Bool = take_byte node.state b node in
      elim (r.1) [
        | false ↦ decode yields bs r.0
        | true ↦ elim (yields r.0) [
          | false ↦ (restart r.0, r.0 ∷ [], bs)
          | true ↦
              let on : Node × List Node × List ℕ = decode yields bs (restart r.0) in
              (on.0, r.0 ∷ on.1, on.2)
        ]
      ]
