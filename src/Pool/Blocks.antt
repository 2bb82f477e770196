-- ===== src/Pool/Blocks.antt =====
-- `blocks` and `flexBlocks` of pool/Blocks.go. A buffered channel is its length bound and the
-- list of its elements, oldest first; a block that is lent out is named by its offset.
pub mod Offsets
pub mod Lending
mod Tests
use part.Common.{
  ==_iff, ==_refl, Bool, Bool-cases, List, Option, [], ap, append-nil, append_assoc, ap₂, arith,
  drop, drop-append_exact, drop-append_sum, drop-drop, drop-min, drop-take, drop_all, false,
  get_elem?, if◌then◌else◌, inl, inr, leb, leb→le, length, length-append, length-drop,
  length-replicate, length-set, length-take, le→leb, ltb, ltb→lt, lt→ltb, max, min, negsuc, none,
  not, pos, refl, replicate, require, set, some, suc, sym, take, take-append, take-append-drop,
  take-append_exact, take-append_sum, take-min, take-take, take_all, true, zero, ℕ, ℤ, ◌%◌, ◌&&◌,
  ◌*◌, ◌++◌, ◌+◌, ◌-◌, ◌/◌, ◌<◌, ◌==◌, ◌>>=◌, ◌>>◌, ◌^◌, ◌||◌, ◌↔◌, ◌∙◌, ◌∷◌, ◌≡◌, ◌≢◌, ◌≤◌, ◌⊎◌,
}

pub data Err : Type 0 where
  err_overflow : Err

-- `none` is a send that blocks.
pub record Chan : Type 0 where
  pub capacity : ℕ
  pub queue : List ℕ

pub send : Chan → ℕ → Option Chan
send c x =
    if ltb (length c.queue) c.capacity
    then some (record c { queue = c.queue ++ (x ∷ []) })
    else none

-- The receive of a select with a default: `none` where nothing is queued.
pub try_receive : Chan → Option (ℕ × Chan)
try_receive c = elim (c.queue) [ [] ↦ none | x ∷ q ↦ some (x, record c { queue = q }) ]

pub send_range : ℕ → ℕ → Chan → Option Chan
unfolding send
send_range zero i c = some c
send_range (suc n) i c = do d ← send c i; send_range n (i + 1) d

pub record Blocks {ℓ} (A : Type ℓ) : Type ℓ where
  pub free : Chan
  pub size : ℕ
  pub buf : List A

module _ {ℓ} {A : Type ℓ} (zero_value : A) where
  pub new_blocks : ℕ → ℕ → Option (Blocks A)
  unfolding send_range
  new_blocks block_size block_num = do
    free ← send_range block_num 0 (record { capacity = block_num + 1; queue = [] })
    some (record {
      free = free;
      size = block_size;
      buf = replicate (block_size * block_num) zero_value;
    })

-- The block t.buf[offset*size : (offset+1)*size] that Get lends: where it begins and ends.
pub record Lent : Type 0 where
  pub offset : ℕ
  pub first : ℕ
  pub last : ℕ

module _ {ℓ} {A : Type ℓ} where
  -- An error, or the block to use; a slice past the end of buf panics.
  pub get : Blocks A → Option (Blocks A × Option Lent × Option Err)
  unfolding try_receive
  get t = elim (try_receive t.free) [
    | none ↦ some (t, none, some Err.err_overflow)
    | some (offset, free) ↦ (do
      require (leb ((offset + 1) * t.size) (length t.buf))
      some (
        record t { free = free },
        some (record { offset = offset; first = offset * t.size; last = (offset + 1) * t.size }),
        none,
      ))
  ]

  pub put_back : Blocks A → Lent → Option (Blocks A)
  unfolding send
  put_back t b = do free ← send t.free b.offset; some (record t { free = free })

-- A write through a slice that Get lent, `i` elements from its start.
module _ {ℓ} {A : Type ℓ} where
  pub write_block : Blocks A → Lent → ℕ → A → Option (Blocks A)
  write_block t b i x = do
    require (ltb i (b.last - b.first))
    some (record t { buf = set t.buf (b.first + i) x })

pub record FlexBlocks {ℓ} (A : Type ℓ) : Type ℓ where
  pub free : Chan
  pub buf : List (List A)

module _ {ℓ} {A : Type ℓ} where
  pub new_flex_blocks : ℕ → Option (FlexBlocks A)
  unfolding send_range
  new_flex_blocks block_num = do
    free ← send_range block_num 0 (record { capacity = block_num + 1; queue = [] })
    some (record { free = free; buf = replicate block_num [] })

  pub flex_get : FlexBlocks A → Option (FlexBlocks A × Option (ℕ × List A) × Option Err)
  unfolding try_receive
  flex_get t = elim (try_receive t.free) [
    | none ↦ some (t, none, some Err.err_overflow)
    | some (offset, free) ↦ (do
      block ← get_elem? t.buf offset
      some (record t { free = free }, some (offset, block), none))
  ]

  pub flex_put_back : FlexBlocks A → ℕ → List A → Option (FlexBlocks A)
  unfolding send
  flex_put_back t offset ts = do
    require (ltb offset (length t.buf))
    free ← send t.free offset
    some (record { free = free; buf = set t.buf offset ts })
