-- ===== src/Slice/Buf/Spec.antt =====
-- What `Buf` promises, with no array: a list of items, a limit, and whether a buffer exists yet.
use part.Common.{
  ℕ, ◌+◌, ◌-◌, ℤ, pos, negsuc, Bool, true, false, ◌&&◌, ◌||◌, Option, none, some, List, [], ◌∷◌,
  ◌++◌, length, take, drop, ltb, ◌==◌, if◌then◌else◌,
}
use part.Slice.Buf.{Err, over_max, over_len, eof, exceeds}

-- The calls of a client.
pub data Op {ℓ} (A : Type ℓ) : Type ℓ where
  append set_from write : List A → Op A
  remove_front remove_back : ℤ → Op A
  read expand_cap expand_cap_to : ℕ → Op A
  reset clear copy_out : Op A

-- What a call returns: the items that come out, the error.
abbrev pub Reply {ℓ} : Type ℓ → Type ℓ
Reply A = List A × Option Err

pub record State {ℓ} (A : Type ℓ) : Type ℓ where
  pub limit : ℤ
  pub started : Bool
  pub items : List A

-- A fresh buffer: with no argument there is no limit.
abbrev pub start {ℓ} : {A : Type ℓ} → Option ℤ → State A
start limit = record {
  limit = elim limit [ none ↦ pos 0 | some m ↦ m ];
  started = false;
  items = [];
}

module _ {ℓ} {A : Type ℓ} where
  abbrev pub refuses : State A → List A → Bool
  refuses s xs = s.started && exceeds s.limit (length s.items + length xs)

  abbrev pub remove_pos : State A → ℕ → List A → State A × Reply A
  remove_pos s n left =
      if n == 0
      then (s, ([], none))
      else if ltb (length s.items) n
      then (s, ([], some over_len))
      else (record s { items = left }, ([], none))

  unfoldable pub add : List A → State A → State A × Reply A
  add xs s =
      if refuses s xs
      then (s, ([], some over_max))
      else (record s { started = true; items = s.items ++ xs }, ([], none))

  unfoldable pub step : Op A → State A → State A × Reply A
  step (append xs) s = add xs s
  step (write xs) s = add xs s
  step (set_from xs) s =
      if refuses s xs
      then (s, ([], some over_max))
      else (record s { started = true; items = xs }, ([], none))
  step (remove_front (negsuc n)) s = (s, ([], none))
  step (remove_front (pos n)) s = remove_pos s n (drop n s.items)
  step (remove_back (negsuc n)) s = (s, ([], none))
  step (remove_back (pos n)) s = remove_pos s n (take (length s.items - n) s.items)
  step (read n) s =
      if ltb 0 (length s.items)
      then (record s { items = drop n s.items }, (take n s.items, none))
      else (s, ([], some eof))
  step (expand_cap n) s = (record s { started = s.started || ltb 0 n }, ([], none))
  step (expand_cap_to n) s = (record s { started = s.started || ltb 0 n }, ([], none))
  step reset s = (record s { items = [] }, ([], none))
  step clear s = (record s { started = false; items = [] }, ([], none))
  step copy_out s = (s, (s.items, none))

  unfoldable pub run : List (Op A) → State A → State A × List (Reply A)
  run [] s = (s, [])
  run (op ∷ ops) s = let (s', r) = step op s in let (s'', rs) = run ops s' in (s'', r ∷ rs)
