-- ===== src/Msgq/Tags/Batch.antt =====
-- A batch of Pull_tags ends as a whole (msgq/Msgq.go).
use part.Common.{
  ==_iff, Bool, Bool-cases, List, [], ap, append-nil, append_assoc, arith, false, if◌then◌else◌,
  inl, inr, length, refl, some, sym, true, ℕ, ◌++◌, ◌==◌, ◌∙◌, ◌∷◌, ◌≡◌,
}
use part.Msgq.{
  Reg, Item, Msgq, cancel, cancel_each, Outcome, serve_item, disable_item, Run, Step, run,
}
use part.Msgq.Tags.{TagData, batch_tag, add_tag, add_tags, pull_tags}
use part.Msgq.Silence.{
  is_off, is_in, some_registers, is_off-remove_some, is_off-disable_self, is_off-cancel_each,
  is_off-finish, run-IsSilent,
}

abbrev pub reg_ids : List Reg → List ℕ
reg_ids [] = []
reg_ids (r ∷ rs) = r.id ∷ reg_ids rs

abbrev pub tag_ids : List (Reg × Bool) → List ℕ
tag_ids [] = []
tag_ids ((r, is_async) ∷ rs) = r.id ∷ tag_ids rs

reg_ids-append : (xs ys : List Reg) → reg_ids (xs ++ ys) ≡ reg_ids xs ++ reg_ids ys
reg_ids-append [] ys = refl
reg_ids-append (x ∷ xs) ys = ap (λ l. x.id ∷ l) (reg_ids-append xs ys)

-- The batch is what has been registered, in order.
add_tags_lem :
    (rs : List (Reg × Bool)) (m : Msgq) (batch : List Reg)
    → reg_ids (add_tags rs m batch).1 ≡ reg_ids batch ++ tag_ids rs
unfolding add_tags add_tag
add_tags_lem [] m batch = sym (append-nil (reg_ids batch))
add_tags_lem ((r, is_async) ∷ rs) m batch =
    add_tags_lem rs (add_tag r is_async m batch).0 (batch ++ (r ∷ []))
    ∙ ap (λ l. l ++ tag_ids rs) (reg_ids-append batch (r ∷ []))
    ∙ append_assoc (reg_ids batch) (r.id ∷ []) (tag_ids rs)

cancel_each-is_off :
    (i : ℕ) (rs : List Reg) (m : Msgq)
    → is_in i (reg_ids rs) ≡ true
    → is_off i (cancel_each rs m).funcs ≡ true
unfolding cancel_each is_in cancel
cancel_each-is_off i [] m h = cc
cancel_each-is_off i (r ∷ rs) m h = elim (Bool-cases (i == r.id)) [
  | inr other ↦ cancel_each-is_off i rs (cancel r m) (ground arith)
  | inl same ↦
      let e : i ≡ r.id = (==_iff i r.id).0 same in
      is_off-cancel_each i rs (cancel r m) (
        is_off-remove_some i r.ty false (record m { funcs = disable_item r.id m.funcs })
          (ap (λ k. is_off i (disable_item k m.funcs)) (sym e) ∙ is_off-disable_self i m.funcs))
]

outcome_cancels {κ} :
    {W : Type κ} (c : Bool) (r : W × Bool) (batch : List Reg) (w : W)
    → let o : Outcome W =
        if c
        then record {
          world = r.0;
          result = r.1;
          cancels = if r.1 then batch else [];
          clears = false;
        }
        else record { world = w; result = false; cancels = []; clears = false } in
      o.result ≡ true → o.cancels ≡ batch
outcome_cancels true (w', true) batch w h = refl
outcome_cancels true (w', false) batch w h = absurd (cc)
outcome_cancels false r batch w h = absurd (cc)

batch_tag_cancels {ℓ κ} :
    {T : Type ℓ} {W : Type κ} (key : ℕ) (f : T → W → W × Bool) (batch : List Reg) (td : TagData T)
    (w : W)
    → (batch_tag key f batch td w).result ≡ true
    → (batch_tag key f batch td w).cancels ≡ batch
unfolding batch_tag
batch_tag_cancels key f batch td w h = outcome_cancels (td.tag == key) (f td.data_of w) batch w h

module _ {ℓ κ} {Msg : Type ℓ} {W : Type κ} (type_of : Msg → ℕ)
    (handle : ℕ → Msg → W → Outcome W) where
  -- Pull_tags with something registered: after any steps that follow, once the cancel function that
  -- it returned has been called, no function of the batch is called in any sequence of further steps
  -- that does not register it again.
  pub pull_tags-cancel_silent :
      (r : Reg × Bool) (rs : List (Reg × Bool)) (m : Msgq) (i : ℕ) (before after : List (Step Msg))
      (w : W)
      → is_in i (tag_ids (r ∷ rs)) ≡ true
      → some_registers i after ≡ false
      → (m' : Msgq) × (batch : List Reg) × (pull_tags (r ∷ rs) m ≡ some (m', batch))
        × (let s : Run W = run type_of handle before m' w in
            is_in i (run type_of handle after (cancel_each batch s.queue) s.world).calls ≡ false)
  unfolding pull_tags
  pull_tags-cancel_silent r rs m i before after w h n =
      let some_tags : (length (r ∷ rs) == 0) ≡ false = ground arith in
      let t = add_tags (r ∷ rs) m [] in
      let inside : is_in i (reg_ids t.1) ≡ true = ap (is_in i) (add_tags_lem (r ∷ rs) m []) ∙ h in
      let s = run type_of handle before t.0 w in
      (
        t.0,
        t.1,
        rw (pull_tags, some_tags) refl,
        run-IsSilent type_of handle i after (cancel_each t.1 s.queue) s.world
            (cancel_each-is_off i t.1 s.queue inside) n,
      )

  -- A function of a batch that returns true disables the whole batch before Push or PushLock goes
  -- on to the next function.
  pub serve_item-batch_off :
      {T : Type 0} (key : ℕ) (f : T → W → W × Bool) (batch : List Reg) (td : TagData T) (i : ℕ)
      (msg : Msg) (l : Bool) (x : Item) (m : Msgq) (w : W)
      → handle x.reg.id msg w ≡ batch_tag key f batch td w
      → (batch_tag key f batch td w).result ≡ true
      → is_in i (reg_ids batch) ≡ true
      → is_off i (serve_item type_of handle msg l x m w).0.funcs ≡ true
  unfolding serve_item
  serve_item-batch_off key f batch td i msg l x m w e ended h =
      let o = handle x.reg.id msg w in
      let cancels : o.cancels ≡ batch =
        ap (λ p. p.cancels) e ∙ batch_tag_cancels key f batch td w ended in
      let off =
        ap (λ rs. is_off i (cancel_each rs m).funcs) cancels ∙ cancel_each-is_off i batch m h in
      is_off-finish i (type_of msg) x.reg.id l o.clears o.result (cancel_each o.cancels m) off
