-- ===== src/Msgq/Serving.antt =====
-- Which registered functions Push and PushLock of msgq/Msgq.go call, against a traversal of the
-- list that knows nothing of names, flags and removals.
use part.Common.{
  ==_iff, ==_refl, Bool, Bool-cases, List, [], ap, append_assoc, arith, false, if◌then◌else◌, inl,
  inr, not, refl, some, sym, true, ℕ, ◌&&◌, ◌++◌, ◌==◌, ◌∙◌, ◌∷◌, ◌≡◌,
}
use part.Msgq.{
  Item, Msgq, remove_disable, remove_some, disable_item, clear_all, Outcome, cancel_each, find, Run,
  is_linked, is_served, serve_item, push_loop, ids, push,
}

-- The names of all elements differ from `i`, or from one another.
abbrev pub IsAbsent : ℕ → List Item → Type 0
IsAbsent i [] = Unit
IsAbsent i (x ∷ xs) = ((x.reg.id == i) ≡ false) × IsAbsent i xs

abbrev pub IsDistinct : List Item → Type 0
IsDistinct [] = Unit
IsDistinct (x ∷ xs) = IsAbsent x.reg.id xs × IsDistinct xs

-- No name of the second list is in the first.
abbrev pub IsApart : List Item → List Item → Type 0
IsApart pre [] = Unit
IsApart pre (x ∷ xs) = IsAbsent x.reg.id pre × IsApart pre xs

pub IsAbsent-append :
    (i : ℕ) (pre : List Item) (x : Item)
    → IsAbsent i pre
    → (x.reg.id == i) ≡ false
    → IsAbsent i (pre ++ (x ∷ []))
IsAbsent-append i [] x h e = (e, tt)
IsAbsent-append i (y ∷ pre) x (d, h) e = (d, IsAbsent-append i pre x h e)

pub IsApart-append :
    (pre xs : List Item) (x : Item)
    → IsApart pre xs
    → IsAbsent x.reg.id xs
    → IsApart (pre ++ (x ∷ [])) xs
IsApart-append pre [] x h a = tt
IsApart-append pre (y ∷ xs) x (d, h) (e, a) = (
  IsAbsent-append y.reg.id pre x d (ground (arith, ==_iff x.reg.id y.reg.id)),
  IsApart-append pre xs x h a,
)

pub IsApart-nil : (xs : List Item) → IsApart [] xs
IsApart-nil [] = tt
IsApart-nil (x ∷ xs) = (tt, IsApart-nil xs)

pub find-append :
    (pre xs : List Item) (x : Item)
    → IsAbsent x.reg.id pre
    → find x.reg.id (pre ++ (x ∷ xs)) ≡ some x
unfolding find
find-append [] xs x h = rw (==_refl x.reg.id) refl
find-append (y ∷ pre) xs x (d, h) = rw d (find-append pre xs x h)

disable_item_absent : (i : ℕ) (xs : List Item) → IsAbsent i xs → disable_item i xs ≡ xs
unfolding disable_item
disable_item_absent i [] h = refl
disable_item_absent i (y ∷ xs) (d, h) = rw d (ap (λ l. y ∷ l) (disable_item_absent i xs h))

pub disable_item-append :
    (pre xs : List Item) (x : Item)
    → IsAbsent x.reg.id pre
    → IsAbsent x.reg.id xs
    → disable_item x.reg.id (pre ++ (x ∷ xs)) ≡ pre ++ (record x { disable = true } ∷ xs)
unfolding disable_item
disable_item-append [] xs x h a =
    rw (==_refl x.reg.id)
      (ap (λ l. record x { disable = true } ∷ l) (disable_item_absent x.reg.id xs a))
disable_item-append (y ∷ pre) xs x (d, h) a =
    rw d (ap (λ l. y ∷ l) (disable_item-append pre xs x h a))

pub served_means :
    (ty : ℕ) (x : Item) (b : Bool) → is_served ty x ≡ b → (x.reg.ty == ty) && not x.disable ≡ b
unfolding is_served
served_means ty x b h = h

-- What serving a list gives: the list, the world, the functions called in order, and whether one
-- returned true.
pub record Served {ℓ} (W : Type ℓ) : Type ℓ where
  pub items : List Item
  pub world : W
  pub calls : List ℕ

module _ {ℓ κ} {Msg : Type ℓ} {W : Type κ} (type_of : Msg → ℕ)
    (handle : ℕ → Msg → W → Outcome W) where
  -- Every enabled function of the message's type is called once, in the order of the list, and is
  -- disabled if it returns true.
  unfoldable pub serve : Msg → List Item → W → Served W
  serve msg [] w = record { items = []; world = w; calls = [] }
  serve msg (x ∷ xs) w =
      let o : Outcome W = handle x.reg.id msg w in
      elim ((x.reg.ty == type_of msg) && not x.disable) [
        | false ↦ let on : Served W = serve msg xs w in record on { items = x ∷ on.items }
        | true ↦
            let on : Served W = serve msg xs o.world in
            record on {
              items = (if o.result then record x { disable = true } else x) ∷ on.items;
              calls = x.reg.id ∷ on.calls;
            }
      ]

  serve_passed :
      (msg : Msg) (x : Item) (xs : List Item) (w : W)
      → is_served (type_of msg) x ≡ false
      → let on : Served W = serve msg xs w in
        serve msg (x ∷ xs) w ≡ record on { items = x ∷ on.items }
  unfolding serve
  serve_passed msg x xs w h = rw (serve, served_means _ x _ h) refl

  serve_served :
      (msg : Msg) (x : Item) (xs : List Item) (w : W)
      → is_served (type_of msg) x ≡ true
      → let o : Outcome W = handle x.reg.id msg w in
        let on : Served W = serve msg xs o.world in
        serve msg (x ∷ xs) w ≡ record on {
          items = (if o.result then record x { disable = true } else x) ∷ on.items;
          calls = x.reg.id ∷ on.calls;
        }
  unfolding serve
  serve_served msg x xs w h = rw (serve, served_means _ x _ h) refl

  pub push_kept :
      (msg : Msg) (l : Bool) (m : Msgq) (w : W)
      → m.all_need_remove ≡ false
      → push type_of handle msg l m w ≡ push_loop type_of handle msg l (ids m.funcs) m w
  unfolding push
  push_kept msg l m w live =
      let m' : Msgq = remove_disable (type_of msg) true l m in
      ap
        (λ a.
          if a
          then (if l
              then push_loop type_of handle msg true (ids m'.funcs) m' w
              else record { queue = m'; world = w; calls = [] })
          else push_loop type_of handle msg l (ids m.funcs) m w)
        live

  -- The functions call nothing of the queue.
  abbrev pub IsQuiet : Type (ℓ ⊔ κ)
  IsQuiet =
      (i : ℕ) (msg : Msg) (w : W)
      → ((handle i msg w).cancels ≡ []) × ((handle i msg w).clears ≡ false)

remove_some-unlocked : (ty : ℕ) (m : Msgq) → (remove_some ty false m).funcs ≡ m.funcs
unfolding remove_some remove_disable
remove_some-unlocked ty m = flagged m.some_need_remove
  where
    flagged :
        (b : Bool)
        → (if b
            then remove_disable ty false false m
            else remove_disable ty true false (record m { some_need_remove = true })).funcs
          ≡ m.funcs
    flagged false = refl
    flagged true = refl

abbrev pub IsServed {κ} : {W : Type κ} → List Item → Run W → Served W → Type κ
IsServed pre r s = (r.queue.funcs ≡ pre ++ s.items) × (r.world ≡ s.world) × (r.calls ≡ s.calls)

-- An element after a call that returned `b`, and the list around it.
abbrev after : Bool → Item → Item
after b x = if b then record x { disable = true } else x

funcs_after :
    (b : Bool) (pre xs : List Item) (x : Item)
    → IsAbsent x.reg.id pre
    → IsAbsent x.reg.id xs
    → (if b then disable_item x.reg.id (pre ++ (x ∷ xs)) else pre ++ (x ∷ xs))
      ≡ pre ++ (after b x ∷ xs)
funcs_after false pre xs x a d = refl
funcs_after true pre xs x a d = disable_item-append pre xs x a d

linked_after :
    (b : Bool) (pre xs : List Item) (x : Item)
    → IsAbsent x.reg.id pre
    → is_linked x.reg.id (pre ++ (after b x ∷ xs)) ≡ true
unfolding is_linked
linked_after false pre xs x a = rw (is_linked, find-append pre xs x a) refl
linked_after true pre xs x a =
    rw (is_linked, find-append pre xs (record x { disable = true }) a) refl

IsApart-after :
    (b : Bool) (pre xs : List Item) (x : Item)
    → IsApart pre xs
    → IsAbsent x.reg.id xs
    → IsApart (pre ++ (after b x ∷ [])) xs
IsApart-after false pre xs x a d = IsApart-append pre xs x a d
IsApart-after true pre xs x a d = IsApart-append pre xs (record x { disable = true }) a d

module _ {ℓ κ} {Msg : Type ℓ} {W : Type κ} (type_of : Msg → ℕ) (handle : ℕ → Msg → W → Outcome W)
    (quiet : IsQuiet type_of handle) where
  -- The elements after a call under the read lock.
  serve_item-unlocked :
      (msg : Msg) (x : Item) (m : Msgq) (w : W)
      → (serve_item type_of handle msg false x m w).0.funcs
        ≡ (if (handle x.reg.id msg w).result then disable_item x.reg.id m.funcs else m.funcs)
  unfolding serve_item cancel_each clear_all
  serve_item-unlocked msg x m w =
      let q = quiet x.reg.id msg w in rw (q.0, q.1) (returned (handle x.reg.id msg w).result)
    where
      returned :
          (b : Bool)
          → (if b
              then remove_some
                  (type_of msg)
                  false
                  (record m { funcs = disable_item x.reg.id m.funcs })
              else m).funcs
            ≡ (if b then disable_item x.reg.id m.funcs else m.funcs)
      returned false = refl
      returned true =
          remove_some-unlocked (type_of msg) (record m { funcs = disable_item x.reg.id m.funcs })

  push_loop-serve :
      (msg : Msg) (pre xs : List Item) (m : Msgq) (w : W)
      → m.funcs ≡ pre ++ xs
      → IsApart pre xs
      → IsDistinct xs
      → IsServed pre
          (push_loop type_of handle msg false (ids xs) m w)
          (serve type_of handle msg xs w)
  unfolding push_loop serve ids serve_item
  push_loop-serve msg pre [] m w e a d = (e, refl, refl)
  push_loop-serve msg pre (x ∷ xs) m w e (a, apart) (d, ds) =
      let found : find x.reg.id m.funcs ≡ some x = ap (find x.reg.id) e ∙ find-append pre xs x a in
      elim (Bool-cases (is_served (type_of msg) x)) [
        | inr passed ↦
            let on =
              push_loop-serve msg (pre ++ (x ∷ [])) xs m w (e ∙ sym (append_assoc pre (x ∷ []) xs))
                (IsApart-append pre xs x apart d) ds in
            rw (push_loop, found, serve_passed type_of handle msg x xs w passed, passed)
              (on.0 ∙ append_assoc pre (x ∷ []) _, on.1, on.2)
        | inl served ↦
            let b = (handle x.reg.id msg w).result in
            let s = serve_item type_of handle msg false x m w in
            let funcs : s.0.funcs ≡ pre ++ (after b x ∷ xs) =
              serve_item-unlocked msg x m w
              ∙ ap (λ l. if b then disable_item x.reg.id l else l) e
              ∙ funcs_after b pre xs x a d in
            let linked : is_linked x.reg.id s.0.funcs ≡ true =
              ap (is_linked x.reg.id) funcs ∙ linked_after b pre xs x a in
            let on =
              push_loop-serve msg (pre ++ (after b x ∷ [])) xs s.0 s.1
                (funcs ∙ sym (append_assoc pre (after b x ∷ []) xs))
                (IsApart-after b pre xs x apart d) ds in
            rw (push_loop, found, serve_served type_of handle msg x xs w served, served, linked)
              (on.0 ∙ append_assoc pre (after b x ∷ []) _, on.1, ap (λ l. x.reg.id ∷ l) on.2)
      ]

  -- Push to a queue that is not cleared: where the registered functions call nothing of the queue,
  -- exactly the enabled functions of the message's type are called, once each and in the order of
  -- the list, and the elements stay, those whose function returned true disabled.
  pub push_serves :
      (msg : Msg) (m : Msgq) (w : W)
      → m.all_need_remove ≡ false
      → IsDistinct m.funcs
      → IsServed [] (push type_of handle msg false m w) (serve type_of handle msg m.funcs w)
  push_serves msg m w live d =
      let on = push_loop-serve msg [] m.funcs m w refl (IsApart-nil m.funcs) d in
      rw (push_kept type_of handle msg false m w live) on
