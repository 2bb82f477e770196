-- ===== src/Msgq/Stopping.antt =====
-- PushLock of msgq/Msgq.go ends at the first function that returns true: removeDisable takes its
-- element out of the list at once, and an element that is out of the list has no next one. The
-- same takes place in the loop of removeDisable, which removes one element.
use part.Common.{
  Bool, Bool-cases, List, [], ap, append_assoc, arith, false, if◌then◌else◌, inl, inr, none, not,
  refl, some, sym, true, ℕ, ◌&&◌, ◌++◌, ◌==◌, ◌||◌, ◌∙◌, ◌∷◌, ◌≡◌,
}
use part.Msgq.{
  Item, Msgq, remove_first, removal, remove_disable, remove_some, disable_item, Outcome,
  cancel_each, find, is_linked, is_served, serve_item, push_loop, ids, push,
}
use part.Msgq.Serving.{
  served_means, IsAbsent, IsDistinct, IsApart, IsApart-append, IsApart-nil, find-append,
  disable_item-append, Served, IsQuiet, IsServed, push_kept,
}

abbrev is_stale : ℕ → Item → Bool
is_stale ty x = (x.reg.ty == ty) && x.disable

-- No element of this message type is disabled.
abbrev pub IsEnabled : ℕ → List Item → Type 0
IsEnabled ty [] = Unit
IsEnabled ty (x ∷ xs) = ((x.reg.ty == ty) && x.disable ≡ false) × IsEnabled ty xs

IsEnabled-append :
    (ty : ℕ) (pre : List Item) (x : Item)
    → IsEnabled ty pre
    → is_stale ty x ≡ false
    → IsEnabled ty (pre ++ (x ∷ []))
IsEnabled-append ty [] x h e = (e, tt)
IsEnabled-append ty (y ∷ pre) x (d, h) e = (d, IsEnabled-append ty pre x h e)

remove_first-append :
    (ty : ℕ) (pre xs : List Item) (x : Item)
    → IsEnabled ty pre
    → is_stale ty x ≡ true
    → remove_first (is_stale ty) (pre ++ (x ∷ xs)) ≡ pre ++ xs
unfolding remove_first
remove_first-append ty [] xs x h e = rw e refl
remove_first-append ty (y ∷ pre) xs x (d, h) e =
    rw d (ap (λ l. y ∷ l) (remove_first-append ty pre xs x h e))

find_absent :
    (i : ℕ) (pre xs : List Item) → IsAbsent i pre → IsAbsent i xs → find i (pre ++ xs) ≡ none
unfolding find
find_absent i [] [] h a = refl
find_absent i [] (x ∷ xs) h (d, a) = rw d (find_absent i [] xs tt a)
find_absent i (y ∷ pre) xs (d, h) a = rw d (find_absent i pre xs h a)

is_linked_absent :
    (i : ℕ) (pre xs : List Item) → IsAbsent i pre → IsAbsent i xs → is_linked i (pre ++ xs) ≡ false
unfolding is_linked
is_linked_absent i pre xs h a = rw (is_linked, find_absent i pre xs h a) refl

is_linked-append :
    (pre xs : List Item) (x : Item)
    → IsAbsent x.reg.id pre
    → is_linked x.reg.id (pre ++ (x ∷ xs)) ≡ true
unfolding is_linked
is_linked-append pre xs x a = rw (is_linked, find-append pre xs x a) refl

is_stale_served :
    (ty : ℕ) (x : Item) → is_served ty x ≡ true → is_stale ty (record x { disable = true }) ≡ true
unfolding is_served
is_stale_served ty x h = ground arith

remove_some-locked :
    (ty : ℕ) (m : Msgq)
    → m.some_need_remove ≡ false
    → m.all_need_remove ≡ false
    → (remove_some ty true m).funcs ≡ remove_first (is_stale ty) m.funcs
unfolding remove_some remove_disable removal
remove_some-locked ty m s a =
    ap (λ b. (if b then m else removal ty (record m { some_need_remove = true })).funcs) s
    ∙ ap (λ b. remove_first (λ x. b || is_stale ty x) m.funcs) a

module _ {ℓ κ} {Msg : Type ℓ} {W : Type κ} (type_of : Msg → ℕ)
    (handle : ℕ → Msg → W → Outcome W) where
  -- As `serve`, but the first function that returns true ends it, and its element is gone.
  unfoldable pub serve_until : Msg → List Item → W → Served W
  serve_until msg [] w = record { items = []; world = w; calls = [] }
  serve_until msg (x ∷ xs) w =
      let o : Outcome W = handle x.reg.id msg w in
      elim ((x.reg.ty == type_of msg) && not x.disable) [
        | false ↦ let on : Served W = serve_until msg xs w in record on { items = x ∷ on.items }
        | true ↦ elim (o.result) [
          | true ↦ record { items = xs; world = o.world; calls = x.reg.id ∷ [] }
          | false ↦
              let on : Served W = serve_until msg xs o.world in
              record on { items = x ∷ on.items; calls = x.reg.id ∷ on.calls }
        ]
      ]

  serve_until_passed :
      (msg : Msg) (x : Item) (xs : List Item) (w : W)
      → is_served (type_of msg) x ≡ false
      → let on : Served W = serve_until msg xs w in
        serve_until msg (x ∷ xs) w ≡ record on { items = x ∷ on.items }
  unfolding serve_until
  serve_until_passed msg x xs w passed = rw (serve_until, served_means _ x _ passed) refl

  serve_until_going :
      (msg : Msg) (x : Item) (xs : List Item) (w : W)
      → is_served (type_of msg) x ≡ true
      → (handle x.reg.id msg w).result ≡ false
      → let on : Served W = serve_until msg xs (handle x.reg.id msg w).world in
        serve_until msg (x ∷ xs) w ≡ record on { items = x ∷ on.items; calls = x.reg.id ∷ on.calls }
  unfolding serve_until
  serve_until_going msg x xs w served going =
      rw (serve_until, served_means _ x _ served, going) refl

  serve_until_ending :
      (msg : Msg) (x : Item) (xs : List Item) (w : W)
      → is_served (type_of msg) x ≡ true
      → (handle x.reg.id msg w).result ≡ true
      → serve_until msg (x ∷ xs) w
        ≡ record { items = xs; world = (handle x.reg.id msg w).world; calls = x.reg.id ∷ [] }
  unfolding serve_until
  serve_until_ending msg x xs w served ending =
      rw (serve_until, served_means _ x _ served, ending) refl

module _ {ℓ κ} {Msg : Type ℓ} {W : Type κ} (type_of : Msg → ℕ) (handle : ℕ → Msg → W → Outcome W)
    (quiet : IsQuiet type_of handle) where
  serve_item-going :
      (msg : Msg) (l : Bool) (x : Item) (m : Msgq) (w : W)
      → (handle x.reg.id msg w).result ≡ false
      → (serve_item type_of handle msg l x m w).0 ≡ m
  unfolding serve_item cancel_each
  serve_item-going msg l x m w e = let q = quiet x.reg.id msg w in rw (q.0, q.1, e) refl

  serve_item-ending :
      (msg : Msg) (x : Item) (m : Msgq) (w : W)
      → (handle x.reg.id msg w).result ≡ true
      → m.some_need_remove ≡ false
      → m.all_need_remove ≡ false
      → (serve_item type_of handle msg true x m w).0.funcs
        ≡ remove_first (is_stale (type_of msg)) (disable_item x.reg.id m.funcs)
  unfolding serve_item cancel_each
  serve_item-ending msg x m w e s a =
      let q = quiet x.reg.id msg w in
      rw (q.0, q.1, e)
        (remove_some-locked (type_of msg) (record m { funcs = disable_item x.reg.id m.funcs }) s a)

  serve_item_world :
      (msg : Msg) (l : Bool) (x : Item) (m : Msgq) (w : W)
      → (serve_item type_of handle msg l x m w).1 ≡ (handle x.reg.id msg w).world
  unfolding serve_item
  serve_item_world msg l x m w = refl

  push_loop-serve_until :
      (msg : Msg) (pre xs : List Item) (m : Msgq) (w : W)
      → m.some_need_remove ≡ false
      → m.all_need_remove ≡ false
      → m.funcs ≡ pre ++ xs
      → IsApart pre xs
      → IsDistinct xs
      → IsEnabled (type_of msg) pre
      → IsEnabled (type_of msg) xs
      → IsServed pre
          (push_loop type_of handle msg true (ids xs) m w)
          (serve_until type_of handle msg xs w)
  unfolding push_loop serve_until ids
  push_loop-serve_until msg pre [] m w sm al e a d en en' = (e, refl, refl)
  push_loop-serve_until msg pre (x ∷ xs) m w sm al e (a, apart) (d, ds) en (fresh, en') =
      let found : find x.reg.id m.funcs ≡ some x = ap (find x.reg.id) e ∙ find-append pre xs x a in
      let next = (e ∙ sym (append_assoc pre (x ∷ []) xs)) in
      let apart' = IsApart-append pre xs x apart d in
      let en'' = IsEnabled-append (type_of msg) pre x en fresh in
      elim (Bool-cases (is_served (type_of msg) x)) [
        | inr passed ↦
            let on =
              push_loop-serve_until msg (pre ++ (x ∷ [])) xs m w sm al next apart' ds en'' en' in
            rw (push_loop, found, serve_until_passed type_of handle msg x xs w passed, passed)
              (on.0 ∙ append_assoc pre (x ∷ []) _, on.1, on.2)
        | inl served ↦
            let world = serve_item_world msg true x m w in
            elim (Bool-cases (handle x.reg.id msg w).result) [
              | inr going ↦
                  let still = serve_item-going msg true x m w going in
                  let linked =
                    ap (λ q. is_linked x.reg.id q.funcs) still
                    ∙ ap (is_linked x.reg.id) e
                    ∙ is_linked-append pre xs x a in
                  let on =
                    push_loop-serve_until msg (pre ++ (x ∷ [])) xs m (handle x.reg.id msg w).world
                      sm al next apart' ds en'' en' in
                  let goes = serve_until_going type_of handle msg x xs w served going in
                  rw (push_loop, found, goes, served, linked, still, world)
                    (on.0 ∙ append_assoc pre (x ∷ []) _, on.1, ap (λ l. x.reg.id ∷ l) on.2)
              | inl ending ↦
                  let gone : (serve_item type_of handle msg true x m w).0.funcs ≡ pre ++ xs =
                    serve_item-ending msg x m w ending sm al
                    ∙ ap (λ l. remove_first (is_stale (type_of msg)) (disable_item x.reg.id l)) e
                    ∙ ap (remove_first (is_stale (type_of msg))) (disable_item-append pre xs x a d)
                    ∙ remove_first-append (type_of msg) pre xs (record x { disable = true }) en
                        (is_stale_served (type_of msg) x served) in
                  let ends = serve_until_ending type_of handle msg x xs w served ending in
                  let unlinked =
                    ap (is_linked x.reg.id) gone ∙ is_linked_absent x.reg.id pre xs a d in
                  rw (push_loop, found, ends, served, unlinked, world) (gone, refl, refl)
            ]
      ]

  -- PushLock to a queue without a pending removal, a pending clear or a disabled function of the
  -- message's type: where the registered functions call nothing of the queue, the enabled functions
  -- of that type are called in the order of the list up to the first that returns true. That one
  -- leaves the list, and those behind it do not get the message.
  pub push_lock_stops :
      (msg : Msg) (m : Msgq) (w : W)
      → m.some_need_remove ≡ false
      → m.all_need_remove ≡ false
      → IsDistinct m.funcs
      → IsEnabled (type_of msg) m.funcs
      → IsServed [] (push type_of handle msg true m w) (serve_until type_of handle msg m.funcs w)
  push_lock_stops msg m w s a d en =
      rw (push_kept type_of handle msg true m w a)
        (push_loop-serve_until msg [] m.funcs m w s a refl (IsApart-nil m.funcs) d tt en)
