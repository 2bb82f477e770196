-- ===== src/Pool/Blocks/Lending.antt =====
-- No two callers of `blocks` (pool/Blocks.go) hold the same elements at one time.
use part.Common.{
  ==_refl, Bool, Bool-cases, List, Option, [], arith, false, if◌then◌else◌, inl, inr, leb, length,
  length-append, length-replicate, le→leb, ltb, ltb→lt, none, refl, replicate, some, true, ℕ, ◌*◌,
  ◌++◌, ◌+◌, ◌<◌, ◌>>=◌, ◌∙◌, ◌∷◌, ◌≡◌, ◌⊎◌,
}
use part.Pool.Blocks.{Err, Chan, Blocks, Lent, try_receive, new_blocks, get, put_back}
use part.Pool.Blocks.Offsets.{
  count, count-append, mul-le, nth_rest, offsets, send-room, OwnRange, Picked, nth_rest-cases,
  AllApart, own-AllApart, upto, length-upto, count-upto, send_range-upto, Call,
}

module _ {ℓ} {A : Type ℓ} where
  -- The state is the pool, the blocks held and whether the last call got what it asked for.
  abbrev hold : List Lent → Blocks A × Option Lent × Option Err → Blocks A × List Lent × Bool
  hold held (t, none, err) = (t, held, false)
  hold held (t, some b, err) = (t, b ∷ held, true)

  abbrev pub step : Call → Blocks A → List Lent → Option (Blocks A × List Lent × Bool)
  step Call.get_call t held = do r ← get t; some (hold held r)
  step (Call.put_call k) t held = elim (nth_rest held k) [
    | none ↦ some (t, held, false)
    | some (b, rest) ↦ (do u ← put_back t b; some (u, rest, true))
  ]

  -- Every offset below `n` is either free or held, once.
  record IsLending (n : ℕ) (t : Blocks A) (held : List Lent) : Type 0 where
    room : t.free.capacity ≡ n + 1
    whole : length t.buf ≡ t.size * n
    once : (i : ℕ) → count i t.free.queue + count i (offsets held) ≡ (if ltb i n then 1 else 0)
    total : length t.free.queue + length held ≡ n
    own : OwnRange t.size held

  get-IsLending :
      (n : ℕ) (t : Blocks A) (held : List Lent)
      → IsLending n t held
      → ((t.free.queue ≡ []) × (get t ≡ some (t, none, some Err.err_overflow)) × (length held ≡ n))
        ⊎ ((u : Blocks A) × (b : Lent) × (get t ≡ some (u, some b, none))
            × IsLending n u (b ∷ held)
            × (u.size ≡ t.size))
  unfolding get try_receive
  get-IsLending n t held l = split t.free.queue refl
    where
      split :
          (q : List ℕ)
          → t.free.queue ≡ q
          → ((t.free.queue ≡ [])
              × (get t ≡ some (t, none, some Err.err_overflow))
              × (length held ≡ n))
            ⊎ ((u : Blocks A) × (b : Lent) × (get t ≡ some (u, some b, none))
                × IsLending n u (b ∷ held)
                × (u.size ≡ t.size))
      split [] p = inl (p, rw p refl, let tot = rw p at l.total in omega arith)
      split (x ∷ q) p =
          let h = rw p at (l.once x) in
          let below : x < n = elim (Bool-cases (ltb x n)) [
            | inl lt ↦ ltb→lt x n lt
            | inr ge ↦ let h' = rw (==_refl x, ge) at h in absurd (omega arith)
          ] in
          let fits : leb ((x + 1) * t.size) (length t.buf) ≡ true =
            le→leb _ _ (rw l.whole (mul-le (x + 1) n t.size (omega arith))) in
          inr (
            record t { free = record t.free { queue = q } },
            record { offset = x; first = x * t.size; last = (x + 1) * t.size },
            rw (p, fits) refl,
            record {
              room = l.room;
              whole = l.whole;
              once = λ i. let hi = rw p at (l.once i) in omega arith;
              total = let tot = rw p at l.total in omega arith;
              own = ((refl, refl), l.own);
            },
            refl,
          )

  put-IsLending :
      (n : ℕ) (t : Blocks A) (held : List Lent) (b : Lent) (rest : List Lent)
      → IsLending n t held
      → Picked held b rest
      → (u : Blocks A) × (put_back t b ≡ some u) × IsLending n u rest × (u.size ≡ t.size)
  unfolding put_back
  put-IsLending n t held b rest l (cnt, len, own) =
      let tot = l.total in
      let room = l.room in
      let longer = length-append t.free.queue (b.offset ∷ []) in
      (
        record t { free = record t.free { queue = t.free.queue ++ (b.offset ∷ []) } },
        rw (send-room t.free b.offset (omega arith)) refl,
        record {
          room = l.room;
          whole = l.whole;
          once = λ i.
              let one = l.once i in
              let here = cnt i in
              let more = count-append i t.free.queue (b.offset ∷ []) in omega arith;
          total = omega arith;
          own = own t.size l.own;
        },
        refl,
      )

  step-IsLending :
      (n : ℕ) (c : Call) (t : Blocks A) (held : List Lent)
      → IsLending n t held
      → (u : Blocks A) × (held' : List Lent) × (ok : Bool) × (step c t held ≡ some (u, held', ok))
        × IsLending n u held'
        × (u.size ≡ t.size)
  step-IsLending n Call.get_call t held l = elim (get-IsLending n t held l) [
    | inl (p, eq, all) ↦ (t, held, false, rw eq refl, l, refl)
    | inr (u, b, eq, l', same) ↦ (u, b ∷ held, true, rw eq refl, l', same)
  ]
  step-IsLending n (Call.put_call k) t held l = elim (nth_rest-cases held k) [
    | inl e ↦ (t, held, false, rw (e, step) refl, l, refl)
    | inr (b, rest, e, picked) ↦
        let (u, eq, l', same) = put-IsLending n t held b rest l picked in
        (u, rest, true, rw (e, eq, step) refl, l', same)
  ]

  abbrev pub run : List Call → Blocks A → List Lent → Option (Blocks A × List Lent)
  run [] t held = some (t, held)
  run (c ∷ cs) t held = do r ← step c t held; run cs r.0 r.1

  run-IsLending :
      (n : ℕ) (cs : List Call) (t : Blocks A) (held : List Lent)
      → IsLending n t held
      → (u : Blocks A) × (held' : List Lent) × (run cs t held ≡ some (u, held'))
        × IsLending n u held'
        × (u.size ≡ t.size)
  run-IsLending n [] t held l = (t, held, refl, l, refl)
  run-IsLending n (c ∷ cs) t held l =
      let (u, held', ok, eq, l', same) = step-IsLending n c t held l in
      let (v, held2, eq2, l2, same2) = run-IsLending n cs u held' l' in
      (v, held2, rw eq eq2, l2, same2 ∙ same)

module _ {ℓ} {A : Type ℓ} where
  new-IsLending :
      (a : A) (size n : ℕ)
      → (t : Blocks A) × (new_blocks a size n ≡ some t) × IsLending n t [] × (t.size ≡ size)
  unfolding new_blocks
  new-IsLending a size n =
      let len = length-upto n 0 in
      let c : Chan = record { capacity = n + 1; queue = [] } in
      (
        record { free = record c { queue = upto n 0 }; size = size; buf = replicate (size * n) a },
        rw (send_range-upto n 0 c (omega arith)) refl,
        record {
          room = refl;
          whole = length-replicate (size * n) a;
          once = λ i. let up = count-upto i n 0 in ground arith;
          total = omega arith;
          own = tt;
        },
        refl,
      )

  -- From a new pool of `n` blocks, any sequence of Get and putBack of a held block runs without a
  -- panic or a blocked send, no two blocks that are held share an element, and Get then fails
  -- exactly where `n` blocks are held.
  pub run-lends :
      (a : A) (size n : ℕ) (cs : List Call)
      → (t : Blocks A) × (u : Blocks A) × (held : List Lent) × (new_blocks a size n ≡ some t)
        × (run cs t [] ≡ some (u, held))
        × AllApart held
        × (((get u ≡ some (u, none, some Err.err_overflow)) × (length held ≡ n))
            ⊎ ((v : Blocks A) × (b : Lent) × (get u ≡ some (v, some b, none)) × (length held < n)))
  run-lends a size n cs =
      let (t, new, l, same) = new-IsLending a size n in
      let (u, held, eq, l', same') = run-IsLending n cs t [] l in
      (
        t,
        u,
        held,
        new,
        eq,
        own-AllApart u.size held l'.own (λ i. let once = l'.once i in ground arith),
        elim (get-IsLending n u held l') [
          | inl (p, none_free, all) ↦ inl (none_free, all)
          | inr (v, b, got, l2, s2) ↦ inr (v, b, got, let tot = l2.total in omega arith)
        ],
      )
