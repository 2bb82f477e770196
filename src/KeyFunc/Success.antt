-- ===== src/KeyFunc/Success.antt =====
-- What getTrace of keyFunc/keyFunc.go has done where it returns no error.
use part.Common.{
  Bool, Bool-cases, List, Option, Option-cases, [], ap, arith, false, inl, inr, ltb, none, not,
  refl, some, suc, sym, true, zero, ℕ, ◌+◌, ◌==◌, ◌||◌, ◌∙◌, ◌∷◌, ◌≡◌, ◌⊎◌,
}
use mathlib.Core.Path.{subst}
use part.KeyFunc.{
  Err, key_not_reg, Node, new_node, desc, has_key, set_err, trace_err, Called, Turn, stops, goes,
  asks, same_method, next_method, return_trace, round, after_ask, rounds, get_trace, get,
  is_next_method,
}

abbrev Every {ℓ κ} : {A : Type ℓ} → (A → Type κ) → Option A → Type κ
Every P none = Unit
Every P (some a) = P a

some_injective {ℓ} : {A : Type ℓ} {a b : A} → some a ≡ some b → a ≡ b
some_injective {a = a} h = ap (λ o. elim o [ none ↦ a | some x ↦ x ]) h

abbrev is_fine {κ} : {E : Type κ} → Option (Err E) → Bool
is_fine none = true
is_fine (some e) = false

module _ {ℓ κ} {W : Type ℓ} {E : Type κ} (call : ℕ → ℕ → W → Called W E) (check : ℕ → W → W × Bool)
    (is_next : E → Bool) where
  -- The last that was done is a check of the key, which returned true.
  abbrev IsChecked : ℕ → W → Type ℓ
  IsChecked key w = (v : W) × (check key v ≡ (w, true))

  abbrev RoundChecked : ℕ → Turn W E → Type ℓ
  RoundChecked key (stops t v) = is_fine (trace_err t) ≡ true → IsChecked key v
  RoundChecked key (goes t v) = Unit
  RoundChecked key (asks k t v) = Unit

  abbrev RoundFails : Turn W E → Type 0
  RoundFails (stops t v) = Unit
  RoundFails (goes t v) = is_fine (trace_err t) ≡ false
  RoundFails (asks k t v) = Unit

  round_checked :
      (key i : ℕ) (trace : List (Node E)) (w : W)
      → RoundChecked key (round call check is_next key i trace w)
        × RoundFails (round call check is_next key i trace w)
  unfolding round new_node set_err trace_err
  round_checked key i trace w =
      let c = call key i w in
      elim (Option-cases c.misskey) [
        | inl nothing ↦ elim (Option-cases c.err) [
          | inl fine ↦ elim (Bool-cases (check key c.world).1) [
            | inl valid ↦
                rw (round, nothing, fine, valid)
                  (λ h. (c.world, ap (λ b. ((check key c.world).0, b)) valid), tt)
            | inr invalid ↦ rw (round, nothing, fine, invalid) (tt, refl)
          ]
          | inr (e, failed) ↦ elim (Bool-cases (is_next_method is_next e)) [
            | inl next ↦ rw (round, nothing, failed, next) (tt, ap is_fine failed)
            | inr last ↦ rw (round, nothing, failed, last) (λ h. absurd (cc), tt)
          ]
        ]
        | inr (k, missing) ↦ elim (Bool-cases (has_key k (desc (new_node key i c.err ∷ trace)))) [
          | inl again ↦ rw (round, missing, again) (λ h. absurd (cc), tt)
          | inr first ↦ rw (round, missing, first) (tt, tt)
        ]
      ]

  after_ask_fails :
      (t : List (Node E))
      → ((is_fine (trace_err t) ≡ true) × (after_ask is_next t ≡ same_method))
        ⊎ ((is_fine (trace_err t) ≡ false)
            × ((after_ask is_next t ≡ next_method) ⊎ (after_ask is_next t ≡ return_trace)))
  unfolding after_ask
  after_ask_fails t = elim (Option-cases (trace_err t)) [
    | inl fine ↦ rw (after_ask, fine) (inl (refl, refl))
    | inr (e, failed) ↦ elim (Bool-cases (is_next_method is_next e)) [
      | inl next ↦ rw (after_ask, failed, next) (inr (refl, inl refl))
      | inr last ↦ rw (after_ask, failed, last) (inr (refl, inr refl))
    ]
  ]

module _ {ℓ κ} {W : Type ℓ} {E : Type κ} (methods : ℕ → ℕ) (call : ℕ → ℕ → W → Called W E)
    (check : ℕ → W → W × Bool) (is_next : E → Bool) where
  abbrev Sound : ℕ → List (Node E) × W → Type ℓ
  Sound key r = is_fine (trace_err r.0) ≡ true → IsChecked call check is_next key r.1

  abbrev SoundAt : ℕ → Type (ℓ ⊔ κ)
  SoundAt fuel =
      (key i : ℕ) (trace : List (Node E)) (w : W)
      → (ltb i (methods key) || not (is_fine (trace_err trace))) ≡ true
      → Every (Sound key) (rounds methods call check is_next fuel key i trace w)

  found-Sound :
      (fuel key i : ℕ) (r : List (Node E) × W)
      → SoundAt fuel
      → ltb i (methods key) ≡ true
      → Every (Sound key) (elim (after_ask is_next r.0) [
        | same_method ↦ rounds methods call check is_next fuel key i r.0 r.1
        | next_method ↦ rounds methods call check is_next fuel key (i + 1) r.0 r.1
        | return_trace ↦ some r
      ])
  found-Sound fuel key i r ih more = elim (after_ask_fails call check is_next r.0) [
    | inl (fine, same) ↦ rw same (ih key i r.0 r.1 (ground arith))
    | inr (failed, inl next) ↦ rw next (ih key (i + 1) r.0 r.1 (ground arith))
    | inr (failed, inr back) ↦ rw back (λ fine. absurd (cc))
  ]

  turn-Sound :
      (fuel key i : ℕ) (trace : List (Node E)) (w : W)
      → SoundAt fuel
      → ltb i (methods key) ≡ true
      → (s : Turn W E) → round call check is_next key i trace w ≡ s
      → RoundChecked call check is_next key s × RoundFails call check is_next s
      → Every (Sound key) (rounds methods call check is_next (suc fuel) key i trace w)
  unfolding rounds
  turn-Sound fuel key i trace w ih more (stops t v) e (checked, fails) =
      rw (rounds, more, e) checked
  turn-Sound fuel key i trace w ih more (goes t v) e (checked, fails) =
      rw (rounds, more, e) (ih key (i + 1) t v (ground arith))
  turn-Sound fuel key i trace w ih more (asks k t v) e (checked, fails) =
      let found : Option (List (Node E) × W) = elim (methods k) [
        | zero ↦ some (new_node k 0 (some key_not_reg) ∷ [], v)
        | suc n ↦ rounds methods call check is_next fuel k 0 t v
      ] in
      elim (Option-cases found) [
        | inl nothing ↦ rw (rounds, more, e, nothing) tt
        | inr (r, got) ↦ rw (rounds, more, e, got) (found-Sound fuel key i r ih more)
      ]

  rounds-Sound : (fuel : ℕ) → SoundAt fuel
  unfolding rounds
  rounds-Sound zero key i trace w h = tt
  rounds-Sound (suc fuel) key i trace w h = elim (Bool-cases (ltb i (methods key))) [
    | inr over ↦ rw (rounds, over) (λ fine. absurd (ground arith))
    | inl more ↦
        turn-Sound fuel key i trace w (rounds-Sound fuel) more
          (round call check is_next key i trace w) refl
          (round_checked call check is_next key i trace w)
  ]

  -- Where Get returns no error, the last that it has done is to call the check of the key, which
  -- returned true.
  pub get_checked :
      (fuel key : ℕ) (w w' : W)
      → get methods call check is_next fuel key w ≡ some (none, w')
      → (v : W) × (check key v ≡ (w', true))
  unfolding get get_trace trace_err new_node
  get_checked fuel key w w' h = elim (Bool-cases (methods key == 0)) [
    | inl none_left ↦
        let got : get methods call check is_next fuel key w ≡ some (some key_not_reg, w) =
          rw (get, get_trace, none_left) refl in
        absurd (cc)
    | inr some_left ↦ elim (Option-cases (rounds methods call check is_next fuel key 0 [] w)) [
      | inl nothing ↦
          let got : get methods call check is_next fuel key w ≡ none =
            rw (get, get_trace, some_left, nothing) refl in
          absurd (cc)
      | inr (r, found) ↦
          let got : get methods call check is_next fuel key w ≡ some (trace_err r.0, r.1) =
            rw (get, get_trace, some_left, found) refl in
          let sound : Sound key r =
            subst (Every (Sound key)) found (rounds-Sound fuel key 0 [] w (ground arith)) in
          let pairs : (trace_err r.0, r.1) ≡ (none, w') = some_injective (sym got ∙ h) in
          let checked = sound (ap (λ p. is_fine p.0) pairs) in
          (checked.0, checked.1 ∙ ap (λ p. (p.1, true)) pairs)
    ]
  ]
