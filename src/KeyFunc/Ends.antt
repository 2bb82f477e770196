-- ===== src/KeyFunc/Ends.antt =====
-- getTrace of keyFunc/keyFunc.go comes to an end: a key that is missing is asked for once on the
-- way, or refused.
use part.Common.{
  ==_iff, ==_refl, Bool, Bool-cases, List, Option, Option-cases, [], arith, false, inl, inr, length,
  ltb, none, refl, some, suc, sym, true, zero, ℕ, ◌*◌, ◌+◌, ◌-◌, ◌<◌, ◌==◌, ◌||◌, ◌∙◌, ◌∷◌, ◌≡◌,
  ◌≤◌, ◌⊎◌,
}
use mathlib.Core.Path.{subst}
use part.KeyFunc.Counting.{count, is_member, count_mono, count-less, count-le}
use part.KeyFunc.{
  Err, key_miss_again, key_not_reg, key_not_valid, other, Node, new_node, desc, has_key, set_err,
  trace_err, Called, Turn, stops, goes, asks, After, same_method, next_method, return_trace, round,
  after_ask, rounds, get_trace, is_next_method,
}

-- A computation that has a result, with the property.
abbrev pub Ended {ℓ} : {A : Type ℓ} → (A → Type 0) → Option A → Type 0
Ended P none = ⊥
Ended P (some a) = P a

module _ {κ} {E : Type κ} where
  -- The key is that of the call, or has a node.
  abbrev pub is_held : ℕ → List (Node E) → ℕ → Bool
  is_held key trace j = (key == j) || has_key j trace

  abbrev is_not_reg : Option (Err E) → Bool
  is_not_reg none = false
  is_not_reg (some key_not_reg) = true
  is_not_reg (some _) = false

  -- The trace that is returned has the keys, unless a key is not registered.
  abbrev Keeps : ℕ → List (Node E) → List (Node E) → Type 0
  Keeps key trace t =
      (is_not_reg (trace_err t) ≡ true)
      ⊎ ((j : ℕ) → is_held key trace j ≡ true → has_key j t ≡ true)

  abbrev RoundKeys {ℓ} : {W : Type ℓ} → ℕ → List (Node E) → Turn W E → Type 0
  RoundKeys key trace (stops t v) = (j : ℕ) → has_key j t ≡ is_held key trace j
  RoundKeys key trace (goes t v) = (j : ℕ) → has_key j t ≡ is_held key trace j
  RoundKeys key trace (asks k t v) =
      ((j : ℕ) → has_key j t ≡ is_held key trace j) × (has_key k t ≡ false)

module _ {ℓ κ} {W : Type ℓ} {E : Type κ} (call : ℕ → ℕ → W → Called W E) (check : ℕ → W → W × Bool)
    (is_next : E → Bool) where
  round_keys :
      (key i : ℕ) (trace : List (Node E)) (w : W)
      → RoundKeys key trace (round call check is_next key i trace w)
  unfolding round new_node set_err has_key desc
  round_keys key i trace w =
      let c = call key i w in
      elim (Option-cases c.misskey) [
        | inl nothing ↦ elim (Option-cases c.err) [
          | inl fine ↦ elim (Bool-cases (check key c.world).1) [
            | inl valid ↦ rw (round, nothing, fine, valid) (λ j. refl)
            | inr invalid ↦ rw (round, nothing, fine, invalid) (λ j. refl)
          ]
          | inr (e, failed) ↦ elim (Bool-cases (is_next_method is_next e)) [
            | inl next ↦ rw (round, nothing, failed, next) (λ j. refl)
            | inr last ↦ rw (round, nothing, failed, last) (λ j. refl)
          ]
        ]
        | inr (k, missing) ↦ elim (Bool-cases (has_key k (new_node key i c.err ∷ trace))) [
          | inl again ↦ rw (round, missing, again) (λ j. refl)
          | inr first ↦ rw (round, missing, first) (λ j. refl, first)
        ]
      ]

-- What the result of the call for a missing key leaves the loop to do.
return_trace_not_reg {κ} :
    {E : Type κ} (is_next : E → Bool) (t : List (Node E))
    → is_not_reg (trace_err t) ≡ true
    → after_ask is_next t ≡ return_trace
unfolding after_ask is_next_method trace_err
return_trace_not_reg {E = E} is_next t h = of_err (trace_err t) h
  where
    of_err :
        (o : Option (Err E))
        → is_not_reg o ≡ true
        → elim o [
          | none ↦ same_method
          | some e ↦ elim (is_next_method is_next e) [ true ↦ next_method | false ↦ return_trace ]
        ]
          ≡ return_trace
    of_err none h = absurd (cc)
    of_err (some key_not_reg) h = refl
    of_err (some key_miss_again) h = absurd (cc)
    of_err (some key_not_valid) h = absurd (cc)
    of_err (some (other e)) h = absurd (cc)

module _ {ℓ κ} {W : Type ℓ} {E : Type κ} (methods : ℕ → ℕ) (call : ℕ → ℕ → W → Called W E)
    (check : ℕ → W → W × Bool) (is_next : E → Bool) (keys : List ℕ) (most : ℕ)
    (registered : (k : ℕ) → 0 < methods k → is_member k keys ≡ true)
    (few : (k : ℕ) → methods k ≤ most) where
  abbrev EndsAt : ℕ → Type (ℓ ⊔ κ)
  EndsAt fuel =
      (u key i : ℕ) (trace : List (Node E)) (w : W)
      → count (is_held key trace) keys ≤ u
      → u * (most + 2) + (methods key - i) + 1 ≤ fuel
      → (ltb i (methods key) || has_key key trace) ≡ true
      → Ended (λ r. Keeps key trace r.0) (rounds methods call check is_next fuel key i trace w)

  -- Of fewer keys, too.
  Ended-Keeps :
      (o : Option (List (Node E) × W)) (key key' : ℕ) (trace trace' : List (Node E))
      → ((j : ℕ) → is_held key trace j ≡ true → is_held key' trace' j ≡ true)
      → Ended (λ r. Keeps key' trace' r.0) o
      → Ended (λ r. Keeps key trace r.0) o
  Ended-Keeps none key key' trace trace' sub h = h
  Ended-Keeps (some r) key key' trace trace' sub (inl unknown) = inl unknown
  Ended-Keeps (some r) key key' trace trace' sub (inr keeps) = inr (λ j h. keeps j (sub j h))

  -- The fuel that is left where a key has been asked for.
  fuel_nested :
      (u key k i fuel : ℕ)
      → suc u * (most + 2) + (methods key - i) + 1 ≤ suc fuel
      → (u * (most + 2) + (methods k - 0) + 1 ≤ fuel)
        × (u * (most + 2) + (methods key - i) + 1 ≤ fuel)
        × (u * (most + 2) + (methods key - (i + 1)) + 1 ≤ fuel)
  fuel_nested u key k i fuel h =
      let step : suc u * (most + 2) ≡ u * (most + 2) + (most + 2) = grind arith in
      let small = few k in (omega arith, omega arith, omega arith)

  -- The keys of the trace of the call for a missing key.
  found_keys :
      (key k : ℕ) (trace t : List (Node E)) (r : List (Node E) × W)
      → ((j : ℕ) → has_key j t ≡ is_held key trace j)
      → ((j : ℕ) → is_held key trace j ≡ true → is_held k t j ≡ true)
      → ((j : ℕ) → is_held k t j ≡ true → has_key j r.0 ≡ true)
      → ((j : ℕ) → is_held key trace j ≡ true → is_held key r.0 j ≡ true)
        × (count (is_held key r.0) keys ≤ count (is_held k t) keys)
  found_keys key k trace t r held sub keeps = (
    λ j h. let there = keeps j (sub j h) in ground arith,
    count_mono (is_held key r.0) (is_held k t) keys (λ j h. let there = keeps j h in ground arith),
  )

  -- The end of a round that has asked for a missing key and got it.
  found_end :
      (fuel u key i k : ℕ) (trace t : List (Node E)) (r : List (Node E) × W)
      → EndsAt fuel
      → count (is_held k t) keys ≤ u
      → (u * (most + 2) + (methods k - 0) + 1 ≤ fuel)
        × (u * (most + 2) + (methods key - i) + 1 ≤ fuel)
        × (u * (most + 2) + (methods key - (i + 1)) + 1 ≤ fuel)
      → ltb i (methods key) ≡ true
      → ((j : ℕ) → has_key j t ≡ is_held key trace j)
      → ((j : ℕ) → is_held key trace j ≡ true → is_held k t j ≡ true)
      → Keeps k t r.0
      → (a : After) → after_ask is_next r.0 ≡ a
      → Ended
          (λ r. Keeps key trace r.0)
          (elim a [
            | same_method ↦ rounds methods call check is_next fuel key i r.0 r.1
            | next_method ↦ rounds methods call check is_next fuel key (i + 1) r.0 r.1
            | return_trace ↦ some r
          ])
  found_end fuel u key i k trace t r ih fresh fuels more held sub (inl unknown) return_trace e =
      inl unknown
  found_end fuel u key i k trace t r ih fresh fuels more held sub (inr keeps) return_trace e =
      inr (λ j h. keeps j (sub j h))
  found_end fuel u key i k trace t r ih fresh fuels more held sub (inl unknown) same_method e =
      let back = return_trace_not_reg is_next r.0 unknown in absurd (cc)
  found_end fuel u key i k trace t r ih fresh fuels more held sub (inl unknown) next_method e =
      let back = return_trace_not_reg is_next r.0 unknown in absurd (cc)
  found_end fuel u key i k trace t r ih fresh fuels more held sub (inr keeps) same_method e =
      let (holds, less) = found_keys key k trace t r held sub keeps in
      Ended-Keeps (rounds methods call check is_next fuel key i r.0 r.1) key key trace r.0 holds
        (ih u key i r.0 r.1 (omega arith) fuels.1 (ground arith))
  found_end fuel u key i k trace t r ih fresh fuels more held sub (inr keeps) next_method e =
      let (holds, less) = found_keys key k trace t r held sub keeps in
      let there = keeps key (sub key (rw (==_refl key) refl)) in
      Ended-Keeps (rounds methods call check is_next fuel key (i + 1) r.0 r.1) key key trace r.0
        holds (ih u key (i + 1) r.0 r.1 (omega arith) fuels.2 (ground arith))

  -- A round that asks for a missing key.
  asks_end :
      (fuel u key i k : ℕ) (trace t : List (Node E)) (w v : W)
      → EndsAt fuel
      → count (is_held key trace) keys ≤ u
      → u * (most + 2) + (methods key - i) + 1 ≤ suc fuel
      → ltb i (methods key) ≡ true
      → ((j : ℕ) → has_key j t ≡ is_held key trace j)
      → has_key k t ≡ false
      → round call check is_next key i trace w ≡ asks k t v
      → (n : ℕ) → methods k ≡ n
      → Ended
          (λ r. Keeps key trace r.0)
          (rounds methods call check is_next (suc fuel) key i trace w)
  unfolding rounds new_node trace_err
  asks_end fuel u key i k trace t w v ih fresh enough more held first e zero none_left =
      rw (rounds, more, e, none_left) (inl refl)
  asks_end fuel u key i k trace t w v ih fresh enough more held first e (suc n) some_left =
      let sub : (j : ℕ) → is_held key trace j ≡ true → is_held k t j ≡ true =
        λ j h. let there = held j ∙ h in ground arith in
      let new : is_held k t k ≡ true = rw (==_refl k) refl in
      let old : is_held key trace k ≡ false = sym (held k) ∙ first in
      let listed = registered k (omega arith) in
      let less = count-less (is_held k t) (is_held key trace) keys k sub new old listed in
      let u' = u - 1 in
      let positive : u ≡ suc u' = omega arith in
      let fuels =
        fuel_nested u' key k i fuel
          (subst (λ x. x * (most + 2) + (methods key - i) + 1 ≤ suc fuel) positive enough) in
      let inside : (ltb 0 (methods k) || has_key k t) ≡ true = ground arith in
      let nested = ih u' k 0 t v (omega arith) fuels.0 inside in
      elim (Option-cases (rounds methods call check is_next fuel k 0 t v)) [
        | inl nothing ↦ absurd (subst (Ended (λ r. Keeps k t r.0)) nothing nested)
        | inr (r, got) ↦
            let kept : Keeps k t r.0 = subst (Ended (λ r. Keeps k t r.0)) got nested in
            rw (rounds, more, e, some_left, got)
              (found_end fuel u' key i k trace t r ih (omega arith) fuels more held sub kept
                (after_ask is_next r.0) refl)
      ]

  turn_end :
      (fuel u key i : ℕ) (trace : List (Node E)) (w : W)
      → EndsAt fuel
      → count (is_held key trace) keys ≤ u
      → u * (most + 2) + (methods key - i) + 1 ≤ suc fuel
      → ltb i (methods key) ≡ true
      → (s : Turn W E) → round call check is_next key i trace w ≡ s
      → RoundKeys key trace s
      → Ended
          (λ r. Keeps key trace r.0)
          (rounds methods call check is_next (suc fuel) key i trace w)
  unfolding rounds
  turn_end fuel u key i trace w ih fresh enough more (stops t v) e held =
      rw (rounds, more, e) (inr (λ j h. held j ∙ h))
  turn_end fuel u key i trace w ih fresh enough more (goes t v) e held =
      let inside : has_key key t ≡ true = held key ∙ rw (==_refl key) refl in
      let same : (j : ℕ) → is_held key trace j ≡ true → is_held key t j ≡ true =
        λ j h. let there = held j ∙ h in ground arith in
      let less = count_mono (is_held key t) (is_held key trace) keys same in
      rw (rounds, more, e)
        (Ended-Keeps (rounds methods call check is_next fuel key (i + 1) t v) key key trace t same
          (ih u key (i + 1) t v (omega arith) (ground arith) (ground arith)))
  turn_end fuel u key i trace w ih fresh enough more (asks k t v) e held =
      asks_end fuel u key i k trace t w v ih fresh enough more held.0 held.1 e (methods k) refl

  rounds_end : (fuel : ℕ) → EndsAt fuel
  unfolding rounds
  rounds_end zero u key i trace w fresh enough inside = absurd (omega arith)
  rounds_end (suc fuel) u key i trace w fresh enough inside =
      elim (Bool-cases (ltb i (methods key))) [
        | inr over ↦
            let there : has_key key trace ≡ true = ground arith in
            rw (rounds, over) (inr (λ j h. ground (arith, ==_iff key j)))
        | inl more ↦
            turn_end fuel u key i trace w (rounds_end fuel) fresh enough more
              (round call check is_next key i trace w) refl
              (round_keys call check is_next key i trace w)
      ]

  -- Where the registered keys are among `keys` and none has more than `most` functions, GetTrace
  -- ends with a trace, whatever the functions and checks return: fuel in proportion to the number
  -- of keys and of functions is enough.
  pub get_trace_ends :
      (fuel key : ℕ) (w : W)
      → length keys * (most + 2) + most + 1 ≤ fuel
      → (r : List (Node E) × W) × (get_trace methods call check is_next fuel key w ≡ some r)
  unfolding get_trace
  get_trace_ends fuel key w enough = elim (Bool-cases (methods key == 0)) [
    | inl none_left ↦ ((new_node key 0 (some key_not_reg) ∷ [], w), rw (get_trace, none_left) refl)
    | inr some_left ↦
        let no_nodes : List (Node E) = [] in
        let total = count-le (is_held key no_nodes) keys in
        let small = few key in
        let inside : (ltb 0 (methods key) || has_key key no_nodes) ≡ true = ground arith in
        let ended = rounds_end fuel (length keys) key 0 [] w total (omega arith) inside in
        elim (Option-cases (rounds methods call check is_next fuel key 0 [] w)) [
          | inl nothing ↦ absurd (subst (Ended (λ r. Keeps key [] r.0)) nothing ended)
          | inr (r, got) ↦ (r, rw (get_trace, some_left) got)
        ]
  ]
