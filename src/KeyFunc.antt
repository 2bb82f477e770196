-- ===== src/KeyFunc.antt =====
-- `KeyFunc` of keyFunc/keyFunc.go. Keys are numbers. The registered functions and checks are a
-- parameter: how many there are for a key, what they return, and what they do to the world of the
-- caller. A trace is the list of its nodes, the current node first, so that Last and Desc go along
-- it and First and Asc come from its end.
mod Counting
pub mod Ends
pub mod Success
mod Tests
use part.Common.{
  ==_iff, ==_refl, Bool, Bool-cases, List, Option, Option-cases, [], ap, append-nil, append_assoc,
  ap₂, arith, drop, drop-append_exact, drop-append_sum, drop-drop, drop-min, drop-take, drop_all,
  false, get_elem?, if◌then◌else◌, inl, inr, leb, leb→le, length, length-append, length-drop,
  length-replicate, length-set, length-take, le→leb, ltb, ltb→lt, lt→ltb, max, min, negsuc, none,
  not, pos, refl, replicate, require, set, some, suc, sym, take, take-append, take-append-drop,
  take-append_exact, take-append_sum, take-min, take-take, take_all, true, zero, ℕ, ℤ, ◌%◌, ◌&&◌,
  ◌*◌, ◌++◌, ◌+◌, ◌-◌, ◌/◌, ◌<◌, ◌==◌, ◌>>=◌, ◌>>◌, ◌^◌, ◌||◌, ◌↔◌, ◌∙◌, ◌∷◌, ◌≡◌, ◌≢◌, ◌≤◌, ◌⊎◌,
}

-- The errors: the two of the package, ErrKeyNotValid of ActKeyFunc, and those of the caller.
pub data Err {ℓ} (E : Type ℓ) : Type ℓ where
  key_miss_again key_not_reg key_not_valid : Err E
  other : E → Err E

pub record Node {ℓ} (E : Type ℓ) : Type ℓ where
  pub key : ℕ
  pub method_index : ℕ
  pub err : Option (Err E)

unfoldable pub new_node {ℓ} : {E : Type ℓ} → ℕ → ℕ → Option (Err E) → Node E
new_node key i err = record { key = key; method_index = i; err = err }

unfoldable pub desc {ℓ} : {E : Type ℓ} → List (Node E) → List (Node E)
desc trace = trace

unfoldable pub asc {ℓ} : {E : Type ℓ} → List (Node E) → List (Node E)
asc [] = []
asc (n ∷ trace) = asc trace ++ (n ∷ [])

unfoldable pub first {ℓ} : {E : Type ℓ} → List (Node E) → Option (Node E)
first [] = none
first (n ∷ []) = some n
first (n ∷ m ∷ trace) = first (m ∷ trace)

-- A node of the trace has the key.
unfoldable pub has_key {ℓ} : {E : Type ℓ} → ℕ → List (Node E) → Bool
has_key k [] = false
has_key k (n ∷ trace) = (n.key == k) || has_key k trace

-- trace.Err = e
unfoldable pub set_err {ℓ} : {E : Type ℓ} → Err E → List (Node E) → List (Node E)
set_err e [] = []
set_err e (n ∷ trace) = record n { err = some e } ∷ trace

-- trace.Err
unfoldable pub trace_err {ℓ} : {E : Type ℓ} → List (Node E) → Option (Err E)
trace_err [] = none
trace_err (n ∷ trace) = n.err

-- What a registered function returns: the missing key, `none` for "", and the error.
pub record Called {ℓ κ} (W : Type ℓ) (E : Type κ) : Type (ℓ ⊔ κ) where
  pub world : W
  pub misskey : Option ℕ
  pub err : Option (Err E)

-- How a round of the loop ends, and what the loop does after a call for a missing key.
pub data Turn {ℓ κ} (W : Type ℓ) (E : Type κ) : Type (ℓ ⊔ κ) where
  stops : List (Node E) → W → Turn W E
  goes : List (Node E) → W → Turn W E
  asks : ℕ → List (Node E) → W → Turn W E

pub data After : Type 0 where
  same_method next_method return_trace : After

-- None of the errors of the package is ErrNextMethod.
unfoldable pub is_next_method {ℓ} : {E : Type ℓ} → (E → Bool) → Err E → Bool
is_next_method is_next (other e) = is_next e
is_next_method is_next _ = false

-- The end of a round that has asked for a missing key: whether the loop returns the trace, tries
-- the next function, or the same one again.
unfoldable pub after_ask {ℓ} : {E : Type ℓ} → (E → Bool) → List (Node E) → After
unfolding is_next_method trace_err
after_ask is_next trace = elim (trace_err trace) [
  | none ↦ same_method
  | some e ↦ elim (is_next_method is_next e) [ true ↦ next_method | false ↦ return_trace ]
]

-- The registered functions, the checks, and errors.Is(err, ErrNextMethod) on an error of the caller.
module _ {ℓ κ} {W : Type ℓ} {E : Type κ} (call : ℕ → ℕ → W → Called W E) (check : ℕ → W → W × Bool)
    (is_next : E → Bool) where
  -- A round of the loop of getTrace for the function `i` of the key, without the call of getTrace
  -- for a missing key: that is left to `asks`.
  unfoldable pub round : ℕ → ℕ → List (Node E) → W → Turn W E
  unfolding is_next_method has_key set_err new_node desc
  round key i trace w =
      let c : Called W E = call key i w in
      let trace' : List (Node E) = new_node key i c.err ∷ trace in
      elim (c.misskey) [
        | none ↦ elim (c.err) [
          | none ↦
              let v : W × Bool = check key c.world in
              elim (v.1) [
                | true ↦ stops trace' v.0
                | false ↦ goes (set_err key_not_valid trace') v.0
              ]
          | some e ↦ elim (is_next_method is_next e) [
            | true ↦ goes trace' c.world
            | false ↦ stops trace' c.world
          ]
        ]
        | some k ↦ elim (has_key k (desc trace')) [
          | true ↦ stops (set_err key_miss_again trace') c.world
          | false ↦ asks k trace' c.world
        ]
      ]

-- `methods` is how many functions a key has, 0 where it is not registered.
module _ {ℓ κ} {W : Type ℓ} {E : Type κ} (methods : ℕ → ℕ) (call : ℕ → ℕ → W → Called W E)
    (check : ℕ → W → W × Bool) (is_next : E → Bool) where
  -- The loop of getTrace from the function `i` of the key on, on fuel, which a call of getTrace for
  -- a missing key takes too.
  unfoldable pub rounds : ℕ → ℕ → ℕ → List (Node E) → W → Option (List (Node E) × W)
  unfolding round after_ask new_node
  rounds zero key i trace w = none
  rounds (suc fuel) key i trace w = elim (ltb i (methods key)) [
    | false ↦ some (trace, w)
    | true ↦ elim (round call check is_next key i trace w) [
      | stops t v ↦ some (t, v)
      | goes t v ↦ rounds fuel key (i + 1) t v
      | asks k t v ↦
          let found : Option (List (Node E) × W) = elim (methods k) [
            | zero ↦ some (new_node k 0 (some key_not_reg) ∷ [], v)
            | suc n ↦ rounds fuel k 0 t v
          ] in
          elim found [
            | none ↦ none
            | some r ↦ elim (after_ask is_next r.0) [
              | same_method ↦ rounds fuel key i r.0 r.1
              | next_method ↦ rounds fuel key (i + 1) r.0 r.1
              | return_trace ↦ some r
            ]
          ]
    ]
  ]

  -- GetTrace.
  unfoldable pub get_trace : ℕ → ℕ → W → Option (List (Node E) × W)
  unfolding rounds new_node
  get_trace fuel key w =
      if methods key == 0
      then some (new_node key 0 (some key_not_reg) ∷ [], w)
      else rounds fuel key 0 [] w

  -- Get.
  unfoldable pub get : ℕ → ℕ → W → Option (Option (Err E) × W)
  unfolding get_trace trace_err
  get fuel key w = do r ← get_trace fuel key w; some (trace_err r.0, r.1)
