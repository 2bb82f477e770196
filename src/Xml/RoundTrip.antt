-- ===== src/Xml/RoundTrip.antt =====
-- The decoder of xml/decoder.go reads back the elements that ToString prints.
use part.Common.{
  Bool, List, [], ap, append-nil, append_assoc, arith, false, if◌then◌else◌, length, refl, sym,
  true, ℕ, ◌++◌, ◌==◌, ◌∙◌, ◌∷◌, ◌≡◌,
}
use part.Xml.{
  State, nameing, attring, innering, Node, lt_byte, gt_byte, space, start, clear, to_string,
  take_byte, restart, decode,
}

-- No byte of the list is `b`.
abbrev pub IsFree : ℕ → List ℕ → Type 0
IsFree b [] = Unit
IsFree b (c ∷ cs) = ((c == b) ≡ false) × IsFree b cs

-- A node as it is yielded, whose parts do not have the byte that ends them.
abbrev pub IsPlain : (List ℕ → List ℕ) → Node → Type 0
IsPlain trim_space node =
    IsFree space node.name
    × IsFree gt_byte node.name
    × IsFree gt_byte node.attr
    × (trim_space node.attr ≡ node.attr)
    × IsFree lt_byte node.inner
    × (node.state ≡ innering)

abbrev pub ArePlain : (List ℕ → List ℕ) → List Node → Type 0
ArePlain trim_space [] = Unit
ArePlain trim_space (node ∷ nodes) = IsPlain trim_space node × ArePlain trim_space nodes

abbrev node_of : List ℕ → List ℕ → List ℕ → State → Node
node_of n a i s = record { name = n; attr = a; inner = i; state = s }

-- Whether the function that takes the nodes goes on after each of them.
abbrev pub IsTaken : (Node → Bool) → List Node → Type 0
IsTaken yields [] = Unit
IsTaken yields (node ∷ nodes) = (yields node ≡ true) × IsTaken yields nodes

unfoldable pub print_each : List Node → List ℕ
unfolding to_string
print_each [] = []
print_each (node ∷ nodes) = to_string node ++ print_each nodes

-- The bytes of an element behind its first.
unfoldable body : Node → List ℕ
body node =
    node.name
    ++ ((if length node.attr == 0 then [] else space ∷ []) ++ (node.attr ++ (gt_byte ∷ node.inner)))

-- What follows the first byte of the elements and of the `<` behind them.
unfoldable tail_of : List Node → List ℕ
unfolding body
tail_of [] = []
tail_of (node ∷ nodes) = body node ++ (lt_byte ∷ tail_of nodes)

print_each-tail : (nodes : List Node) → print_each nodes ++ (lt_byte ∷ []) ≡ lt_byte ∷ tail_of nodes
unfolding print_each to_string tail_of body
print_each-tail [] = refl
print_each-tail (node ∷ nodes) =
    ap (λ l. lt_byte ∷ l)
      (append_assoc (body node) (print_each nodes) (lt_byte ∷ [])
        ∙ ap (λ l. body node ++ l) (print_each-tail nodes))

module _ (trim_space : List ℕ → List ℕ) (yields : Node → Bool) where
  name_byte :
      (c : ℕ) (n a i : List ℕ)
      → (c == space) ≡ false
      → (c == gt_byte) ≡ false
      → take_byte trim_space nameing c (node_of n a i nameing)
        ≡ (node_of (n ++ (c ∷ [])) a i nameing, false)
  unfolding take_byte
  name_byte c n a i p q = rw (p, q) refl

  attr_byte :
      (c : ℕ) (n a i : List ℕ)
      → (c == gt_byte) ≡ false
      → take_byte trim_space attring c (node_of n a i attring)
        ≡ (node_of n (a ++ (c ∷ [])) i attring, false)
  unfolding take_byte
  attr_byte c n a i q = rw q refl

  inner_byte :
      (c : ℕ) (n a i : List ℕ)
      → (c == lt_byte) ≡ false
      → take_byte trim_space innering c (node_of n a i innering)
        ≡ (node_of n a (i ++ (c ∷ [])) innering, false)
  unfolding take_byte
  inner_byte c n a i q = rw q refl

  decode_byte :
      (b : ℕ) (bs : List ℕ) (node : Node) (r : Node × Bool)
      → take_byte trim_space node.state b node ≡ r
      → decode trim_space yields (b ∷ bs) node ≡ elim (r.1) [
        | false ↦ decode trim_space yields bs r.0
        | true ↦ elim (yields r.0) [
          | false ↦ (restart trim_space r.0, r.0 ∷ [], bs)
          | true ↦
              let on : Node × List Node × List ℕ =
                decode trim_space yields bs (restart trim_space r.0) in
              (on.0, r.0 ∷ on.1, on.2)
        ]
      ]
  unfolding decode
  decode_byte b bs node r e =
      ap
        (λ (r : Node × Bool). elim (r.1) [
          | false ↦ decode trim_space yields bs r.0
          | true ↦ elim (yields r.0) [
            | false ↦ (restart trim_space r.0, r.0 ∷ [], bs)
            | true ↦
                let on : Node × List Node × List ℕ =
                  decode trim_space yields bs (restart trim_space r.0) in
                (on.0, r.0 ∷ on.1, on.2)
          ]
        ])
        e

  decode-name :
      (cs rest n a i : List ℕ)
      → IsFree space cs
      → IsFree gt_byte cs
      → decode trim_space yields (cs ++ rest) (node_of n a i nameing)
        ≡ decode trim_space yields rest (node_of (n ++ cs) a i nameing)
  unfolding decode
  decode-name [] rest n a i f g =
      ap (λ m. decode trim_space yields rest (node_of m a i nameing)) (sym (append-nil n))
  decode-name (c ∷ cs) rest n a i (p, f) (q, g) =
      decode_byte c (cs ++ rest) (node_of n a i nameing)
        (node_of (n ++ (c ∷ [])) a i nameing, false) (name_byte c n a i p q)
      ∙ (decode-name cs rest (n ++ (c ∷ [])) a i f g
          ∙ ap (λ m. decode trim_space yields rest (node_of m a i nameing))
              (append_assoc n (c ∷ []) cs))

  decode-attr :
      (cs rest n a i : List ℕ)
      → IsFree gt_byte cs
      → decode trim_space yields (cs ++ rest) (node_of n a i attring)
        ≡ decode trim_space yields rest (node_of n (a ++ cs) i attring)
  unfolding decode
  decode-attr [] rest n a i g =
      ap (λ m. decode trim_space yields rest (node_of n m i attring)) (sym (append-nil a))
  decode-attr (c ∷ cs) rest n a i (q, g) =
      decode_byte c (cs ++ rest) (node_of n a i attring)
        (node_of n (a ++ (c ∷ [])) i attring, false) (attr_byte c n a i q)
      ∙ (decode-attr cs rest n (a ++ (c ∷ [])) i g
          ∙ ap (λ m. decode trim_space yields rest (node_of n m i attring))
              (append_assoc a (c ∷ []) cs))

  decode-inner :
      (cs rest n a i : List ℕ)
      → IsFree lt_byte cs
      → decode trim_space yields (cs ++ rest) (node_of n a i innering)
        ≡ decode trim_space yields rest (node_of n a (i ++ cs) innering)
  unfolding decode
  decode-inner [] rest n a i g =
      ap (λ m. decode trim_space yields rest (node_of n a m innering)) (sym (append-nil i))
  decode-inner (c ∷ cs) rest n a i (q, g) =
      decode_byte c (cs ++ rest) (node_of n a i innering)
        (node_of n a (i ++ (c ∷ [])) innering, false) (inner_byte c n a i q)
      ∙ (decode-inner cs rest n a (i ++ (c ∷ [])) g
          ∙ ap (λ m. decode trim_space yields rest (node_of n a m innering))
              (append_assoc i (c ∷ []) cs))

  decode-end_name :
      (rest n a i : List ℕ)
      → decode trim_space yields (space ∷ rest) (node_of n a i nameing)
        ≡ decode trim_space yields rest (node_of n a i attring)
  unfolding decode take_byte
  decode-end_name rest n a i = refl

  decode-end_attr :
      (rest n a i : List ℕ)
      → decode trim_space yields (gt_byte ∷ rest) (node_of n a i attring)
        ≡ decode trim_space yields rest (node_of n a i innering)
  unfolding decode take_byte
  decode-end_attr rest n a i = refl

  -- From behind the name on.
  decode-tail :
      (n a i rest : List ℕ)
      → IsFree gt_byte a
      → decode trim_space yields
          (((if length a == 0 then [] else space ∷ []) ++ (a ++ (gt_byte ∷ i))) ++ rest)
          (node_of n [] [] nameing)
        ≡ decode trim_space yields (i ++ rest) (node_of n a [] innering)
  unfolding decode take_byte
  decode-tail n [] i rest f = refl
  decode-tail n (c ∷ cs) i rest f =
      let some_attr : (length (c ∷ cs) == 0) ≡ false = ground arith in
      let spelled : ((if length (c ∷ cs) == 0 then [] else space ∷ [])
              ++ ((c ∷ cs) ++ (gt_byte ∷ i)))
            ++ rest
          ≡ space ∷ ((c ∷ cs) ++ (gt_byte ∷ (i ++ rest))) =
        rw some_attr (ap (λ l. space ∷ l) (append_assoc (c ∷ cs) (gt_byte ∷ i) rest)) in
      ap (λ l. decode trim_space yields l (node_of n [] [] nameing)) spelled
      ∙ decode-end_name ((c ∷ cs) ++ (gt_byte ∷ (i ++ rest))) n [] []
      ∙ decode-attr (c ∷ cs) (gt_byte ∷ (i ++ rest)) n [] [] f
      ∙ decode-end_attr (i ++ rest) n (c ∷ cs) []

  decode-yield :
      (n a i rest : List ℕ)
      → trim_space a ≡ a
      → yields (node_of n a i innering) ≡ true
      → let on = decode trim_space yields rest (node_of [] [] [] nameing) in
        decode trim_space yields (lt_byte ∷ rest) (node_of n a i innering)
        ≡ (on.0, node_of n a i innering ∷ on.1, on.2)
  unfolding decode take_byte restart clear
  decode-yield n a i rest t y =
      let ended : take_byte trim_space innering lt_byte (node_of n a i innering)
          ≡ (node_of n a i innering, true) =
        ap (λ b. (node_of n b i innering, true)) t in
      decode_byte lt_byte rest (node_of n a i innering) (node_of n a i innering, true) ended
      ∙ rw y refl

  decode-tail_of :
      (nodes : List Node)
      → ArePlain trim_space nodes
      → IsTaken yields nodes
      → decode trim_space yields (tail_of nodes) (node_of [] [] [] nameing)
        ≡ (node_of [] [] [] nameing, nodes, [])
  unfolding tail_of body decode
  decode-tail_of [] plain taken = refl
  decode-tail_of (node ∷ nodes) ((free, close, attr_free, trims, inner_free, yielded), plain)
        (y, taken) =
      let n = node.name in
      let a = node.attr in
      let i = node.inner in
      let rest = lt_byte ∷ tail_of nodes in
      let behind = (if length a == 0 then [] else space ∷ []) ++ (a ++ (gt_byte ∷ i)) in
      let ready : Node = node_of [] [] [] nameing in
      let shape : node_of n a i innering ≡ node = ap (λ s. node_of n a i s) (sym yielded) in
      ap (λ l. decode trim_space yields l ready) (append_assoc n behind rest)
      ∙ decode-name n (behind ++ rest) [] [] [] free close
      ∙ decode-tail n a i rest attr_free
      ∙ decode-inner i rest n a [] inner_free
      ∙ decode-yield n a i (tail_of nodes) trims (ap yields shape ∙ y)
      ∙ ap (λ (on : Node × List Node × List ℕ). (on.0, node_of n a i innering ∷ on.1, on.2))
          (decode-tail_of nodes plain taken)
      ∙ ap (λ m. (ready, m ∷ nodes, [])) shape

  -- The printed elements with a `<` behind them: the decoder yields exactly the elements, in order,
  -- and is ready for the next name. Names have no space and no `>`, attributes no `>` and nothing
  -- to trim, inner texts no `<`, and the function that takes the nodes goes on.
  pub decode-print_each :
      (nodes : List Node)
      → ArePlain trim_space nodes
      → IsTaken yields nodes
      → decode trim_space yields (print_each nodes ++ (lt_byte ∷ [])) start
        ≡ (record { name = []; attr = []; inner = []; state = nameing }, nodes, [])
  unfolding decode take_byte
  decode-print_each nodes plain taken =
      ap (λ l. decode trim_space yields l start) (print_each-tail nodes)
      ∙ decode-tail_of nodes plain taken
