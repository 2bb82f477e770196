-- ===== src/Xml/Tests.antt =====
-- Witnesses for the theorem on the XML decoder.
use part.Common.{Bool, List, [], refl, true, ℕ, ◌++◌, ◌∷◌, ◌≡◌}
use part.Xml.{Node, innering, nameing, start, lt_byte, decode}
use part.Xml.RoundTrip.{print_each, decode-print_each}

-- <a k>x and </a>
abbrev nodes : List Node
nodes =
    record { name = 97 ∷ []; attr = 107 ∷ []; inner = 120 ∷ []; state = innering }
    ∷ record { name = 47 ∷ 97 ∷ []; attr = []; inner = []; state = innering }
    ∷ []

abbrev keep : List ℕ → List ℕ
keep a = a

abbrev go_on : Node → Bool
go_on node = true

decode-print_each_example :
    decode keep go_on (print_each nodes ++ (lt_byte ∷ [])) start
    ≡ (record { name = []; attr = []; inner = []; state = nameing }, nodes, [])
decode-print_each_example =
    decode-print_each keep go_on nodes
      (
        ((refl, tt), (refl, tt), (refl, tt), refl, (refl, tt), refl),
        (((refl, (refl, tt)), (refl, (refl, tt)), tt, refl, tt, refl), tt),
      )
      (refl, (refl, tt))

-- Without a `<` behind it the last element is not yielded.
last_is_kept :
    (decode keep go_on (print_each nodes) start).1
    ≡ record { name = 97 ∷ []; attr = 107 ∷ []; inner = 120 ∷ []; state = innering } ∷ []
unfolding decode print_each
last_is_kept = refl
