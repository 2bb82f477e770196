-- ===== src/Reqf/Cookies.antt =====
-- The conversions of reqf/cookie.go between a cookie string, a list and a map of names and values.
-- A string is a list of bytes; strings.Split and strings.SplitN are written out for the separators
-- that the code gives them, which are ASCII.
pub mod RoundTrip
mod Tests
use part.Common.{
  ==_iff, ==_refl, Bool, Bool-cases, List, Option, [], ap, append-nil, append_assoc, ap₂, arith,
  drop, drop-append_exact, drop-append_sum, drop-drop, drop-min, drop-take, drop_all, false,
  get_elem?, if◌then◌else◌, inl, inr, leb, leb→le, length, length-append, length-drop,
  length-replicate, length-set, length-take, le→leb, ltb, ltb→lt, lt→ltb, max, min, negsuc, none,
  not, pos, refl, replicate, require, set, some, suc, sym, take, take-append, take-append-drop,
  take-append_exact, take-append_sum, take-min, take-take, take_all, true, zero, ℕ, ℤ, ◌%◌, ◌&&◌,
  ◌*◌, ◌++◌, ◌+◌, ◌-◌, ◌/◌, ◌<◌, ◌==◌, ◌>>=◌, ◌>>◌, ◌^◌, ◌||◌, ◌↔◌, ◌∙◌, ◌∷◌, ◌≡◌, ◌≢◌, ◌≤◌, ◌⊎◌,
}
use part.Common.Keys.{Eq, insert}
use part.Common.Utf8.{to_runes, of_runes}

abbrev pub semicolon : ℕ
semicolon = 59

abbrev pub space : ℕ
space = 32

abbrev pub equals : ℕ
equals = 61

abbrev pub Pair : Type 0
Pair = List ℕ × List ℕ

-- strings.Split(s, "; "), with the bytes of the piece so far.
pub split_semi : List ℕ → List ℕ → List (List ℕ)
split_semi cur [] = cur ∷ []
split_semi cur (c ∷ []) = (cur ++ (c ∷ [])) ∷ []
split_semi cur (c ∷ d ∷ s) = elim (c == semicolon && d == space) [
  | true ↦ cur ∷ split_semi [] s
  | false ↦ split_semi (cur ++ (c ∷ [])) (d ∷ s)
]

-- strings.SplitN(s, "=", 2): `none` where it has one piece.
pub cut_equals : List ℕ → List ℕ → Option Pair
cut_equals cur [] = none
cut_equals cur (c ∷ s) =
    let rest = cut_equals (cur ++ (c ∷ [])) s in if c == equals then some (cur, s) else rest

-- The loop over the pieces; those without a `=` are passed over.
pub list_pieces : List (List ℕ) → List Pair
unfolding cut_equals
list_pieces [] = []
list_pieces (v ∷ vs) =
    let rest = list_pieces vs in elim (cut_equals [] v) [ none ↦ rest | some p ↦ p ∷ rest ]

pub cookies_string_to_list : List ℕ → List Pair
unfolding split_semi list_pieces
cookies_string_to_list cookies = list_pieces (split_semi [] cookies)

pub map_pieces : Eq (List ℕ) → List (List ℕ) → List Pair → List Pair
unfolding cut_equals
map_pieces e [] o = o
map_pieces e (v ∷ vs) o =
    map_pieces e vs
      (elim (cut_equals [] v) as (λ x. List Pair) [ none ↦ o | some p ↦ insert e p.0 p.1 o ])

pub cookies_string_to_map : Eq (List ℕ) → List ℕ → List Pair
unfolding split_semi map_pieces
cookies_string_to_map e cookies = map_pieces e (split_semi [] cookies) []

-- o += k + `=` + v + `; `
pub print_pairs : List Pair → List ℕ
print_pairs [] = []
print_pairs ((k, v) ∷ ps) = k ++ (equals ∷ v ++ (semicolon ∷ space ∷ print_pairs ps))

-- The last two runes are taken off, where there are more than two. What is not UTF-8 in the rest
-- becomes U+FFFD.
pub drop_last_two : List ℕ → List ℕ
drop_last_two o =
    let t = to_runes o in if ltb 2 (length t) then of_runes (take (length t - 2) t) else o

-- Iter_2_Cookies_String, over the pairs that the iterator gives.
pub iter_to_cookies_string : List Pair → List ℕ
unfolding print_pairs drop_last_two
iter_to_cookies_string cookies = drop_last_two (print_pairs cookies)

-- Map_2_Cookies_String, in the order of the range.
pub map_to_cookies_string : List Pair → List ℕ
unfolding print_pairs drop_last_two
map_to_cookies_string [] = []
map_to_cookies_string (p ∷ ps) = drop_last_two (print_pairs (p ∷ ps))

pub cookies_list_to_string : List Pair → List ℕ
unfolding print_pairs drop_last_two
cookies_list_to_string [] = []
cookies_list_to_string (p ∷ ps) = drop_last_two (print_pairs (p ∷ ps))

pub cookies_list_to_map : Eq (List ℕ) → List Pair → List Pair → List Pair
cookies_list_to_map e [] o = o
cookies_list_to_map e ((k, v) ∷ ps) o = cookies_list_to_map e ps (insert e k v o)

pub cookies_map_to_list : List Pair → List Pair → List Pair
cookies_map_to_list [] o = o
cookies_map_to_list (p ∷ ps) o = cookies_map_to_list ps (o ++ (p ∷ []))
