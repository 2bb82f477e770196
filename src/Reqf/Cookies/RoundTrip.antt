-- ===== src/Reqf/Cookies/RoundTrip.antt =====
-- A cookie string that was printed from a list is read back (reqf/cookie.go).
use part.Common.{
  List, [], ap, append-nil, append_assoc, arith, false, length, length-append, ltb, lt→ltb, refl,
  some, sym, take-append_exact, true, ℕ, ◌&&◌, ◌++◌, ◌-◌, ◌==◌, ◌∙◌, ◌∷◌, ◌≡◌, ◌≢◌,
}
use part.Common.Utf8.{
  IsText, IsText-append, AreRunes, to_runes, of_runes, to_runes-of_runes, runes_from, decode_rune,
  encode_rune,
}
use part.Reqf.Cookies.{
  semicolon, space, equals, Pair, split_semi, cut_equals, list_pieces, cookies_string_to_list,
  print_pairs, drop_last_two, cookies_list_to_string,
}

-- The byte does not occur.
abbrev pub IsFree : ℕ → List ℕ → Type 0
IsFree c [] = Unit
IsFree c (d ∷ s) = ((d == c) ≡ false) × IsFree c s

abbrev pub AllPlain : List Pair → Type 0
AllPlain [] = Unit
AllPlain ((k, v) ∷ ps) = ((IsFree equals k × IsFree semicolon k) × IsFree semicolon v) × AllPlain ps

-- Names and values are valid UTF-8.
abbrev pub AreTexts : List Pair → Type 0
AreTexts [] = Unit
AreTexts ((k, v) ∷ ps) = (IsText k × IsText v) × AreTexts ps

abbrev piece : Pair → List ℕ
piece (k, v) = k ++ (equals ∷ v)

abbrev pieces : List Pair → List (List ℕ)
pieces [] = []
pieces (p ∷ ps) = piece p ∷ pieces ps

abbrev join : Pair → List Pair → List ℕ
join p [] = piece p
join p (q ∷ ps) = piece p ++ (semicolon ∷ space ∷ join q ps)

split_semi-plain :
    (c d : ℕ) (s cur : List ℕ)
    → (c == semicolon) ≡ false
    → split_semi cur (c ∷ d ∷ s) ≡ split_semi (cur ++ (c ∷ [])) (d ∷ s)
unfolding split_semi
split_semi-plain c d s cur h =
    ap
      (λ b. elim (b && d == space) as (λ x. List (List ℕ)) [
        | true ↦ cur ∷ split_semi [] s
        | false ↦ split_semi (cur ++ (c ∷ [])) (d ∷ s)
      ])
      h

split_semi-stop :
    (p s cur : List ℕ)
    → IsFree semicolon p
    → split_semi cur (p ++ (semicolon ∷ space ∷ s)) ≡ (cur ++ p) ∷ split_semi [] s
unfolding split_semi
split_semi-stop [] s cur h = ap (λ l. l ∷ split_semi [] s) (sym (append-nil cur))
split_semi-stop (c ∷ []) s cur (h, hs) = split_semi-plain c semicolon (space ∷ s) cur h
split_semi-stop (c ∷ d ∷ p) s cur (h, hs) =
    split_semi-plain c d (p ++ (semicolon ∷ space ∷ s)) cur h
    ∙ split_semi-stop (d ∷ p) s (cur ++ (c ∷ [])) hs
    ∙ ap (λ l. l ∷ split_semi [] s) (append_assoc cur (c ∷ []) (d ∷ p))

split_semi-end : (p cur : List ℕ) → IsFree semicolon p → split_semi cur p ≡ (cur ++ p) ∷ []
unfolding split_semi
split_semi-end [] cur h = ap (λ l. l ∷ []) (sym (append-nil cur))
split_semi-end (c ∷ []) cur h = refl
split_semi-end (c ∷ d ∷ p) cur (h, hs) =
    split_semi-plain c d p cur h
    ∙ split_semi-end (d ∷ p) (cur ++ (c ∷ [])) hs
    ∙ ap (λ l. l ∷ []) (append_assoc cur (c ∷ []) (d ∷ p))

cut_equals-piece :
    (k v cur : List ℕ) → IsFree equals k → cut_equals cur (k ++ (equals ∷ v)) ≡ some (cur ++ k, v)
unfolding cut_equals
cut_equals-piece [] v cur h = ap (λ l. some (l, v)) (sym (append-nil cur))
cut_equals-piece (c ∷ k) v cur (h, hs) = rw h (
    cut_equals-piece k v (cur ++ (c ∷ [])) hs ∙ ap (λ l. some (l, v)) (append_assoc cur (c ∷ []) k))

IsFree-append : (c : ℕ) (xs ys : List ℕ) → IsFree c xs → IsFree c ys → IsFree c (xs ++ ys)
IsFree-append c [] ys h k = k
IsFree-append c (x ∷ xs) ys (h, hs) k = (h, IsFree-append c xs ys hs k)

piece-IsFree :
    (k v : List ℕ) → IsFree semicolon k → IsFree semicolon v → IsFree semicolon (piece (k, v))
piece-IsFree k v hk hv = IsFree-append semicolon k (equals ∷ v) hk (refl, hv)

split_semi-join :
    (p : Pair) (ps : List Pair) → AllPlain (p ∷ ps) → split_semi [] (join p ps) ≡ pieces (p ∷ ps)
split_semi-join (k, v) [] (((ek, sk), sv), hs) =
    split_semi-end (piece (k, v)) [] (piece-IsFree k v sk sv)
split_semi-join (k, v) (q ∷ ps) (((ek, sk), sv), hs) =
    split_semi-stop (piece (k, v)) (join q ps) [] (piece-IsFree k v sk sv)
    ∙ ap (λ l. piece (k, v) ∷ l) (split_semi-join q ps hs)

list_pieces-pieces : (ps : List Pair) → AllPlain ps → list_pieces (pieces ps) ≡ ps
unfolding list_pieces
list_pieces-pieces [] h = refl
list_pieces-pieces ((k, v) ∷ ps) (((ek, sk), sv), hs) =
    rw (cut_equals-piece k v [] ek, list_pieces) (ap (λ l. (k, v) ∷ l) (list_pieces-pieces ps hs))

print_pairs-join :
    (p : Pair) (ps : List Pair) → print_pairs (p ∷ ps) ≡ join p ps ++ (semicolon ∷ space ∷ [])
unfolding print_pairs
print_pairs-join (k, v) [] = sym (append_assoc k (equals ∷ v) (semicolon ∷ space ∷ []))
print_pairs-join (k, v) (q ∷ ps) =
    let end = semicolon ∷ space ∷ [] in
    sym (append_assoc k (equals ∷ v) (semicolon ∷ space ∷ print_pairs (q ∷ ps)))
    ∙ ap (λ l. piece (k, v) ++ (semicolon ∷ space ∷ l)) (print_pairs-join q ps)
    ∙ sym (append_assoc (piece (k, v)) (semicolon ∷ space ∷ join q ps) end)

join-nonempty : (p : Pair) (ps : List Pair) → length (join p ps) ≢ 0
join-nonempty (k, v) [] e = let len = length-append k (equals ∷ v) in absurd (omega arith)
join-nonempty (k, v) (q ∷ ps) e =
    let len = length-append k (equals ∷ v) in
    let all = length-append (piece (k, v)) (semicolon ∷ space ∷ join q ps) in absurd (omega arith)

equals-IsText : IsText (equals ∷ [])
unfolding of_runes encode_rune
equals-IsText = (equals ∷ [], (refl, tt), refl)

end-IsText : IsText (semicolon ∷ space ∷ [])
unfolding of_runes encode_rune
end-IsText = (semicolon ∷ space ∷ [], (refl, (refl, tt)), refl)

piece-IsText : (k v : List ℕ) → IsText k → IsText v → IsText (piece (k, v))
piece-IsText k v hk hv =
    IsText-append k (equals ∷ v) hk (IsText-append (equals ∷ []) v equals-IsText hv)

join-IsText : (p : Pair) (ps : List Pair) → AreTexts (p ∷ ps) → IsText (join p ps)
join-IsText (k, v) [] ((hk, hv), hs) = piece-IsText k v hk hv
join-IsText (k, v) (q ∷ ps) ((hk, hv), hs) =
    IsText-append (piece (k, v)) (semicolon ∷ space ∷ join q ps) (piece-IsText k v hk hv)
      (IsText-append (semicolon ∷ space ∷ []) (join q ps) end-IsText (join-IsText q ps hs))

drop_last_two-of_runes :
    (rs : List ℕ)
    → AreRunes rs
    → length rs ≢ 0
    → drop_last_two (of_runes rs ++ (semicolon ∷ space ∷ [])) ≡ of_runes rs
unfolding drop_last_two to_runes runes_from decode_rune
drop_last_two-of_runes rs h more =
    let end : List ℕ = semicolon ∷ space ∷ [] in
    let read : to_runes (of_runes rs ++ end) ≡ rs ++ end = to_runes-of_runes rs end h in
    let len = length-append rs end in
    let long : ltb 2 (length (rs ++ end)) ≡ true = lt→ltb _ _ (omega arith) in
    rw (drop_last_two, read, long)
      (ap of_runes (take-append_exact (length (rs ++ end) - 2) rs end (omega arith)))

drop_last_two-append :
    (s : List ℕ) → IsText s → length s ≢ 0 → drop_last_two (s ++ (semicolon ∷ space ∷ [])) ≡ s
unfolding of_runes
drop_last_two-append s ([], h, e) more = absurd (more (ap length e))
drop_last_two-append s (r ∷ rs, h, e) more =
    rw e (drop_last_two-of_runes (r ∷ rs) h (λ n. absurd (omega arith)))

-- A list of cookies whose names and values are valid UTF-8, names without `=` and `;` and values
-- without `;`, is read back from the string that it is printed as.
pub cookies_string_to_list-cookies_list_to_string :
    (ps : List Pair)
    → AreTexts ps
    → AllPlain ps
    → cookies_string_to_list (cookies_list_to_string ps) ≡ ps
unfolding cookies_string_to_list cookies_list_to_string
cookies_string_to_list-cookies_list_to_string [] texts h = refl
cookies_string_to_list-cookies_list_to_string (p ∷ ps) texts h =
    ap (λ o. list_pieces (split_semi [] (drop_last_two o))) (print_pairs-join p ps)
    ∙ ap (λ o. list_pieces (split_semi [] o))
        (drop_last_two-append (join p ps) (join-IsText p ps texts) (join-nonempty p ps))
    ∙ ap list_pieces (split_semi-join p ps h)
    ∙ list_pieces-pieces (p ∷ ps) h
