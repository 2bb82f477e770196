-- ===== src/Reqf/CookieDomain/Labels.antt =====
-- `isCookieDomainName` (reqf/cookie.go) on a name given by its labels.
use part.Common.{
  Bool, Bool-cases, List, Option, [], ap, append-nil, ap₂, arith, false, if◌then◌else◌, inl, inr,
  leb, length, ltb, none, not, refl, some, suc, sym, true, ℕ, ◌&&◌, ◌++◌, ◌+◌, ◌==◌, ◌||◌, ◌∙◌, ◌∷◌,
  ◌≡◌,
}
use part.Reqf.CookieDomain.{
  is_letter, is_digit, dash, dot, domain_step, domain_loop, strip_dot, is_cookie_domain_name,
}

abbrev is_name_byte : ℕ → Bool
is_name_byte c = is_letter c || is_digit c || c == dash

abbrev pub AllNameBytes : List ℕ → Type 0
AllNameBytes [] = Unit
AllNameBytes (c ∷ l) = (is_name_byte c ≡ true) × AllNameBytes l

abbrev pub AllLabels : List (List ℕ) → Type 0
AllLabels [] = Unit
AllLabels (l ∷ ls) = AllNameBytes l × AllLabels ls

abbrev any_letter : List ℕ → Bool
any_letter [] = false
any_letter (c ∷ l) = is_letter c || any_letter l

-- A dash right behind a dot.
abbrev starts_bad : ℕ → List ℕ → Bool
starts_bad last [] = false
starts_bad last (c ∷ l) = c == dash && last == dot

abbrev last_of : ℕ → List ℕ → ℕ
last_of last [] = last
last_of last (c ∷ l) = last_of c l

abbrev pub join_dots : List (List ℕ) → List ℕ
join_dots [] = []
join_dots (l ∷ []) = l
join_dots (l ∷ m ∷ ls) = l ++ (dot ∷ join_dots (m ∷ ls))

-- No dash at either end, at most 63 bytes.
abbrev pub is_good : List ℕ → Bool
is_good l = not (starts_bad dot l) && not (last_of dot l == dash) && leb (length l) 63

-- Every label is good, all but the last one have a byte, and a letter is seen.
abbrev pub are_good : Bool → List (List ℕ) → Bool
are_good ok [] = ok
are_good ok (l ∷ []) = is_good l && (ok || any_letter l)
are_good ok (l ∷ m ∷ ls) =
    is_good l && not (length l == 0) && are_good (ok || any_letter l) (m ∷ ls)

step-name :
    (c last n : ℕ) (ok : Bool)
    → is_name_byte c ≡ true
    → domain_step c last ok n
      ≡ (if c == dash && last == dot then none else some (ok || is_letter c, n + 1))
step-name c last n ok h = ground arith

abbrev after : List ℕ → ℕ → Option (Bool × ℕ) → Bool
after s c o = elim (o) as (λ x. Bool) [ none ↦ false | some (ok', n') ↦ domain_loop s c ok' n' ]

domain_loop-name :
    (c last n : ℕ) (ok : Bool) (s : List ℕ)
    → is_name_byte c ≡ true
    → domain_loop (c ∷ s) last ok n
      ≡ (if c == dash && last == dot then false else domain_loop s c (ok || is_letter c) (n + 1))
unfolding domain_loop
domain_loop-name c last n ok s h =
    ap (after s c) (step-name c last n ok h) ∙ elim (Bool-cases (c == dash && last == dot)) [
      | inl bad ↦ rw bad refl
      | inr good ↦ rw good refl
    ]

starts_bad-name : (c : ℕ) (l : List ℕ) → is_name_byte c ≡ true → starts_bad c l ≡ false
starts_bad-name c [] h = refl
starts_bad-name c (d ∷ l) h = ground arith

or_assoc : (a b c : Bool) → ((a || b) || c) ≡ (a || (b || c))
or_assoc a b c = ground arith

domain_loop-label :
    (l rest : List ℕ) (last n : ℕ) (ok : Bool)
    → AllNameBytes l
    → domain_loop (l ++ rest) last ok n ≡ (
        if starts_bad last l
        then false
        else domain_loop rest (last_of last l) (ok || any_letter l) (n + length l))
domain_loop-label [] rest last n ok h =
    ap₂ (λ b k. domain_loop rest last b k) (let e : ok ≡ (ok || false) = ground arith in e)
      (let e : n ≡ n + 0 = omega arith in e)
domain_loop-label (c ∷ l) rest last n ok (h, hs) =
    let ih = domain_loop-label l rest c (n + 1) (ok || is_letter c) hs in
    let fine = starts_bad-name c l h in
    let sum : n + 1 + length l ≡ n + suc (length l) = omega arith in
    let rest_eq : domain_loop (l ++ rest) c (ok || is_letter c) (n + 1)
        ≡ domain_loop rest (last_of c l) (ok || (is_letter c || any_letter l))
            (n + suc (length l)) =
      ih
      ∙ ap
          (λ b.
            if b
            then false
            else domain_loop rest (last_of c l) ((ok || is_letter c) || any_letter l)
                (n + 1 + length l))
          fine
      ∙ ap₂ (λ b k. domain_loop rest (last_of c l) b k) (or_assoc ok (is_letter c) (any_letter l))
          sum in
    domain_loop-name c last n ok (l ++ rest) h
    ∙ ap (λ r. if c == dash && last == dot then false else r) rest_eq

step-dot :
    (last n : ℕ) (ok : Bool)
    → domain_step dot last ok n ≡ (
        if not (last == dot) && not (last == dash) && leb n 63 && not (n == 0)
        then some (ok, 0)
        else none)
step-dot last n ok = ground arith

domain_loop-dot :
    (s : List ℕ) (last n : ℕ) (ok : Bool)
    → domain_loop (dot ∷ s) last ok n ≡ (
        if not (last == dot) && not (last == dash) && leb n 63 && not (n == 0)
        then domain_loop s dot ok 0
        else false)
unfolding domain_loop
domain_loop-dot s last n ok =
    ap (after s dot) (step-dot last n ok)
    ∙ elim (Bool-cases (not (last == dot) && not (last == dash) && leb n 63 && not (n == 0))) [
      | inl fine ↦ rw fine refl
      | inr bad ↦ rw bad refl
    ]

domain_loop-end :
    (last n : ℕ) (ok : Bool) → domain_loop [] last ok n ≡ (not (last == dash) && leb n 63 && ok)
unfolding domain_loop
domain_loop-end last n ok = ground arith

last_of-name : (l : List ℕ) (c : ℕ) → AllNameBytes (c ∷ l) → (last_of c l == dot) ≡ false
last_of-name [] c (h, hs) = ground arith
last_of-name (d ∷ l) c (h, hs) = last_of-name l d hs

label_tests :
    (a d b x y : Bool) (k : ℕ)
    → d ≡ false
    → x ≡ y
    → (if a
        then false
        else (if not d && not b && leb (0 + suc k) 63 && not (0 + suc k == 0) then x else false))
      ≡ ((not a && not b && leb (suc k) 63) && not (suc k == 0) && y)
label_tests a d b x y k h e = ground arith

loop-labels :
    (ls : List (List ℕ)) (ok : Bool)
    → AllLabels ls
    → domain_loop (join_dots ls) dot ok 0 ≡ are_good ok ls
loop-labels [] ok h = domain_loop-end dot 0 ok
loop-labels (l ∷ []) ok (h, hs) =
    ap (λ s. domain_loop s dot ok 0) (sym (append-nil l))
    ∙ domain_loop-label l [] dot 0 ok h
    ∙ ap (λ b. if starts_bad dot l then false else b)
        (domain_loop-end (last_of dot l) (0 + length l) (ok || any_letter l))
    ∙ ground arith
loop-labels ([] ∷ m ∷ ls) ok (h, hs) = domain_loop-dot (join_dots (m ∷ ls)) dot 0 ok
loop-labels ((c ∷ l) ∷ m ∷ ls) ok (h, hs) =
    let ih = loop-labels (m ∷ ls) (ok || any_letter (c ∷ l)) hs in
    let not_dot = last_of-name l c h in
    domain_loop-label (c ∷ l) (dot ∷ join_dots (m ∷ ls)) dot 0 ok h
    ∙ ap (λ b. if starts_bad dot (c ∷ l) then false else b)
        (domain_loop-dot (join_dots (m ∷ ls)) (last_of c l) (0 + length (c ∷ l))
          (ok || any_letter (c ∷ l)))
    ∙ label_tests (starts_bad dot (c ∷ l)) (last_of c l == dot) (last_of c l == dash) _ _ (length l)
        not_dot ih

checked :
    (s : List ℕ) (r : Bool)
    → (length s == 0) ≡ false
    → domain_loop (strip_dot s) dot false 0 ≡ r
    → is_cookie_domain_name s ≡ (leb (length s) 255 && r)
unfolding is_cookie_domain_name
checked s r nonempty loop =
    rw (nonempty, loop)
      (let t : (if ltb 255 (length s) then false else r) ≡ (leb (length s) 255 && r) =
          ground arith in
        t)

join_dots-head :
    (c : ℕ) (l : List ℕ) (ls : List (List ℕ))
    → (tail : List ℕ) × (join_dots ((c ∷ l) ∷ ls) ≡ c ∷ tail)
join_dots-head c l [] = (l, refl)
join_dots-head c l (m ∷ ls) = (l ++ (dot ∷ join_dots (m ∷ ls)), refl)

-- The names that `isCookieDomainName` takes, for labels of letters, digits and dashes between dots
-- of which the first is not empty, with or without a dot in front: at most 255 bytes, no dash at
-- an end of a label, labels of 1 to 63 bytes of which the last may be empty, and a letter.
pub domain_name-labels :
    (c : ℕ) (l : List ℕ) (ls : List (List ℕ))
    → AllLabels ((c ∷ l) ∷ ls)
    → let name = join_dots ((c ∷ l) ∷ ls) in
      let good = are_good false ((c ∷ l) ∷ ls) in
      (is_cookie_domain_name name ≡ (leb (length name) 255 && good))
      × (is_cookie_domain_name (dot ∷ name) ≡ (leb (suc (length name)) 255 && good))
unfolding strip_dot
domain_name-labels c l ls (h, hs) =
    let name = join_dots ((c ∷ l) ∷ ls) in
    let loop = loop-labels ((c ∷ l) ∷ ls) false (h, hs) in
    let (tail, head) = join_dots-head c l ls in
    let other : (c == dot) ≡ false = let first = h.0 in ground arith in
    let kept : strip_dot (c ∷ tail) ≡ c ∷ tail = rw other refl in
    let stripped : strip_dot name ≡ name = ap strip_dot head ∙ kept ∙ sym head in
    let some_byte : (length name == 0) ≡ false = ap (λ s. length s == 0) head ∙ ground arith in
    (
      checked name _ some_byte (ap (λ s. domain_loop s dot false 0) stripped ∙ loop),
      checked (dot ∷ name) _ (ground arith) loop,
    )
