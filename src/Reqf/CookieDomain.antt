-- ===== src/Reqf/CookieDomain.antt =====
-- `isCookieDomainName` of reqf/cookie.go on a string of bytes.
pub mod Labels
mod Tests
use part.Common.{
  ==_iff, ==_refl, Bool, Bool-cases, List, Option, [], ap, append-nil, append_assoc, ap₂, arith,
  drop, drop-append_exact, drop-append_sum, drop-drop, drop-min, drop-take, drop_all, false,
  get_elem?, if◌then◌else◌, inl, inr, leb, leb→le, length, length-append, length-drop,
  length-replicate, length-set, length-take, le→leb, ltb, ltb→lt, lt→ltb, max, min, negsuc, none,
  not, pos, refl, replicate, require, set, some, suc, sym, take, take-append, take-append-drop,
  take-append_exact, take-append_sum, take-min, take-take, take_all, true, zero, ℕ, ℤ, ◌%◌, ◌&&◌,
  ◌*◌, ◌++◌, ◌+◌, ◌-◌, ◌/◌, ◌<◌, ◌==◌, ◌>>=◌, ◌>>◌, ◌^◌, ◌||◌, ◌↔◌, ◌∙◌, ◌∷◌, ◌≡◌, ◌≢◌, ◌≤◌, ◌⊎◌,
}

abbrev pub is_letter : ℕ → Bool
is_letter c = (leb 97 c && leb c 122) || (leb 65 c && leb c 90)

abbrev pub is_digit : ℕ → Bool
is_digit c = leb 48 c && leb c 57

abbrev pub dash : ℕ
dash = 45

abbrev pub dot : ℕ
dot = 46

-- One byte: whether a letter was seen and the length of the part after it, or `none` for false.
abbrev pub domain_step : ℕ → ℕ → Bool → ℕ → Option (Bool × ℕ)
domain_step c last ok partlen =
    if is_letter c
    then some (true, partlen + 1)
    else if is_digit c
    then some (ok, partlen + 1)
    else if c == dash
    then (if last == dot then none else some (ok, partlen + 1))
    else if c == dot
    then (if last == dot || last == dash
        then none
        else if ltb 63 partlen || partlen == 0
        then none
        else some (ok, 0))
    else none

-- The loop, from the byte before, whether a letter was seen and the length of the part so far.
pub domain_loop : List ℕ → ℕ → Bool → ℕ → Bool
domain_loop [] last ok partlen = if last == dash || ltb 63 partlen then false else ok
domain_loop (c ∷ s) last ok partlen = elim (domain_step c last ok partlen) [
  | none ↦ false
  | some (ok', partlen') ↦ domain_loop s c ok' partlen'
]

-- A leading dot is taken off.
pub strip_dot : List ℕ → List ℕ
strip_dot [] = []
strip_dot (c ∷ s) = if c == dot then s else c ∷ s

pub is_cookie_domain_name : List ℕ → Bool
unfolding domain_loop strip_dot
is_cookie_domain_name s =
    if length s == 0
    then false
    else if ltb 255 (length s)
    then false
    else domain_loop (strip_dot s) dot false 0
