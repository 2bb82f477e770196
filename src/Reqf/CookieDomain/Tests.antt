-- ===== src/Reqf/CookieDomain/Tests.antt =====
-- Witnesses for the theorem on domain names of cookies.
use part.Common.{List, [], false, leb, length, refl, suc, ℕ, ◌&&◌, ◌∷◌, ◌≡◌}
use part.Reqf.CookieDomain.{is_cookie_domain_name, dot}
use part.Reqf.CookieDomain.Labels.{join_dots, are_good, domain_name-labels}

-- `a-b.c`
abbrev labels : List (List ℕ)
labels = (97 ∷ 45 ∷ 98 ∷ []) ∷ (99 ∷ []) ∷ []

domain_name-labels_example :
    let name = join_dots labels in
    let good = are_good false labels in
    (is_cookie_domain_name name ≡ (leb (length name) 255 && good))
    × (is_cookie_domain_name (dot ∷ name) ≡ (leb (suc (length name)) 255 && good))
domain_name-labels_example =
    domain_name-labels 97 (45 ∷ 98 ∷ []) ((99 ∷ []) ∷ [])
      ((refl, (refl, (refl, tt))), ((refl, tt), tt))
