-- ===== src/TmplKv/KvStore/Tests.antt =====
-- Witnesses for the theorems on `tmplKV`.
use part.Common.{[], arith, leb, negsuc, pos, some, true, ℕ, ◌≡◌}
use part.Common.Keys.{nat_eq}
use part.Sync.Map.{is_some, load}
use part.TmplKv.KvStore.{KvStore, set_value, get}
use part.TmplKv.KvStore.Lifetime.{at_time, get-set_value, get-set_value_forever}

abbrev empty : KvStore ℕ ℕ
empty = record { now = 100; kvt_map = record { size = pos 0; m = [] } }

get-set_value_example :
    let r = get nat_eq (at_time nat_eq (set_value nat_eq empty 1 (some 5) (pos 10)) 111) 1 in
    (r.1 ≡ leb 111 110) × (r.2 ≡ some 5) × (is_some (load nat_eq r.0.kvt_map 1) ≡ leb 111 110)
get-set_value_example = get-set_value nat_eq empty 1 (some 5) 10 111 (omega arith)

get-set_value_forever_example :
    let r = get nat_eq (at_time nat_eq (set_value nat_eq empty 1 (some 5) (negsuc 0)) 900) 1 in
    (r.1 ≡ true) × (r.2 ≡ some 5) × (is_some (load nat_eq r.0.kvt_map 1) ≡ true)
get-set_value_forever_example = get-set_value_forever nat_eq empty 1 (some 5) 0 900
