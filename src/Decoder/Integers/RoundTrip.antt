-- ===== src/Decoder/Integers/RoundTrip.antt =====
-- The bytes that Itob writes are read back by Btoi, at any place of a slice
-- (decoder/tool/B_I.go).
use part.Common.{
  List, ap, arith, drop-append_exact, length, refl, some, take, take-append_exact, ℕ, ◌++◌, ◌<◌,
  ◌∙◌, ◌≡◌,
}
use part.Decoder.Integers.{itob64, itob32, itob16, join, btoui32, btoi32, btoui16, btoi16, btoi64}
use part.Decoder.Integers.Reading.{window, btoui_lem}

join-itob16 : (v : ℕ) → v < 65536 → join (itob16 v) ≡ v
unfolding itob16
join-itob16 v h = omega arith

pub join-itob32 : (v : ℕ) → v < 4294967296 → join (itob32 v) ≡ v
unfolding itob32
join-itob32 v h = omega arith

join-itob64 : (v : ℕ) → v < 18446744073709551616 → join (itob64 v) ≡ v
unfolding itob64
join-itob64 v h = omega arith

pub window-exact : (pre w post : List ℕ) → window (pre ++ (w ++ post)) (length pre) (length w) ≡ w
window-exact pre w post =
    ap (λ l. take (length w) l) (drop-append_exact (length pre) pre (w ++ post) refl)
    ∙ take-append_exact (length w) w post refl

reads :
    (pre w post : List ℕ) (v : ℕ)
    → join w ≡ v
    → some (join (window (pre ++ (w ++ post)) (length pre) (length w))) ≡ some v
reads pre w post v h = ap some (ap join (window-exact pre w post) ∙ h)

-- What Itob64, Itob32 and Itob16 write for a value of their width, at any place of a slice, is read
-- back by the Btoi of that width.
pub btoi-itob :
    (u v w : ℕ) (pre post : List ℕ)
    → u < 18446744073709551616
    → v < 4294967296
    → w < 65536
    → (btoi64 (pre ++ (itob64 u ++ post)) (length pre) ≡ some u)
      × (btoi32 (pre ++ (itob32 v ++ post)) (length pre) ≡ some v)
      × (btoui32 (pre ++ (itob32 v ++ post)) (length pre) ≡ some v)
      × (btoi16 (pre ++ (itob16 w ++ post)) (length pre) ≡ some w)
      × (btoui16 (pre ++ (itob16 w ++ post)) (length pre) ≡ some w)
unfolding itob64 itob32 itob16
btoi-itob u v w pre post hu hv hw =
    let r64 = btoui_lem (pre ++ (itob64 u ++ post)) (length pre) in
    let r32 = btoui_lem (pre ++ (itob32 v ++ post)) (length pre) in
    let r16 = btoui_lem (pre ++ (itob16 w ++ post)) (length pre) in
    (
      r64.4 ∙ reads pre (itob64 u) post u (join-itob64 u hu),
      r32.1 ∙ reads pre (itob32 v) post v (join-itob32 v hv),
      r32.0 ∙ reads pre (itob32 v) post v (join-itob32 v hv),
      r16.3 ∙ reads pre (itob16 w) post w (join-itob16 w hw),
      r16.2 ∙ reads pre (itob16 w) post w (join-itob16 w hw),
    )
