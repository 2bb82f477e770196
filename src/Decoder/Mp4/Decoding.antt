-- ===== src/Decoder/Mp4/Decoding.antt =====
-- decode of decoder/mp4/main.go finds every box of a well-formed tree.
use part.Common.{
  Bool, List, Option, [], ap, append-nil, append_assoc, ap₂, arith, drop, drop-append_exact, false,
  if◌then◌else◌, leb, length, length-append, le→leb, ltb, lt→ltb, none, refl, some, suc, sym, take,
  take-append_exact, true, ℕ, ◌*◌, ◌++◌, ◌+◌, ◌-◌, ◌<◌, ◌^◌, ◌∙◌, ◌∷◌, ◌≡◌,
}
use part.Decoder.Integers.{itob32, join, btoi}
use part.Decoder.Integers.Reading.{window, btoi_lem}
use part.Decoder.Integers.RoundTrip.{window-exact, join-itob32}
use part.Decoder.Mp4.{Ie, Err, search_box, ends, decode_loop, decode}
use part.Decoder.Mp4.Boxes.{
  Box, leaf, node, Boxes, nil, cons, frame, encode, encode_all, entries, entries_all, count,
  count_all, IsBox, IsWell, AreWell,
}

-- The length that is read at the start of a box.
btoi-frame :
    (pre name content post : List ℕ)
    → length content + 8 < 4294967296
    → btoi (pre ++ (frame name content ++ post)) (length pre) 4 ≡ some (length content + 8)
unfolding itob32
btoi-frame pre name content post h =
    let s = length content + 8 in
    let buf = pre ++ (itob32 s ++ ((name ++ content) ++ post)) in
    let w : window buf (length pre) 4 ≡ itob32 s =
      window-exact pre (itob32 s) ((name ++ content) ++ post) in
    let read = btoi_lem buf (length pre) 4 (omega arith) in
    let value : join (window buf (length pre) 4) * 256 ^ (4 - length (window buf (length pre) 4))
        ≡ s =
      ap (λ l. join l * 256 ^ (4 - length l)) w ∙ ap (λ x. x * 1) (join-itob32 s h) ∙ omega arith in
    ap (λ l. btoi (pre ++ l) (length pre) 4) (append_assoc (itob32 s) (name ++ content) post)
    ∙ read
    ∙ ap some value

name-frame :
    (pre name content post spare : List ℕ)
    → length name ≡ 4
    → take 4 (drop (length pre + 4) ((pre ++ (frame name content ++ post)) ++ spare)) ≡ name
unfolding itob32
name-frame pre name content post spare h =
    let s = itob32 (length content + 8) in
    let rest = content ++ (post ++ spare) in
    let len = length-append pre s in
    let spelled : (pre ++ (frame name content ++ post)) ++ spare ≡ (pre ++ s) ++ (name ++ rest) =
      append_assoc pre (frame name content ++ post) spare
      ∙ ap (λ l. pre ++ l)
          (append_assoc (frame name content) post spare
            ∙ append_assoc s (name ++ content) (post ++ spare)
            ∙ ap (λ l. s ++ l) (append_assoc name content (post ++ spare)))
      ∙ sym (append_assoc pre s (name ++ rest)) in
    ap (λ l. take 4 (drop (length pre + 4) l)) spelled
    ∙ ap (take 4) (drop-append_exact (length pre + 4) (pre ++ s) (name ++ rest) (omega arith))
    ∙ take-append_exact 4 name rest (omega arith)

length-frame :
    (name content : List ℕ) → length name ≡ 4 → length (frame name content) ≡ length content + 8
unfolding itob32
length-frame name content h =
    let l = length-append (itob32 (length content + 8)) (name ++ content) in
    let l' = length-append name content in omega arith

search_box-frame :
    (pre name content post spare : List ℕ) (pure : Bool)
    → IsBox pure name content
    → let s = length content + 8 in
      let cu = length pre in
      search_box (pre ++ (frame name content ++ post)) spare cu
      ≡ some (record {
        ie = record { n = name; i = cu; e = cu + s };
        cu = if pure then cu + s else cu + 8;
        err = none;
      })
unfolding search_box
search_box-frame pre name content post spare pure (known, four, small) =
    let buf = pre ++ (frame name content ++ post) in
    let l₁ = length-append pre (frame name content ++ post) in
    let l₂ = length-append (frame name content) post in
    let l₃ = length-frame name content four in
    let inside : leb (length pre + 8) (length buf + length spare) ≡ true =
      le→leb _ _ (omega arith) in
    let whole : ltb (length buf) (length pre + (length content + 8)) ≡ false = ground arith in
    rw
      (
        btoi-frame pre name content post small,
        inside,
        name-frame pre name content post spare four,
        known,
        whole,
      )
      (ap
        (λ l. some (record {
          ie = record { n = l; i = length pre; e = length pre + (length content + 8) };
          cu = if pure then length pre + (length content + 8) else length pre + 8;
          err = none;
        }))
        (name-frame pre name content post spare four))

module _ (buf spare resync : List ℕ) where
  -- A round of decode on a box.
  decode-frame :
      (pre name content post : List ℕ) (pure : Bool) (fuel : ℕ) (m : List Ie) (err : Option Err)
      → IsBox pure name content
      → buf ≡ pre ++ (frame name content ++ post)
      → let s = length content + 8 in
        let cu = length pre in
        decode_loop buf spare resync (suc fuel) cu m err
        ≡ decode_loop buf spare resync fuel
            (if pure then cu + s else cu + 8)
            (m ++ (record { n = name; i = cu; e = cu + s } ∷ []))
            err
  unfolding decode_loop
  decode-frame pre name content post pure fuel m err is_box e =
      let l₁ = length-append pre (frame name content ++ post) in
      let l₂ = length-append (frame name content) post in
      let l₃ = length-frame name content is_box.1 in
      let len : length buf ≡ length pre + (length content + 8 + length post) =
        ap length e ∙ omega arith in
      let going : ltb (length pre + 3) (length buf) ≡ true = lt→ltb _ _ (omega arith) in
      let found =
        ap (λ l. search_box l spare (length pre)) e
        ∙ search_box-frame pre name content post spare pure is_box in
      rw (decode_loop, going, found) refl

  -- Where the content of a box begins.
  inner :
      (pre name content post : List ℕ)
      → buf ≡ pre ++ (frame name content ++ post)
      → buf ≡ (pre ++ (itob32 (length content + 8) ++ name)) ++ (content ++ post)
  inner pre name content post e =
      let s = itob32 (length content + 8) in
      e
      ∙ ap (λ l. pre ++ l)
          (append_assoc s (name ++ content) post
            ∙ ap (λ l. s ++ l) (append_assoc name content post)
            ∙ sym (append_assoc s name (content ++ post)))
      ∙ sym (append_assoc pre (s ++ name) (content ++ post))

  length-inner :
      (pre name content : List ℕ)
      → length name ≡ 4
      → length (pre ++ (itob32 (length content + 8) ++ name)) ≡ length pre + 8
  unfolding itob32
  length-inner pre name content h =
      let s = itob32 (length content + 8) in
      let l₁ = length-append pre (s ++ name) in let l₂ = length-append s name in omega arith

  mutual
    unfolding encode entries count IsWell

    decode-box :
        (b : Box) (pre post : List ℕ) (k fuel : ℕ) (m : List Ie) (err : Option Err)
        → IsWell b
        → buf ≡ pre ++ (encode b ++ post)
        → k ≡ count b + fuel
        → decode_loop buf spare resync k (length pre) m err
          ≡ decode_loop buf spare resync fuel
              (length pre + length (encode b))
              (m ++ entries (length pre) b)
              err
    decode-box (leaf name payload) pre post k fuel m err well e c =
        let one : k ≡ suc fuel = omega arith in
        let len = length-frame name payload well.1 in
        ap (λ x. decode_loop buf spare resync x (length pre) m err) one
        ∙ decode-frame pre name payload post true fuel m err well e
        ∙ ap
            (λ x.
              decode_loop buf spare resync fuel (length pre + x)
                (m ++ entries (length pre) (leaf name payload)) err)
            (sym len)
    decode-box (node name bs) pre post k fuel m err (is_box, well) e c =
        let content = encode_all bs in
        let k' = count_all bs + fuel in
        let one : k ≡ suc k' = omega arith in
        let len = length-frame name content is_box.1 in
        let pre' = pre ++ (itob32 (length content + 8) ++ name) in
        let len' = length-inner pre name content is_box.1 in
        let ie : Ie = record { n = name; i = length pre; e = length pre + (length content + 8) } in
        let stop : length pre' + length content ≡ length pre + length (frame name content) =
          omega arith in
        ap (λ x. decode_loop buf spare resync x (length pre) m err) one
        ∙ decode-frame pre name content post false k' m err is_box e
        ∙ ap (λ x. decode_loop buf spare resync k' x (m ++ (ie ∷ [])) err) (sym len')
        ∙ decode-boxes bs pre' post k' fuel (m ++ (ie ∷ [])) err well
            (inner pre name content post e) refl
        ∙ ap₂ (λ x y. decode_loop buf spare resync fuel x y err) stop
            (append_assoc m (ie ∷ []) (entries_all (length pre') bs)
              ∙ ap (λ x. m ++ (ie ∷ entries_all x bs)) len')

    decode-boxes :
        (bs : Boxes) (pre post : List ℕ) (k fuel : ℕ) (m : List Ie) (err : Option Err)
        → AreWell bs
        → buf ≡ pre ++ (encode_all bs ++ post)
        → k ≡ count_all bs + fuel
        → decode_loop buf spare resync k (length pre) m err
          ≡ decode_loop buf spare resync fuel
              (length pre + length (encode_all bs))
              (m ++ entries_all (length pre) bs)
              err
    decode-boxes nil pre post k fuel m err well e c =
        let same : k ≡ fuel = omega arith in
        ap (λ x. decode_loop buf spare resync x (length pre) m err) same
        ∙ ap₂ (λ x y. decode_loop buf spare resync fuel x y err) (omega arith) (sym (append-nil m))
    decode-boxes (cons b bs) pre post k fuel m err (w, ws) e c =
        let k' = count_all bs + fuel in
        let pre' = pre ++ encode b in
        let first = entries (length pre) b in
        let len = length-append pre (encode b) in
        let len' = length-append (encode b) (encode_all bs) in
        let stop : length pre' + length (encode_all bs)
            ≡ length pre + length (encode b ++ encode_all bs) =
          omega arith in
        let next : buf ≡ pre ++ (encode b ++ (encode_all bs ++ post)) =
          e ∙ ap (λ l. pre ++ l) (append_assoc (encode b) (encode_all bs) post) in
        decode-box b pre (encode_all bs ++ post) k k' m err w next (omega arith)
        ∙ ap (λ x. decode_loop buf spare resync k' x (m ++ first) err) (sym len)
        ∙ decode-boxes bs pre' post k' fuel (m ++ first) err ws
            (next ∙ sym (append_assoc pre (encode b) (encode_all bs ++ post))) refl
        ∙ ap₂ (λ x y. decode_loop buf spare resync fuel x y err) stop
            (append_assoc m first (entries_all (length pre') bs)
              ∙ ap (λ x. m ++ (first ++ entries_all x bs)) len)

-- decode of the bytes of any well-formed boxes, however deep they are in one another, finds every
-- box with its name, start and end, each before those inside it, and no error, whatever the array
-- holds behind the slice; one round for each box and one more are enough.
pub decode-encode_all :
    (bs : Boxes) (spare resync : List ℕ) (fuel : ℕ)
    → AreWell bs
    → count_all bs < fuel
    → decode (encode_all bs) spare resync fuel ≡ ends (entries_all 0 bs, none)
unfolding decode
decode-encode_all bs spare resync fuel well enough =
    let buf = encode_all bs in
    let fuel' = fuel - count_all bs - 1 in
    let shares : fuel ≡ count_all bs + suc fuel' = omega arith in
    let over : ltb (length buf + 3) (length buf) ≡ false = ground arith in
    let start : 0 + length buf ≡ length buf = omega arith in
    decode-boxes buf spare resync bs [] [] fuel (suc fuel') [] none well (sym (append-nil buf))
      shares
    ∙ ap (λ x. decode_loop buf spare resync (suc fuel') x (entries_all 0 bs) none) start
    ∙ rw (decode_loop, over) refl
