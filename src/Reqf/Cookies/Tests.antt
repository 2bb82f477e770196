-- ===== src/Reqf/Cookies/Tests.antt =====
-- Witnesses for the theorem on cookie strings, and a run on bytes that are not UTF-8.
use part.Common.{List, [], refl, ◌∷◌, ◌≡◌}
use part.Common.Utf8.{to_runes, of_runes, runes_from, decode_rune, encode_rune}
use part.Reqf.Cookies.{
  Pair, cookies_string_to_list, cookies_list_to_string, split_semi, list_pieces, cut_equals,
  print_pairs, drop_last_two,
}
use part.Reqf.Cookies.RoundTrip.{cookies_string_to_list-cookies_list_to_string}

-- `a=é=; =`
abbrev cookies : List Pair
cookies = (97 ∷ [], 0xc3 ∷ 0xa9 ∷ 61 ∷ []) ∷ ([], []) ∷ []

cookies_round_trip_example : cookies_string_to_list (cookies_list_to_string cookies) ≡ cookies
unfolding of_runes encode_rune
cookies_round_trip_example =
    cookies_string_to_list-cookies_list_to_string cookies
      (
        ((97 ∷ [], (refl, tt), refl), (0xe9 ∷ 61 ∷ [], (refl, (refl, tt)), refl)),
        ((([], tt, refl), ([], tt, refl)), tt),
      )
      ((((refl, tt), (refl, tt)), (refl, (refl, (refl, tt)))), (((tt, tt), tt), tt))

-- A value of the byte 0xff comes back as the three bytes of U+FFFD.
not_utf8 :
    cookies_string_to_list (cookies_list_to_string ((97 ∷ [], 0xff ∷ []) ∷ []))
    ≡ (97 ∷ [], 0xef ∷ 0xbf ∷ 0xbd ∷ []) ∷ []
unfolding cookies_string_to_list cookies_list_to_string split_semi list_pieces cut_equals
    print_pairs drop_last_two to_runes of_runes runes_from decode_rune encode_rune
not_utf8 = refl
