-- ===== src/Server/Util/UrlCode/Laws.antt =====
-- The round trip of the encoding, and the bytes that it produces.
use bili_user_spider.Prelude.{
  ℕ, ◌/◌, ◌%◌, ◌<◌, ◌≡◌, refl, ap, ◌∙◌, List, [], ◌∷◌, ◌++◌, some, Bool, true, ◌||◌, arith,
  Bool-cases, inl, inr, ◌==◌,
}
use bili_user_spider.Server.Util.UrlCode.{
  to_hex, from_hex, isalnum, is_plain, encode_byte, url_encode, begins, itself, hex_byte, then_byte,
  url_decode,
}

abbrev pub AllBytes : List ℕ → Type 0
AllBytes [] = Unit {0}
AllBytes (c ∷ cs) = (c < 256) × AllBytes cs

from_hex-to_hex : (x : ℕ) → x < 16 → from_hex (to_hex x) ≡ some x
unfolding from_hex to_hex
from_hex-to_hex x h = ground arith

hex_byte-to_hex : (c : ℕ) → c < 256 → hex_byte (to_hex (c / 16)) (to_hex (c % 16)) ≡ some c
unfolding hex_byte
hex_byte-to_hex c h =
    let high = from_hex-to_hex (c / 16) (omega arith) in
    let low = from_hex-to_hex (c % 16) (omega arith) in ground (arith, high, low)

begins-plain : (c : ℕ) → is_plain c ≡ true → begins c ≡ itself
unfolding begins is_plain isalnum
begins-plain c h = ground arith

url_decode-itself :
    (c : ℕ) (rest : List ℕ)
    → begins c ≡ itself
    → url_decode (c ∷ rest) ≡ then_byte c (url_decode rest)
unfolding url_decode
url_decode-itself c [] h = ground (arith, h)
url_decode-itself c (d ∷ []) h = ground (arith, h)
url_decode-itself c (d ∷ e ∷ rest) h = ground (arith, h)

url_decode-plus : (rest : List ℕ) → url_decode (43 ∷ rest) ≡ then_byte 32 (url_decode rest)
unfolding url_decode begins
url_decode-plus [] = refl
url_decode-plus (d ∷ []) = refl
url_decode-plus (d ∷ e ∷ rest) = refl

url_decode-encode_byte :
    (c : ℕ) (rest : List ℕ)
    → c < 256
    → url_decode (encode_byte c ++ rest) ≡ then_byte c (url_decode rest)
unfolding url_decode encode_byte begins
url_decode-encode_byte c rest h = elim (Bool-cases (is_plain c)) [
  | inl e ↦ ground (arith, e, url_decode-itself c rest (begins-plain c e))
  | inr e ↦ ground (arith, e, hex_byte-to_hex c h, url_decode-plus rest)
]

-- A text comes back from its encoding.
pub url_decode-url_encode : (cs : List ℕ) → AllBytes cs → url_decode (url_encode cs) ≡ some cs
unfolding url_encode url_decode
url_decode-url_encode [] h = refl
url_decode-url_encode (c ∷ cs) h =
    url_decode-encode_byte c (url_encode cs) h.0 ∙ ap (then_byte c) (url_decode-url_encode cs h.1)

-- A byte that may stand in a query: letters, digits and `-_.~+%`.
unfoldable pub is_safe : ℕ → Bool
is_safe c = is_plain c || c == 43 || c == 37

abbrev pub AllSafe : List ℕ → Type 0
AllSafe [] = Unit {0}
AllSafe (c ∷ cs) = (is_safe c ≡ true) × AllSafe cs

to_hex-safe : (x : ℕ) → x < 16 → is_safe (to_hex x) ≡ true
unfolding is_safe to_hex is_plain isalnum
to_hex-safe x h = ground arith

append-AllSafe : (xs ys : List ℕ) → AllSafe xs → AllSafe ys → AllSafe (xs ++ ys)
append-AllSafe [] ys h k = k
append-AllSafe (x ∷ xs) ys h k = (h.0, append-AllSafe xs ys h.1 k)

encode_byte-AllSafe : (c : ℕ) → c < 256 → AllSafe (encode_byte c)
unfolding encode_byte is_safe
encode_byte-AllSafe c h =
    let high = to_hex-safe (c / 16) (omega arith) in
    let low = to_hex-safe (c % 16) (omega arith) in ground (arith, high, low)

-- No byte of an encoding separates the parts of a query.
pub url_encode-AllSafe : (cs : List ℕ) → AllBytes cs → AllSafe (url_encode cs)
unfolding url_encode
url_encode-AllSafe [] h = tt
url_encode-AllSafe (c ∷ cs) h =
    append-AllSafe (encode_byte c) (url_encode cs) (encode_byte-AllSafe c h.0)
      (url_encode-AllSafe cs h.1)
