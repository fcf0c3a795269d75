-- ===== src/Server/Util/UrlCode.antt =====
-- `urlEncode` and `urlDecode` of BiliUserSpiderServer/src/util/url_code.cpp, on bytes. `isalnum` is
-- the one of the C locale.
pub mod Laws
use bili_user_spider.Prelude.{
  ℕ, ◌+◌, ◌-◌, ◌*◌, ◌/◌, ◌%◌, List, [], ◌∷◌, ◌++◌, Option, none, some, Bool, true, false, ◌&&◌,
  ◌||◌, if◌then◌else◌, leb, ltb, ◌==◌,
}

unfoldable pub to_hex : ℕ → ℕ
to_hex x = if ltb 9 x then (x + 55) % 256 else (x + 48) % 256

-- `none` where the assertion fails. Every letter is accepted.
unfoldable pub from_hex : ℕ → Option ℕ
from_hex x =
    if leb 65 x && leb x 90
    then some (x - 65 + 10)
    else if leb 97 x && leb x 122
    then some (x - 97 + 10)
    else if leb 48 x && leb x 57
    then some (x - 48)
    else none

unfoldable pub isalnum : ℕ → Bool
isalnum c = leb 48 c && leb c 57 || leb 65 c && leb c 90 || leb 97 c && leb c 122

-- A byte that stands for itself: also `-`, `_`, `.` and `~`.
unfoldable pub is_plain : ℕ → Bool
is_plain c = isalnum c || c == 45 || c == 95 || c == 46 || c == 126

unfoldable pub encode_byte : ℕ → List ℕ
encode_byte c =
    if is_plain c
    then c ∷ []
    else if c == 32
    then 43 ∷ []
    else 37 ∷ to_hex (c / 16) ∷ to_hex (c % 16) ∷ []

unfoldable pub url_encode : List ℕ → List ℕ
url_encode [] = []
url_encode (c ∷ cs) = encode_byte c ++ url_encode cs

-- What a byte of an encoded text begins.
pub data Begins : Type 0 where
  plus percent itself : Begins

unfoldable pub begins : ℕ → Begins
begins c = if c == 43 then plus else if c == 37 then percent else itself

unfoldable pub hex_byte : ℕ → ℕ → Option ℕ
hex_byte high low = elim (from_hex high) [
  | none ↦ none
  | some h ↦ elim (from_hex low) [ none ↦ none | some l ↦ some ((h * 16 + l) % 256) ]
]

abbrev pub then_byte : ℕ → Option (List ℕ) → Option (List ℕ)
then_byte c none = none
then_byte c (some cs) = some (c ∷ cs)

-- `none` where an assertion fails.
unfoldable pub url_decode : List ℕ → Option (List ℕ)
url_decode [] = some []
url_decode (c ∷ []) = elim (begins c) [
  | plus ↦ some (32 ∷ [])
  | itself ↦ some (c ∷ [])
  | percent ↦ none
]
url_decode (c ∷ h ∷ []) = elim (begins c) [
  | plus ↦ then_byte 32 (url_decode (h ∷ []))
  | itself ↦ then_byte c (url_decode (h ∷ []))
  | percent ↦ none
]
url_decode (c ∷ h ∷ l ∷ rest) = elim (begins c) [
  | plus ↦ then_byte 32 (url_decode (h ∷ l ∷ rest))
  | itself ↦ then_byte c (url_decode (h ∷ l ∷ rest))
  | percent ↦ elim (hex_byte h l) [ none ↦ none | some b ↦ then_byte b (url_decode rest) ]
]
