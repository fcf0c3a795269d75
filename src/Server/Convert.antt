-- ===== src/Server/Convert.antt =====
-- `util::convert<int>` of BiliUserSpiderServer/src/util/string_utils.h: the stream extraction of an
-- `int` skips white space, takes a sign and the digits that follow, ignores the rest, and fails
-- where there is no digit or the value does not fit 32 bits.
use Prim.Native.Char.{code}
use bili_user_spider.Prelude.{
  ℕ, ◌+◌, ◌-◌, ◌*◌, ◌^◌, List, [], ◌∷◌, Option, none, some, Bool, ◌&&◌, ◌||◌, if◌then◌else◌, leb,
  ◌==◌, String, ℤ, pos, ◌-ℤ◌,
}

-- The bytes of an ASCII text.
unfoldable pub codes : String → List ℕ
codes String.[] = []
codes (String.◌∷◌ c s) = code c ∷ codes s

unfoldable pub is_space : ℕ → Bool
is_space c = c == 32 || (leb 9 c && leb c 13)

unfoldable pub is_digit : ℕ → Bool
is_digit c = leb b'0' c && leb c b'9'

unfoldable pub skip_space : List ℕ → List ℕ
skip_space [] = []
skip_space (c ∷ cs) = if is_space c then skip_space cs else c ∷ cs

-- The value of the leading digits, after those read so far.
unfoldable pub digits : ℕ → List ℕ → ℕ
digits acc [] = acc
digits acc (c ∷ cs) =
    let rest = digits (acc * 10 + (c - b'0')) cs in if is_digit c then rest else acc

unfoldable pub unsigned : List ℕ → Option ℕ
unsigned [] = none
unsigned (c ∷ cs) = if is_digit c then some (digits 0 (c ∷ cs)) else none

-- `limit` is the largest magnitude that fits.
unfoldable pub fits : ℕ → Option ℕ → Option ℕ
fits limit none = none
fits limit (some n) = if leb n limit then some n else none

unfoldable pub signed : List ℕ → Option ℤ
signed [] = none
signed (c ∷ cs) =
    if c == b'-'
    then elim (fits (2 ^ 31) (unsigned cs)) [ none ↦ none | some n ↦ some (pos 0 -ℤ pos n) ]
    else elim (fits (2 ^ 31 - 1) (unsigned (if c == b'+' then cs else c ∷ cs))) [
      | none ↦ none
      | some n ↦ some (pos n)
    ]

unfoldable pub convert : String → Option ℤ
convert s = signed (skip_space (codes s))
