-- ===== src/Sql.antt =====
-- The texts of the SQL statements, as `sprintf` puts them into a buffer: of
-- BiliUserSpiderServer/src/manager/proxy_manager.cpp and
-- BiliUserSpiderClient/src/manager/task_manager.cpp. A text is its bytes, and one byte behind them, 0,
-- ends it in the buffer. An `int` has 32 bits.
pub mod Laws
use Prim.Native.Char.{code}
use bili_user_spider.Prelude.{
  ℕ, zero, suc, ◌+◌, ◌-◌, ◌/◌, ◌%◌, ◌^◌, List, [], ◌∷◌, ◌++◌, if◌then◌else◌, ltb, String, ℤ, pos,
  negsuc,
}

-- The bytes of a text, each of which is a character of `String`.
unfoldable pub codes : String → List ℕ
codes String.[] = []
codes (String.◌∷◌ c s) = code c ∷ codes s

-- The decimal digits of a number that has at most so many.
unfoldable pub digits : ℕ → ℕ → List ℕ
digits zero n = []
digits (suc k) n =
    let higher = digits k (n / 10) in
    if ltb n 10 then (n + 48) ∷ [] else higher ++ (n % 10 + 48) ∷ []

-- `%u` and `%d`. An `int` that is printed by `%u` is taken modulo 2^32.
unfoldable pub show_u : ℤ → List ℕ
show_u (pos n) = digits 10 (n % 2 ^ 32)
show_u (negsuc n) = digits 10 (2 ^ 32 - 1 - n % 2 ^ 32)

unfoldable pub show_d : ℤ → List ℕ
show_d (pos n) = digits 10 n
show_d (negsuc n) = b'-' ∷ digits 10 (suc n)

-- One text behind the other.
unfoldable pub concat : List (List ℕ) → List ℕ
concat [] = []
concat (p ∷ ps) = p ++ concat ps

-- `*(end-1) = ';'; *end = '\0';`
unfoldable pub close : List ℕ → List ℕ
close [] = 0 ∷ []
close (c ∷ []) = b';' ∷ 0 ∷ []
close (c ∷ d ∷ cs) = c ∷ close (d ∷ cs)

-- A statement that ends in rows, each one with a comma behind it.
unfoldable pub statement : List ℕ → List (List ℕ) → List ℕ
statement start rows = close (start ++ concat rows)
