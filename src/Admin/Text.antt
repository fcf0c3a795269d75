-- ===== src/Admin/Text.antt =====
-- formatTimeSpan and replaceAll of Admin/src/util/string_util.cpp; the client's string_util.cpp has
-- the same replaceAll. A text is its bytes.
pub mod Laws
use bili_user_spider.Prelude.{
  ℕ, zero, suc, ◌+◌, ◌/◌, ◌%◌, List, [], ◌∷◌, ◌++◌, Option, none, some, Bool, true, false,
  if◌then◌else◌, ℤ, pos, negsuc, ◌-ℤ◌, ltb_ℤ,
}
use bili_user_spider.Server.Util.Split.{cut}

-- `/` and `%` of C++ by a positive number, which round towards 0.
unfoldable pub quot : ℤ → ℕ → ℤ
quot (pos n) k = pos (n / k)
quot (negsuc n) k = pos 0 -ℤ pos (suc n / k)

unfoldable pub rem : ℤ → ℕ → ℤ
rem (pos n) k = pos (n % k)
rem (negsuc n) k = pos 0 -ℤ pos (suc n % k)

-- A number of the text with its unit, `d`, `h`, `m` or `s`; below ten a `0` stands before it.
pub data TimeUnit : Type 0 where
  days hours minutes seconds : TimeUnit

pub record Part : Type 0 where
  pub has_zero : Bool
  pub number : ℤ
  pub unit : TimeUnit

abbrev pub part : ℤ → TimeUnit → Part
part n u = record { has_zero = ltb_ℤ n (pos 10); number = n; unit = u }

-- A part that is not above 0 is left out.
unfoldable pub shown : ℤ → TimeUnit → List Part → List Part
shown n u ps = if ltb_ℤ (pos 0) n then part n u ∷ ps else ps

unfoldable pub format_time_span : ℤ → List Part
format_time_span t =
    let t' = rem t 86400 in
    let t'' = rem t' 3600 in
    shown (quot t 86400) days
      (shown (quot t' 3600) hours (shown (quot t'' 60) minutes (part (rem t'' 60) seconds ∷ [])))

-- The loop: `done` is the text before `pos`, which is not searched again. `none` stands for a loop
-- that does not end on this fuel.
unfoldable pub replace_from : ℕ → List ℕ → List ℕ → List ℕ → List ℕ → Option (List ℕ)
replace_from zero ori rep done rest = none
replace_from (suc fuel) ori rep done rest = elim (cut ori rest) [
  | none ↦ some (done ++ rest)
  | some (a, b) ↦ replace_from fuel ori rep (done ++ (a ++ rep)) b
]

unfoldable pub replace_all : ℕ → List ℕ → List ℕ → List ℕ → Option (List ℕ)
replace_all fuel ori rep str = replace_from fuel ori rep [] str
