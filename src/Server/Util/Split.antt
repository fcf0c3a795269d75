-- ===== src/Server/Util/Split.antt =====
-- `split` of BiliUserSpiderServer/src/util/string_utils.h for a vector of texts, and `isdigit` and
-- `isalnum` of string_utils.cpp, on bytes. The vector that is given is empty.
pub mod Laws
use bili_user_spider.Prelude.{
  ℕ, zero, suc, ◌+◌, ◌<◌, ◌≡◌, refl, List, [], ◌∷◌, ◌++◌, Option, none, some, Bool, true, false,
  ◌&&◌, ◌||◌, arith, if◌then◌else◌, leb, ◌==◌, length, Option-cases, inl, inr,
}

-- What follows a prefix.
unfoldable pub strip : List ℕ → List ℕ → Option (List ℕ)
strip [] cs = some cs
strip (s ∷ ss) [] = none
strip (s ∷ ss) (c ∷ cs) = if s == c then strip ss cs else none

-- `find` with the two `substr`: what is before the first `sep` and what is after it.
unfoldable pub cut : List ℕ → List ℕ → Option (List ℕ × List ℕ)
cut sep [] = elim (strip sep []) [ none ↦ none | some rest ↦ some ([], rest) ]
cut sep (c ∷ cs) =
    let later = cut sep cs in
    elim (strip sep (c ∷ cs)) [
      | none ↦ elim later [ none ↦ none | some (a, b) ↦ some (c ∷ a, b) ]
      | some rest ↦ some ([], rest)
    ]

-- The loop. `none` stands for one that does not end on this fuel.
unfoldable pub pieces : ℕ → List ℕ → List ℕ → Option (List (List ℕ))
pieces zero sep cs = none
pieces (suc fuel) sep cs = elim (cut sep cs) [
  | none ↦ some (cs ∷ [])
  | some (a, b) ↦ elim (pieces fuel sep b) [ none ↦ none | some ps ↦ some (a ∷ ps) ]
]

unfoldable pub split : ℕ → List ℕ → List ℕ → Option (List (List ℕ))
split fuel sep [] = some ([] ∷ [])
split fuel sep (c ∷ cs) = pieces fuel sep (c ∷ cs)

unfoldable pub is_digit : ℕ → Bool
is_digit c = leb 48 c && leb c 57

unfoldable pub isdigit : List ℕ → Bool
isdigit [] = true
isdigit (c ∷ cs) = if is_digit c then isdigit cs else false

unfoldable pub is_alnum : ℕ → Bool
is_alnum c = is_digit c || leb 97 c && leb c 122 || leb 65 c && leb c 90

unfoldable pub isalnum : List ℕ → Bool
isalnum [] = true
isalnum (c ∷ cs) = if is_alnum c then isalnum cs else false
