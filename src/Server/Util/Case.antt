-- ===== src/Server/Util/Case.antt =====
-- `toupper`, `tolower` and `trim` of BiliUserSpiderServer/src/util/string_utils.cpp, on bytes.
use bili_user_spider.Prelude.{
  ℕ, ◌+◌, ◌-◌, ◌≡◌, refl, List, [], ◌∷◌, ◌&&◌, arith, if◌then◌else◌, leb, ◌==◌,
}

unfoldable pub upper : ℕ → ℕ
upper c = if leb 97 c && leb c 122 then c - 32 else c

unfoldable pub lower : ℕ → ℕ
lower c = if leb 65 c && leb c 90 then c + 32 else c

unfoldable pub toupper : List ℕ → List ℕ
toupper [] = []
toupper (c ∷ cs) = upper c ∷ toupper cs

unfoldable pub tolower : List ℕ → List ℕ
tolower [] = []
tolower (c ∷ cs) = lower c ∷ tolower cs

-- Neither loses what the other keeps: two texts that are equal in the one case are equal in the
-- other.
pub toupper-tolower : (cs : List ℕ) → toupper (tolower cs) ≡ toupper cs
unfolding toupper tolower upper lower
toupper-tolower [] = refl
toupper-tolower (c ∷ cs) = ground (arith, toupper-tolower cs)

-- The spaces at the end go.
unfoldable pub trim_end : List ℕ → List ℕ
trim_end [] = []
trim_end (c ∷ cs) = elim (trim_end cs) [ [] ↦ if c == 32 then [] else c ∷ [] | d ∷ ds ↦ c ∷ d ∷ ds ]

unfoldable pub trim_start : List ℕ → List ℕ
trim_start [] = []
trim_start (c ∷ cs) = if c == 32 then trim_start cs else c ∷ cs

unfoldable pub trim : List ℕ → List ℕ
trim cs = trim_start (trim_end cs)
