-- ===== src/Prelude/Ranges.antt =====
-- Ranges of user ids, from the first to the one behind the last, and occurrences in lists.
use bili_user_spider.Prelude.{
  ℕ, ◌+◌, ◌≡◌, List, [], ◌∷◌, ◌++◌, arith, if◌then◌else◌, ℤ, ltb_ℤ, leb_ℤ, ◌==ℤ◌, ◌≤ℤ◌,
}

-- 1 if the id lies in the range, else 0.
unfoldable pub inside : ℤ → ℤ × ℤ → ℕ
inside m (start, end) = if leb_ℤ start m then (if ltb_ℤ m end then 1 else 0) else 0

-- A range cut in two.
pub inside_split :
    (m a b c : ℤ) → a ≤ℤ b → b ≤ℤ c → inside m (a, b) + inside m (b, c) ≡ inside m (a, c)
unfolding inside
inside_split m a b c h k = ground arith

pub inside_empty : (m a b : ℤ) → b ≤ℤ a → inside m (a, b) ≡ 0
unfolding inside
inside_empty m a b h = ground arith

-- How often an id stands in a list.
unfoldable pub occurrences : ℤ → List ℤ → ℕ
occurrences m [] = 0
occurrences m (x ∷ xs) = (if m ==ℤ x then 1 else 0) + occurrences m xs

pub occurrences-append :
    (m : ℤ) (xs ys : List ℤ) → occurrences m (xs ++ ys) ≡ occurrences m xs + occurrences m ys
unfolding occurrences
occurrences-append m [] ys = omega arith
occurrences-append m (x ∷ xs) ys = omega (arith, occurrences-append m xs ys)
