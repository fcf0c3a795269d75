-- ===== src/Sql/Laws.antt =====
-- How long the texts are, and that the digits are those of the number.
use bili_user_spider.Prelude.{
  ℕ, zero, suc, ◌+◌, ◌*◌, ◌-◌, ◌/◌, ◌%◌, ◌≤◌, ◌<◌, ◌≡◌, refl, List, [], ◌∷◌, ◌++◌, arith, ℤ, pos,
  negsuc, length, length-append,
}
use bili_user_spider.Sql.{digits, show_u, show_d, concat, close, statement}

ten_to : ℕ → ℕ
ten_to zero = 1
ten_to (suc k) = 10 * ten_to k

-- What a text of digits says, behind `acc`.
unfoldable value : ℕ → List ℕ → ℕ
value acc [] = acc
value acc (c ∷ cs) = value (acc * 10 + (c - 48)) cs

value-append : (acc : ℕ) (cs ds : List ℕ) → value acc (cs ++ ds) ≡ value (value acc cs) ds
unfolding value
value-append acc [] ds = refl
value-append acc (c ∷ cs) ds = value-append (acc * 10 + (c - 48)) cs ds

-- The digits are those of the number, where it has no more than there are.
digits-value : (k n : ℕ) → n < ten_to (suc k) → value 0 (digits (suc k) n) ≡ n
unfolding value digits ten_to
digits-value zero n h = ground arith
digits-value (suc k) n h = ground (
  arith,
  digits-value k (n / 10) (omega arith),
  value-append 0 (digits (suc k) (n / 10)) ((n % 10 + 48) ∷ []),
)

length-digits : (k n : ℕ) → length (digits k n) ≤ k
unfolding digits
length-digits zero n = omega arith
length-digits (suc k) n =
    ground (arith, length-digits k (n / 10), length-append (digits k (n / 10)) ((n % 10 + 48) ∷ []))

pub length-show_u : (a : ℤ) → length (show_u a) ≤ 10
unfolding show_u
length-show_u (pos n) = length-digits 10 _
length-show_u (negsuc n) = length-digits 10 _

pub length-show_d : (a : ℤ) → length (show_d a) ≤ 11
unfolding show_d
length-show_d (pos n) = omega (arith, length-digits 10 n)
length-show_d (negsuc n) = omega (arith, length-digits 10 (suc n))

length-close : (cs : List ℕ) → 1 ≤ length cs → length (close cs) ≡ length cs + 1
unfolding close
length-close [] h = absurd (omega arith)
length-close (c ∷ []) h = refl
length-close (c ∷ d ∷ cs) h = omega (arith, length-close (d ∷ cs) (omega arith))

-- Rows that have at most `n` bytes each.
abbrev pub AllAtMost : ℕ → List (List ℕ) → Type 0
AllAtMost n [] = Unit {0}
AllAtMost n (r ∷ rs) = (length r ≤ n) × AllAtMost n rs

length-concat : (n : ℕ) (rs : List (List ℕ)) → AllAtMost n rs → length (concat rs) ≤ n * length rs
unfolding concat
length-concat n [] h = omega arith
length-concat n (r ∷ rs) h = grind (arith, length-concat n rs h.1, length-append r (concat rs))

-- The bytes that a statement takes in its buffer.
pub length-statement :
    (n : ℕ) (start : List ℕ) (rows : List (List ℕ))
    → 1 ≤ length start
    → AllAtMost n rows
    → length (statement start rows) ≤ length start + n * length rows + 1
unfolding statement
length-statement n start rows h k = omega (
  arith,
  length-close (start ++ concat rows) (omega (arith, length-append start (concat rows))),
  length-append start (concat rows),
  length-concat n rows k,
)

abbrev pub total : List (List ℕ) → ℕ
total [] = 0
total (p ∷ ps) = length p + total ps

pub length-concat_total : (ps : List (List ℕ)) → length (concat ps) ≡ total ps
unfolding concat
length-concat_total [] = refl
length-concat_total (p ∷ ps) = omega (arith, length-append p (concat ps), length-concat_total ps)
