-- ===== src/Client/ProxyManager/Proxies.antt =====
-- `std::map<ic::ProxyData, int, hash_function>`: entries in the order of the comparator.
use bili_user_spider.Prelude.{
  ℕ, ◌≡◌, refl, ◌↔◌, List, [], ◌∷◌, Option, none, some, Bool, true, false, not, ◌&&◌, arith,
  if◌then◌else◌, ltb, ℤ, ltb_ℤ, eq_of_parts,
}

-- Host and port; the host is the bytes of a text.
pub record ProxyData : Type 0 where
  pub host : List ℕ
  pub port : ℤ

abbrev pub Pool : Type 0
Pool = List (ProxyData × ℤ)

-- `<` on texts.
unfoldable pub text_lt : List ℕ → List ℕ → Bool
text_lt xs [] = false
text_lt [] (y ∷ ys) = true
text_lt (x ∷ xs) (y ∷ ys) = if ltb x y then true else if ltb y x then false else text_lt xs ys

-- `hash_function::operator()`.
unfoldable pub less : ProxyData → ProxyData → Bool
less p q =
    if text_lt p.host q.host
    then true
    else if text_lt q.host p.host
    then false
    else ltb_ℤ p.port q.port

-- The keys that the map takes for one.
unfoldable pub equivalent : ProxyData → ProxyData → Bool
unfolding less
equivalent p q = not (less p q) && not (less q p)

unfoldable pub find : ProxyData → Pool → Option ℤ
find p [] = none
find p ((q, n) ∷ m) = if equivalent p q then some n else find p m

unfoldable pub insert : ProxyData → ℤ → Pool → Pool
insert p n [] = (p, n) ∷ []
insert p n ((q, k) ∷ m) = if less p q then (p, n) ∷ (q, k) ∷ m else (q, k) ∷ insert p n m

unfoldable pub emplace : ProxyData → ℤ → Pool → Pool
emplace p n m = elim (find p m) [ none ↦ insert p n m | some _ ↦ m ]

unfoldable pub erase : ProxyData → Pool → Pool
erase p [] = []
erase p ((q, n) ∷ m) = if equivalent p q then m else (q, n) ∷ erase p m

unfoldable pub assign : ProxyData → ℤ → Pool → Pool
assign p n [] = []
assign p n ((q, k) ∷ m) = if equivalent p q then (q, n) ∷ m else (q, k) ∷ assign p n m

text_lt_irrefl : (xs : List ℕ) → text_lt xs xs ≡ false
unfolding text_lt
text_lt_irrefl [] = refl
text_lt_irrefl (x ∷ xs) = ground (arith, text_lt_irrefl xs)

text_lt_total : (xs ys : List ℕ) → text_lt xs ys ≡ false → text_lt ys xs ≡ false → xs ≡ ys
unfolding text_lt
text_lt_total [] [] h k = refl
text_lt_total [] (y ∷ ys) h k = absurd (ground arith)
text_lt_total (x ∷ xs) [] h k = absurd (ground arith)
text_lt_total (x ∷ xs) (y ∷ ys) h k = ground (arith, text_lt_total xs ys)

-- The map takes two proxies for one exactly if host and port are the same.
pub equivalent_iff : (p q : ProxyData) → (equivalent p q ≡ true) ↔ (p ≡ q)
unfolding equivalent
equivalent_iff p q =
    ground (arith, text_lt_irrefl p.host, text_lt_total p.host q.host, eq_of_parts p.port q.port)

pub find-insert :
    (p q : ProxyData) (n : ℤ) (m : Pool)
    → find p m ≡ none
    → find q (insert p n m) ≡ (if equivalent q p then some n else find q m)
unfolding find insert
find-insert p q n [] h = refl
find-insert p q n ((r, k) ∷ m) h =
    ground (arith, find-insert p q n m, equivalent_iff q p, equivalent_iff q r, equivalent_iff p r)

pub find-emplace :
    (p q : ProxyData) (n : ℤ) (m : Pool)
    → find q (emplace p n m)
      ≡ (if equivalent q p then elim (find p m) [ none ↦ some n | some k ↦ some k ] else find q m)
unfolding emplace
find-emplace p q n m = ground (arith, find-insert p q n m, equivalent_iff q p)

pub find-assign :
    (p q : ProxyData) (n : ℤ) (m : Pool)
    → find q (assign p n m)
      ≡ (if equivalent q p then elim (find p m) [ none ↦ none | some _ ↦ some n ] else find q m)
unfolding find assign
find-assign p q n [] = ground arith
find-assign p q n ((r, k) ∷ m) =
    ground (arith, find-assign p q n m, equivalent_iff q p, equivalent_iff q r, equivalent_iff p r)

pub find-erase :
    (p q : ProxyData) (m : Pool) → equivalent q p ≡ false → find q (erase p m) ≡ find q m
unfolding find erase
find-erase p q [] h = refl
find-erase p q ((r, k) ∷ m) h =
    ground (arith, find-erase p q m h, equivalent_iff q p, equivalent_iff q r, equivalent_iff p r)
