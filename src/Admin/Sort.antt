-- ===== src/Admin/Sort.antt =====
-- `std::sort` with a comparison. It leaves the order of elements that neither is less open; here
-- they keep their order, and nothing that is stated of a sorted list depends on that.
pub mod Laws
use Prim.Native.Char.{code}
use bili_user_spider.Prelude.{ℕ, List, [], ◌∷◌, Bool, true, false, if◌then◌else◌, String, ltb, ◌==◌}
use bili_user_spider.Server.Convert.{codes}

module _ {ℓ} {A : Type ℓ} (lt : A → A → Bool) where
  unfoldable pub insert : A → List A → List A
  insert a [] = a ∷ []
  insert a (x ∷ xs) = if lt x a then x ∷ insert a xs else a ∷ x ∷ xs

  unfoldable pub sort : List A → List A
  sort [] = []
  sort (x ∷ xs) = insert x (sort xs)

-- `operator<` of two texts, by their characters.
unfoldable pub lt_codes : List ℕ → List ℕ → Bool
lt_codes [] [] = false
lt_codes [] (b ∷ bs) = true
lt_codes (a ∷ as') [] = false
lt_codes (a ∷ as') (b ∷ bs) = if ltb a b then true else if a == b then lt_codes as' bs else false

unfoldable pub lt_text : String → String → Bool
lt_text s t = lt_codes (codes s) (codes t)
