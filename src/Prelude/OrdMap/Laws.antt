-- ===== src/Prelude/OrdMap/Laws.antt =====
-- Laws of the ordered map: what `find` gives after each operation, and the order of the keys.
use mathlib.Core.Option.{get_or}
use bili_user_spider.Prelude.{
  ◌≡◌, refl, [], ◌∷◌, none, some, Bool, arith, if◌then◌else◌, ℤ, ◌==ℤ◌, ◌<ℤ◌, ◌≤ℤ◌,
}
use bili_user_spider.Prelude.OrdMap.{
  OrdMap, find, emplace, erase, assign, erase_if, AllAbove, AllBelow, IsOrdered,
}

module _ {ℓ} {V : Type ℓ} where
  AllAbove-mono : (a b : ℤ) (m : OrdMap V) → a ≤ℤ b → AllAbove b m → AllAbove a m
  AllAbove-mono a b [] h o = tt
  AllAbove-mono a b ((j, w) ∷ m) h o = (omega arith, AllAbove-mono a b m h o.1)

  pub find-AllAbove : (k lo : ℤ) (m : OrdMap V) → k ≤ℤ lo → AllAbove lo m → find k m ≡ none
  unfolding find
  find-AllAbove k lo [] h o = refl
  find-AllAbove k lo ((j, w) ∷ m) h o = ground (arith, find-AllAbove k lo m h o.1)

  pub find-AllBelow : (k hi : ℤ) (m : OrdMap V) → hi ≤ℤ k → AllBelow hi m → find k m ≡ none
  unfolding find
  find-AllBelow k hi [] h o = refl
  find-AllBelow k hi ((j, w) ∷ m) h o = ground (arith, find-AllBelow k hi m h o.1)

  pub AllBelow-mono : (a b : ℤ) (m : OrdMap V) → a ≤ℤ b → AllBelow a m → AllBelow b m
  AllBelow-mono a b [] h o = tt
  AllBelow-mono a b ((j, w) ∷ m) h o = (omega arith, AllBelow-mono a b m h o.1)

  emplace-AllAbove :
      (lo k : ℤ) (v : V) (m : OrdMap V) → lo <ℤ k → AllAbove lo m → AllAbove lo (emplace k v m)
  unfolding emplace
  emplace-AllAbove lo k v [] h o = (h, tt)
  emplace-AllAbove lo k v ((j, w) ∷ m) h o = ground (arith, emplace-AllAbove lo k v m h o.1)

  pub emplace-AllBelow :
      (hi k : ℤ) (v : V) (m : OrdMap V) → k <ℤ hi → AllBelow hi m → AllBelow hi (emplace k v m)
  unfolding emplace
  emplace-AllBelow hi k v [] h o = (h, tt)
  emplace-AllBelow hi k v ((j, w) ∷ m) h o = ground (arith, emplace-AllBelow hi k v m h o.1)

  pub emplace-IsOrdered : (k : ℤ) (v : V) (m : OrdMap V) → IsOrdered m → IsOrdered (emplace k v m)
  unfolding emplace
  emplace-IsOrdered k v [] o = (tt, tt)
  emplace-IsOrdered k v ((j, w) ∷ m) o =
      ground (arith, AllAbove-mono k j m, emplace-AllAbove j k v m, emplace-IsOrdered k v m o.1)

  erase-AllAbove : (lo k : ℤ) (m : OrdMap V) → AllAbove lo m → AllAbove lo (erase k m)
  unfolding erase
  erase-AllAbove lo k [] o = tt
  erase-AllAbove lo k ((j, w) ∷ m) o = ground (arith, erase-AllAbove lo k m o.1)

  pub erase-AllBelow : (hi k : ℤ) (m : OrdMap V) → AllBelow hi m → AllBelow hi (erase k m)
  unfolding erase
  erase-AllBelow hi k [] o = tt
  erase-AllBelow hi k ((j, w) ∷ m) o = ground (arith, erase-AllBelow hi k m o.1)

  pub erase-IsOrdered : (k : ℤ) (m : OrdMap V) → IsOrdered m → IsOrdered (erase k m)
  unfolding erase
  erase-IsOrdered k [] o = tt
  erase-IsOrdered k ((j, w) ∷ m) o =
      ground (arith, erase-AllAbove j k m o.0, erase-IsOrdered k m o.1)

  erase_if-AllAbove :
      (p : V → Bool) (lo : ℤ) (m : OrdMap V) → AllAbove lo m → AllAbove lo (erase_if p m)
  unfolding erase_if
  erase_if-AllAbove p lo [] o = tt
  erase_if-AllAbove p lo ((j, w) ∷ m) o = ground (arith, erase_if-AllAbove p lo m o.1)

  pub erase_if-AllBelow :
      (p : V → Bool) (hi : ℤ) (m : OrdMap V) → AllBelow hi m → AllBelow hi (erase_if p m)
  unfolding erase_if
  erase_if-AllBelow p hi [] o = tt
  erase_if-AllBelow p hi ((j, w) ∷ m) o = ground (arith, erase_if-AllBelow p hi m o.1)

  pub erase_if-IsOrdered : (p : V → Bool) (m : OrdMap V) → IsOrdered m → IsOrdered (erase_if p m)
  unfolding erase_if
  erase_if-IsOrdered p [] o = tt
  erase_if-IsOrdered p ((j, w) ∷ m) o =
      ground (arith, erase_if-AllAbove p j m o.0, erase_if-IsOrdered p m o.1)

  assign-AllAbove : (lo k : ℤ) (v : V) (m : OrdMap V) → AllAbove lo m → AllAbove lo (assign k v m)
  unfolding assign
  assign-AllAbove lo k v [] o = tt
  assign-AllAbove lo k v ((j, w) ∷ m) o = ground (arith, assign-AllAbove lo k v m o.1)

  pub assign-AllBelow :
      (hi k : ℤ) (v : V) (m : OrdMap V) → AllBelow hi m → AllBelow hi (assign k v m)
  unfolding assign
  assign-AllBelow hi k v [] o = tt
  assign-AllBelow hi k v ((j, w) ∷ m) o = ground (arith, assign-AllBelow hi k v m o.1)

  pub assign-IsOrdered : (k : ℤ) (v : V) (m : OrdMap V) → IsOrdered m → IsOrdered (assign k v m)
  unfolding assign
  assign-IsOrdered k v [] o = tt
  assign-IsOrdered k v ((j, w) ∷ m) o =
      ground (arith, assign-AllAbove j k v m o.0, assign-IsOrdered k v m o.1)

-- What is found afterwards.
module _ {V : Type 0} where
  pub find-emplace :
      (k j : ℤ) (v : V) (m : OrdMap V)
      → IsOrdered m
      → find j (emplace k v m) ≡ (if j ==ℤ k then some (get_or (find k m) v) else find j m)
  unfolding find emplace
  find-emplace k j v [] o = ground arith
  find-emplace k j v ((i, w) ∷ m) o = ground (arith, find-AllAbove k i m, find-emplace k j v m o.1)

  pub find-erase :
      (k j : ℤ) (m : OrdMap V)
      → IsOrdered m
      → find j (erase k m) ≡ (if j ==ℤ k then none else find j m)
  unfolding find erase
  find-erase k j [] o = ground arith
  find-erase k j ((i, w) ∷ m) o = ground (arith, find-AllAbove j i m, find-erase k j m o.1)

  pub find-erase_if :
      (p : V → Bool) (k : ℤ) (m : OrdMap V)
      → IsOrdered m
      → find k (erase_if p m)
        ≡ elim (find k m) [ none ↦ none | some v ↦ if p v then none else some v ]
  unfolding find erase_if
  find-erase_if p k [] o = refl
  find-erase_if p k ((i, w) ∷ m) o = ground (
    arith,
    find-AllAbove k i m,
    find-AllAbove k i (erase_if p m),
    erase_if-AllAbove p i m o.0,
    find-erase_if p k m o.1,
  )

  pub find-assign :
      (k j : ℤ) (v : V) (m : OrdMap V)
      → find j (assign k v m)
        ≡ (if j ==ℤ k then elim (find k m) [ none ↦ none | some _ ↦ some v ] else find j m)
  unfolding find assign
  find-assign k j v [] = ground arith
  find-assign k j v ((i, w) ∷ m) = ground (arith, find-assign k j v m)
