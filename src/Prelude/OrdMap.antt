-- ===== src/Prelude/OrdMap.antt =====
-- `std::map<int, V>`: entries in ascending order of their keys, which is the order of iteration.
pub mod Laws
use bili_user_spider.Prelude.{
  List, [], ◌∷◌, Option, none, some, Bool, if◌then◌else◌, ℤ, ltb_ℤ, ◌==ℤ◌, ◌<ℤ◌,
}

abbrev pub OrdMap {ℓ} : Type ℓ → Type ℓ
OrdMap V = List (ℤ × V)

module _ {ℓ} {V : Type ℓ} where
  -- `it = m.find(k)`, `none` for `m.end()`.
  unfoldable pub find : ℤ → OrdMap V → Option V
  find k [] = none
  find k ((j, v) ∷ m) = if k ==ℤ j then some v else find k m

  -- `m.emplace(k, v)`: an entry that is there stays.
  unfoldable pub emplace : ℤ → V → OrdMap V → OrdMap V
  emplace k v [] = (k, v) ∷ []
  emplace k v ((j, w) ∷ m) =
      if ltb_ℤ k j
      then (k, v) ∷ (j, w) ∷ m
      else (if k ==ℤ j then (j, w) ∷ m else (j, w) ∷ emplace k v m)

  -- `m.erase(it)` at the entry of `k`.
  unfoldable pub erase : ℤ → OrdMap V → OrdMap V
  erase k [] = []
  erase k ((j, w) ∷ m) = if k ==ℤ j then m else (j, w) ∷ erase k m

  -- `it->second = v` at the entry of `k`.
  unfoldable pub assign : ℤ → V → OrdMap V → OrdMap V
  assign k v [] = []
  assign k v ((j, w) ∷ m) = if k ==ℤ j then (j, v) ∷ m else (j, w) ∷ assign k v m

  -- The loop that erases every entry whose value has a property.
  unfoldable pub erase_if : (V → Bool) → OrdMap V → OrdMap V
  erase_if p [] = []
  erase_if p ((k, v) ∷ m) = if p v then erase_if p m else (k, v) ∷ erase_if p m

  abbrev pub AllAbove : ℤ → OrdMap V → Type 0
  AllAbove lo [] = Unit {0}
  AllAbove lo ((j, w) ∷ m) = (lo <ℤ j) × AllAbove lo m

  abbrev pub AllBelow : ℤ → OrdMap V → Type 0
  AllBelow hi [] = Unit {0}
  AllBelow hi ((j, w) ∷ m) = (j <ℤ hi) × AllBelow hi m

  -- Keys ascend, so none stands twice.
  abbrev pub IsOrdered : OrdMap V → Type 0
  IsOrdered [] = Unit {0}
  IsOrdered ((j, w) ∷ m) = AllAbove j m × IsOrdered m
