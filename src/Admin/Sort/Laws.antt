-- ===== src/Admin/Sort/Laws.antt =====
-- A sorted list has the same elements, and none is less than the one before it.
use mathlib.Core.List.Perm
use mathlib.Core.List.{Perm}
use bili_user_spider.Prelude.{
  ℕ, List, [], ◌∷◌, ◌≡◌, refl, Bool, true, false, String, ℤ, ltb_ℤ, arith, Bool-cases, inl, inr,
}
use bili_user_spider.Server.Convert.{codes}
use bili_user_spider.Admin.Sort.{insert, sort, lt_codes, lt_text}

-- What `std::sort` asks of a comparison.
pub record IsStrictWeak {ℓ} {A : Type ℓ} (lt : A → A → Bool) : Type ℓ where
  pub irrefl : (a : A) → lt a a ≡ false
  pub trans : (a b c : A) → lt a b ≡ true → lt b c ≡ true → lt a c ≡ true
  pub equiv :
      (a b c : A)
      → lt a b ≡ false
      → lt b a ≡ false
      → lt b c ≡ false
      → lt c b ≡ false
      → (lt a c ≡ false) × (lt c a ≡ false)

module _ {ℓ} {A : Type ℓ} (lt : A → A → Bool) where
  -- None is less than the one before it.
  abbrev pub IsSorted : List A → Type 0
  IsSorted [] = Unit {0}
  IsSorted (x ∷ []) = Unit {0}
  IsSorted (x ∷ y ∷ ys) = (lt y x ≡ false) × IsSorted (y ∷ ys)

  insert-perm : (a : A) (xs : List A) → Perm (insert lt a xs) (a ∷ xs)
  unfolding insert
  insert-perm a [] = Perm.refl (a ∷ [])
  insert-perm a (x ∷ xs) = elim (Bool-cases (lt x a)) [
    | inl e ↦ rw e (Perm.trans (Perm.cons x (insert-perm a xs)) (Perm.swap a x xs))
    | inr e ↦ rw e (Perm.refl (a ∷ x ∷ xs))
  ]

  pub sort-perm : (xs : List A) → Perm (sort lt xs) xs
  unfolding sort
  sort-perm [] = Perm.refl []
  sort-perm (x ∷ xs) = Perm.trans (insert-perm x (sort lt xs)) (Perm.cons x (sort-perm xs))

  module _ (weak : IsStrictWeak lt) where
    not_both : (a b : A) → lt a b ≡ true → lt b a ≡ false
    not_both a b h = ground (arith, weak.trans a b a, weak.irrefl a)

    insert_behind :
        (a x : A) (xs : List A)
        → lt x a ≡ true
        → IsSorted (x ∷ xs)
        → IsSorted (insert lt a xs)
        → IsSorted (x ∷ insert lt a xs)
    unfolding insert
    insert_behind a x [] h s t = (not_both x a h, tt)
    insert_behind a x (y ∷ ys) h s t = elim (Bool-cases (lt y a)) [
      | inl e ↦ ground (arith, e)
      | inr e ↦ ground (arith, e, not_both x a h)
    ]

    tail-IsSorted : (x : A) (xs : List A) → IsSorted (x ∷ xs) → IsSorted xs
    tail-IsSorted x [] s = tt
    tail-IsSorted x (y ∷ ys) s = s.1

    insert-IsSorted : (a : A) (xs : List A) → IsSorted xs → IsSorted (insert lt a xs)
    unfolding insert
    insert-IsSorted a [] s = tt
    insert-IsSorted a (x ∷ xs) s = elim (Bool-cases (lt x a)) [
      | inl e ↦ rw e (insert_behind a x xs e s (insert-IsSorted a xs (tail-IsSorted x xs s)))
      | inr e ↦ rw e (e, s)
    ]

    pub sort-IsSorted : (xs : List A) → IsSorted (sort lt xs)
    unfolding sort
    sort-IsSorted [] = tt
    sort-IsSorted (x ∷ xs) = insert-IsSorted x (sort lt xs) (sort-IsSorted xs)

-- Numbers by their order, and texts by that of their characters, also the other way round.
pub number-IsStrictWeak {ℓ} :
    {A : Type ℓ} (key : A → ℤ) → IsStrictWeak (λ (a b : A). ltb_ℤ (key a) (key b))
number-IsStrictWeak key = record {
  irrefl = λ a. ground arith;
  trans = λ a b c h k. ground arith;
  equiv = λ a b c h k h' k'. ground arith;
}

lt_codes_irrefl : (as' : List ℕ) → lt_codes as' as' ≡ false
unfolding lt_codes
lt_codes_irrefl [] = refl
lt_codes_irrefl (a ∷ as') = ground (arith, lt_codes_irrefl as')

lt_codes_trans :
    (as' bs cs : List ℕ) → lt_codes as' bs ≡ true → lt_codes bs cs ≡ true → lt_codes as' cs ≡ true
unfolding lt_codes
lt_codes_trans [] [] cs h k = k
lt_codes_trans [] (b ∷ bs) [] h k = k
lt_codes_trans [] (b ∷ bs) (c ∷ cs) h k = refl
lt_codes_trans (a ∷ as') [] cs h k = ground arith
lt_codes_trans (a ∷ as') (b ∷ bs) [] h k = k
lt_codes_trans (a ∷ as') (b ∷ bs) (c ∷ cs) h k = ground (arith, lt_codes_trans as' bs cs)

lt_codes_antisym : (as' bs : List ℕ) → lt_codes as' bs ≡ false → lt_codes bs as' ≡ false → as' ≡ bs
unfolding lt_codes
lt_codes_antisym [] [] h k = refl
lt_codes_antisym [] (b ∷ bs) h k = ground arith
lt_codes_antisym (a ∷ as') [] h k = ground arith
lt_codes_antisym (a ∷ as') (b ∷ bs) h k = ground (arith, lt_codes_antisym as' bs)

pub text-IsStrictWeak {ℓ} :
    {A : Type ℓ} (key : A → String) → IsStrictWeak (λ (a b : A). lt_text (key a) (key b))
unfolding lt_text
text-IsStrictWeak key = record {
  irrefl = λ a. lt_codes_irrefl (codes (key a));
  trans = λ a b c. lt_codes_trans (codes (key a)) (codes (key b)) (codes (key c));
  equiv = λ a b c h k h' k'. rw (lt_codes_antisym (codes (key a)) (codes (key b)) h k) (h', k');
}

pub flip-IsStrictWeak {ℓ} :
    {A : Type ℓ} (lt : A → A → Bool) → IsStrictWeak lt → IsStrictWeak (λ (a b : A). lt b a)
flip-IsStrictWeak lt weak = record {
  irrefl = λ a. weak.irrefl a;
  trans = λ a b c h k. weak.trans c b a k h;
  equiv = λ a b c h k h' k'. weak.equiv c b a h' k' h k;
}
