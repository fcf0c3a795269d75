-- ===== src/Server/Util/Split/Laws.antt =====
-- A text comes back from its pieces.
use bili_user_spider.Prelude.{
  ℕ, zero, suc, ◌<◌, ◌≡◌, refl, ap, sym, ◌∙◌, List, [], ◌∷◌, ◌++◌, none, some, arith, length,
  length-append, Option-cases, inl, inr,
}
use bili_user_spider.Server.Util.Split.{strip, cut, pieces, split}

strip_lem : (sep cs rest : List ℕ) → strip sep cs ≡ some rest → cs ≡ sep ++ rest
unfolding strip
strip_lem [] cs rest e = ground arith
strip_lem (s ∷ ss) [] rest e = ground arith
strip_lem (s ∷ ss) (c ∷ cs) rest e = ground (arith, strip_lem ss cs rest)

-- What `cut` gives is the text around a separator.
cut_lem : (sep cs a b : List ℕ) → cut sep cs ≡ some (a, b) → cs ≡ a ++ (sep ++ b)
unfolding cut
cut_lem sep [] a b e = ground (arith, strip_lem sep [] b)
cut_lem sep (c ∷ cs) a b e = elim (Option-cases (strip sep (c ∷ cs))) [
  | inl missing ↦ elim (Option-cases (cut sep cs)) [
    | inl missing' ↦ ground arith
    | inr ((a', b'), e') ↦ ground (arith, cut_lem sep cs a' b' e')
  ]
  | inr (rest, e1) ↦ ground (arith, strip_lem sep (c ∷ cs) rest e1)
]

strip-append : (sep x y : List ℕ) → strip sep (x ++ y) ≡ none → strip sep x ≡ none
unfolding strip
strip-append [] x y e = ground arith
strip-append (s ∷ ss) [] y e = refl
strip-append (s ∷ ss) (c ∷ x) y e = ground (arith, strip-append ss x y)

-- There is no separator before the first one.
cut-first : (s : ℕ) (ss cs a b : List ℕ) → cut (s ∷ ss) cs ≡ some (a, b) → cut (s ∷ ss) a ≡ none
unfolding cut strip
cut-first s ss [] a b e = ground arith
cut-first s ss (c ∷ cs) a b e = elim (Option-cases (strip (s ∷ ss) (c ∷ cs))) [
  | inl missing ↦ elim (Option-cases (cut (s ∷ ss) cs)) [
    | inl missing' ↦ ground arith
    | inr ((a', b'), e') ↦ ground (
      arith,
      missing,
      e',
      cut-first s ss cs a' b' e',
      cut_lem (s ∷ ss) cs a' b' e',
      strip-append (s ∷ ss) (c ∷ a') ((s ∷ ss) ++ b'),
    )
  ]
  | inr (rest, e1) ↦ ground (arith, e1)
]

-- No piece has a separator in it.
unfoldable pub AreApart : List ℕ → List (List ℕ) → Type 0
AreApart sep [] = Unit {0}
AreApart sep (p ∷ ps) = (cut sep p ≡ none) × AreApart sep ps

-- The text with the separators between its pieces.
unfoldable pub rejoin : List ℕ → List (List ℕ) → List ℕ
rejoin sep [] = []
rejoin sep (p ∷ []) = p
rejoin sep (p ∷ q ∷ ps) = p ++ (sep ++ rejoin sep (q ∷ ps))

-- The loop ends, with at least one piece, and the pieces make up the text.
record Splits (fuel : ℕ) (sep cs : List ℕ) : Type 0 where
  first : List ℕ
  rest : List (List ℕ)
  found : pieces fuel sep cs ≡ some (first ∷ rest)
  joined : rejoin sep (first ∷ rest) ≡ cs
  apart : AreApart sep (first ∷ rest)

shorter :
    (s : ℕ) (ss a b cs : List ℕ) (fuel : ℕ)
    → cs ≡ a ++ ((s ∷ ss) ++ b)
    → length cs < suc fuel
    → length b < fuel
shorter s ss a b cs fuel e l =
    let length_of : length cs ≡ length (a ++ (s ∷ (ss ++ b))) = ap length e in
    omega (arith, length_of, length-append a (s ∷ (ss ++ b)), length-append ss b)

rejoin-++ :
    (sep a b p : List ℕ) (ps : List (List ℕ))
    → rejoin sep (p ∷ ps) ≡ b
    → rejoin sep (a ∷ p ∷ ps) ≡ a ++ (sep ++ b)
unfolding rejoin
rejoin-++ sep a b p ps e = ap (λ x. a ++ (sep ++ x)) e

pieces-Splits : (fuel s : ℕ) (ss cs : List ℕ) → length cs < fuel → Splits fuel (s ∷ ss) cs
unfolding pieces rejoin AreApart
pieces-Splits zero s ss cs l = absurd (omega arith)
pieces-Splits (suc fuel) s ss cs l = elim (Option-cases (cut (s ∷ ss) cs)) [
  | inl missing ↦ record {
    first = cs;
    rest = [];
    found = ground (arith, missing);
    joined = refl;
    apart = (missing, tt);
  }
  | inr ((a, b), e1) ↦
      let around = cut_lem (s ∷ ss) cs a b e1 in
      let more = pieces-Splits fuel s ss b (shorter s ss a b cs fuel around l) in
      record {
        first = a;
        rest = more.first ∷ more.rest;
        found = ground (arith, e1, more.found);
        joined = rejoin-++ (s ∷ ss) a b more.first more.rest more.joined ∙ sym around;
        apart = (cut-first s ss cs a b e1, more.apart);
      }
]

pieces-endless : (fuel : ℕ) (cs : List ℕ) → pieces fuel [] cs ≡ none
unfolding pieces cut strip
pieces-endless zero cs = refl
pieces-endless (suc fuel) [] = ground (arith, pieces-endless fuel [])
pieces-endless (suc fuel) (c ∷ cs) = ground (arith, pieces-endless fuel (c ∷ cs))

-- With one step more than the text is long, `split` at a separator that is not empty ends, and its
-- pieces have no separator in them and make up the text with separators between them.
pub split-rejoin :
    (fuel s : ℕ) (ss cs : List ℕ)
    → length cs < fuel
    → (ps : List (List ℕ)) × (split fuel (s ∷ ss) cs ≡ some ps)
      × (rejoin (s ∷ ss) ps ≡ cs)
      × AreApart (s ∷ ss) ps
unfolding split rejoin AreApart cut strip
split-rejoin fuel s ss [] l = ([] ∷ [], refl, refl, (refl, tt))
split-rejoin fuel s ss (c ∷ cs) l =
    let r = pieces-Splits fuel s ss (c ∷ cs) l in (r.first ∷ r.rest, r.found, r.joined, r.apart)

-- With an empty separator it does not end.
pub split-endless : (fuel c : ℕ) (cs : List ℕ) → split fuel [] (c ∷ cs) ≡ none
unfolding split
split-endless fuel c cs = pieces-endless fuel (c ∷ cs)
