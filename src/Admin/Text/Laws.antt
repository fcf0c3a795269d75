-- ===== src/Admin/Text/Laws.antt =====
-- A time that is formatted comes to the same, and every occurrence of a text is replaced.
use mathlib.Core.Path.{subst}
use mathlib.Core.List.{append_assoc}
use bili_user_spider.Prelude.{
  ℕ, zero, suc, ◌+◌, ◌*◌, ◌/◌, ◌%◌, ◌<◌, ◌≡◌, refl, sym, ap, ◌∙◌, List, [], ◌∷◌, ◌++◌, length, some,
  pos, arith, Option-cases, inl, inr,
}
use bili_user_spider.Server.Util.Split.{strip, cut, split, pieces}
use bili_user_spider.Server.Util.Split.Laws.{rejoin, split-rejoin}
use bili_user_spider.Admin.Text.{
  quot, rem, TimeUnit, days, hours, minutes, seconds, Part, part, shown, format_time_span,
  replace_from, replace_all,
}

abbrev pub seconds_in : TimeUnit → ℕ
seconds_in days = 86400
seconds_in hours = 3600
seconds_in minutes = 60
seconds_in seconds = 1

-- All but the days are below the next unit.
abbrev pub IsBelow : TimeUnit → ℕ → Type 0
IsBelow days n = Unit {0}
IsBelow hours n = n < 24
IsBelow minutes n = n < 60
IsBelow seconds n = n < 60

-- The parts are numbers that are not negative and stay below the next unit, and come to `t` seconds.
abbrev pub CameTo : ℕ → List Part → Type 0
CameTo t [] = t ≡ 0
CameTo t (p ∷ ps) =
    (n : ℕ) × (rest : ℕ) × (p.number ≡ pos n)
    × IsBelow p.unit n
    × (t ≡ n * seconds_in p.unit + rest)
    × CameTo rest ps

shown-CameTo :
    (n rest : ℕ) (u : TimeUnit) (ps : List Part)
    → IsBelow u n
    → CameTo rest ps
    → CameTo (n * seconds_in u + rest) (shown (pos n) u ps)
unfolding shown
shown-CameTo zero rest u ps below h = subst (λ t. CameTo t ps) (omega arith) h
shown-CameTo (suc n) rest u ps below h =
    let e : shown (pos (suc n)) u ps ≡ part (pos (suc n)) u ∷ ps = ground arith in
    rw e (suc n, rest, refl, below, refl, h)

-- A time span that is not negative is shown in days, hours, minutes and seconds that come to it.
pub format_time_span-CameTo : (t : ℕ) → CameTo t (format_time_span (pos t))
unfolding format_time_span quot rem
format_time_span-CameTo t =
    let d : ℕ = t / 86400 in
    let t' : ℕ = t % 86400 in
    let h : ℕ = t' / 3600 in
    let t'' : ℕ = t' % 3600 in
    let m : ℕ = t'' / 60 in
    let sec : ℕ = t'' % 60 in
    subst (λ n. CameTo n (format_time_span (pos t))) (omega arith)
      (shown-CameTo d (h * 3600 + (m * 60 + (sec * 1 + 0))) days _ tt (
        shown-CameTo h (m * 60 + (sec * 1 + 0)) hours _ (omega arith) (
          shown-CameTo m (sec * 1 + 0) minutes _ (omega arith)
            (sec, 0, refl, omega arith, refl, refl))))

pieces-cons :
    (fuel : ℕ) (sep cs : List ℕ) (qs : List (List ℕ))
    → pieces fuel sep cs ≡ some qs
    → (p : List ℕ) × (ps : List (List ℕ)) × (qs ≡ p ∷ ps)
unfolding pieces
pieces-cons zero sep cs qs e = absurd (cc)
pieces-cons (suc fuel) sep cs qs e = elim (Option-cases (cut sep cs)) [
  | inl missing ↦ (cs, [], ground (arith, missing))
  | inr ((a, b), e1) ↦ elim (Option-cases (pieces fuel sep b)) [
    | inl missing ↦ absurd (ground (arith, e1, missing))
    | inr (ps, e2) ↦ (a, ps, ground (arith, e1, e2))
  ]
]

replace_from-pieces :
    (fuel : ℕ) (sep rep done cs : List ℕ) (ps : List (List ℕ))
    → pieces fuel sep cs ≡ some ps
    → replace_from fuel sep rep done cs ≡ some (done ++ rejoin rep ps)
unfolding pieces replace_from rejoin
replace_from-pieces zero sep rep done cs ps e = cc
replace_from-pieces (suc fuel) sep rep done cs ps e = elim (Option-cases (cut sep cs)) [
  | inl missing ↦ ground (arith, missing)
  | inr ((a, b), e1) ↦ elim (Option-cases (pieces fuel sep b)) [
    | inl missing ↦ absurd (ground (arith, e1, missing))
    | inr (qs, e2) ↦
        let (q, qs', e3) = pieces-cons fuel sep b qs e2 in
        let e4 : ps ≡ a ∷ q ∷ qs' = ground (arith, e1, e2, e3) in
        let e5 : replace_from (suc fuel) sep rep done cs
            ≡ replace_from fuel sep rep (done ++ (a ++ rep)) b =
          ground (arith, e1) in
        e5
        ∙ replace_from-pieces fuel sep rep (done ++ (a ++ rep)) b (q ∷ qs')
            (e2 ∙ ap (λ r. some r) e3)
        ∙ ap (λ r. some r)
            (append_assoc done (a ++ rep) (rejoin rep (q ∷ qs'))
              ∙ ap (λ r. done ++ r) (append_assoc a rep (rejoin rep (q ∷ qs'))))
        ∙ ap (λ r. some (done ++ rejoin rep r)) (sym e4)
  ]
]

split-pieces :
    (fuel s : ℕ) (ss cs : List ℕ)
    → length cs < fuel
    → split fuel (s ∷ ss) cs ≡ pieces fuel (s ∷ ss) cs
unfolding split pieces cut strip
split-pieces zero s ss cs l = absurd (omega arith)
split-pieces (suc fuel) s ss [] l = refl
split-pieces (suc fuel) s ss (c ∷ cs) l = refl

-- With one step more than the text is long, `replaceAll` of a text that is not empty ends, and puts
-- the new text exactly where `split` cuts the old one out, whatever the new text is.
pub replace_all-split :
    (fuel s : ℕ) (ss rep cs : List ℕ)
    → length cs < fuel
    → (ps : List (List ℕ)) × (split fuel (s ∷ ss) cs ≡ some ps)
      × (rejoin (s ∷ ss) ps ≡ cs)
      × (replace_all fuel (s ∷ ss) rep cs ≡ some (rejoin rep ps))
unfolding replace_all
replace_all-split fuel s ss rep cs l =
    let (ps, e, joined, _) = split-rejoin fuel s ss cs l in
    let found = sym (split-pieces fuel s ss cs l) ∙ e in
    (ps, e, joined, replace_from-pieces fuel (s ∷ ss) rep [] cs ps found)
