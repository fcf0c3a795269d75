-- ===== src/Server/ProxyManager/Laws.antt =====
-- When a thread that fetches proxies gives up, and when it touches the database.
use mathlib.Core.Path.{subst}
use bili_user_spider.Prelude.{
  ℕ, ◌+◌, ◌≤◌, ◌≡◌, ◌≢◌, refl, ap, ◌∙◌, inl, inr, List, [], ◌∷◌, Option, none, some, Bool, true,
  false, arith, if◌then◌else◌, length, ltb, String, ℤ, Option-cases, Bool-cases,
}
use bili_user_spider.Server.ProxyManager.{
  Entry, Reply, ProxyData, Verdict, unreachable, unreadable, refused, too_often, unusable, proxies,
  Outside, ai_er_yun_code, read_entries, read_data, verdict, count_error, settle, round, rounds,
}

-- The reply counts as an error that can end the thread.
unfoldable pub is_bad : Verdict → Bool
is_bad unreachable = true
is_bad refused = true
is_bad unreadable = false
is_bad too_often = false
is_bad unusable = false
is_bad (proxies ps) = false

module _ (out : Outside) {Code : Type 0} (check : Code → Option Verdict) where
  open out use {World}

  abbrev pub AllBad : List (Reply Code) → Type 0
  AllBad [] = Unit {0}
  AllBad (r ∷ rs) = (is_bad (verdict check out.atoi r) ≡ true) × AllBad rs

  settle-bad :
      (v : Verdict) (errors : ℕ) (w : World)
      → is_bad v ≡ true
      → settle out v errors w ≡ (w, count_error out errors)
  unfolding is_bad settle
  settle-bad unreachable errors w h = refl
  settle-bad refused errors w h = refl
  settle-bad unreadable errors w h = absurd (ground arith)
  settle-bad too_often errors w h = absurd (ground arith)
  settle-bad unusable errors w h = absurd (ground arith)
  settle-bad (proxies ps) errors w h = absurd (ground arith)

  -- After a success, the thread survives eleven bad replies in a row, and gives up at the twelfth,
  -- with nothing done to the database: from a count of `errors` bad replies, it gives up exactly if
  -- there are at least 12 in all.
  rounds-bad :
      (rs : List (Reply Code)) (errors : ℕ) (w : World)
      → AllBad rs
      → errors ≤ 11
      → rounds out check rs errors w
        ≡ (w, if ltb 11 (errors + length rs) then none else some (errors + length rs))
  unfolding rounds round count_error
  rounds-bad [] errors w bad few = ground arith
  rounds-bad (r ∷ rs) errors w bad few = elim (Bool-cases (ltb 10 errors)) [
    | inl e ↦ ground (arith, e, settle-bad (verdict check out.atoi r) errors w bad.0)
    | inr e ↦ ground (
      arith,
      e,
      settle-bad (verdict check out.atoi r) errors w bad.0,
      rounds-bad rs (errors + 1) w bad.1,
    )
  ]

-- The proxies are those of the entries, in their order, and no entry lacks a member.
abbrev pub Listed : (String → ℤ) → List Entry → List ProxyData → Type 0
Listed atoi [] [] = Unit {0}
Listed atoi [] (p ∷ ps) = ⊥
Listed atoi (e ∷ es) [] = ⊥
Listed atoi (e ∷ es) (p ∷ ps) =
    (e.ip ≡ some p.host)
    × ((port : String) × (e.port ≡ some port) × (p.port ≡ atoi port))
    × Listed atoi es ps

read_entries-Listed :
    (atoi : String → ℤ) (es : List Entry) (ps : List ProxyData)
    → read_entries atoi es ≡ some ps
    → Listed atoi es ps
unfolding read_entries
read_entries-Listed atoi [] [] h = tt
read_entries-Listed atoi [] (p ∷ ps) h = absurd (ground arith)
read_entries-Listed atoi (e ∷ es) ps h = elim (Option-cases e.port) [
  | inl k ↦ absurd (ground (arith, k, h))
  | inr (port, k) ↦ elim (Option-cases e.ip) [
    | inl g ↦ absurd (ground (arith, k, g, h))
    | inr (ip, g) ↦ elim (Option-cases (read_entries atoi es)) [
      | inl f ↦ absurd (ground (arith, k, g, f, h))
      | inr (qs, f) ↦
          let is_ps : (record { host = ip; port = atoi port }) ∷ qs ≡ ps =
            ground (arith, k, g, f, h) in
          subst (λ ps. Listed atoi (e ∷ es) ps) is_ps
            (g, (port, k, refl), read_entries-Listed atoi es qs f)
    ]
  ]
]

Listed-nonempty :
    (atoi : String → ℤ) (e : Entry) (es : List Entry) (ps : List ProxyData)
    → Listed atoi (e ∷ es) ps
    → ps ≢ []
Listed-nonempty atoi e es [] listed = absurd listed
Listed-nonempty atoi e es (p ∷ ps) listed = ground arith

module _ {Code : Type 0} (check : Code → Option Verdict) where
  -- A reply is taken for a list of proxies only if its code is the one for success, and the list has
  -- at least one entry and no entry without a member; then the proxies are exactly those of the list.
  verdict-proxies :
      (atoi : String → ℤ) (r : Reply Code) (ps : List ProxyData)
      → ((code : Code) (qs : List ProxyData) → check code ≢ some (proxies qs))
      → verdict check atoi r ≡ proxies ps
      → (r.is_ok ≡ true)
        × ((code : Code) × (es : List Entry) × (r.json ≡ some (some code, some es))
            × (check code ≡ none)
            × (ps ≢ [])
            × Listed atoi es ps)
  unfolding verdict read_data
  verdict-proxies atoi r ps never h = elim (Option-cases r.json) [
    | inl j ↦ absurd (ground (arith, j, h))
    | inr ((none, entries), j) ↦ absurd (ground (arith, j, h))
    | inr ((some code, none), j) ↦ elim (Option-cases (check code)) [
      | inl k ↦ absurd (ground (arith, j, k, h))
      | inr (v, k) ↦ absurd (ground (arith, j, k, h, never code ps))
    ]
    | inr ((some code, some []), j) ↦ elim (Option-cases (check code)) [
      | inl k ↦ absurd (ground (arith, j, k, h))
      | inr (v, k) ↦ absurd (ground (arith, j, k, h, never code ps))
    ]
    | inr ((some code, some (e ∷ es)), j) ↦ elim (Option-cases (check code)) [
      | inr (v, k) ↦ absurd (ground (arith, j, k, h, never code ps))
      | inl k ↦ elim (Option-cases (read_entries atoi (e ∷ es))) [
        | inl f ↦ absurd (ground (arith, j, k, f, h))
        | inr (qs, f) ↦
            let is_ps : qs ≡ ps = ground (arith, j, k, f, h) in
            let listed = read_entries-Listed atoi (e ∷ es) ps (f ∙ ap some is_ps) in
            (
              ground (arith, j, k, f, h),
              (code, (e ∷ es), j, k, Listed-nonempty atoi e es ps listed, listed),
            )
      ]
    ]
  ]

-- The codes never say which proxies there are.
pub ai_er_yun_code_lem :
    (code : String) (ps : List ProxyData) → ai_er_yun_code code ≢ some (proxies ps)
unfolding ai_er_yun_code
ai_er_yun_code_lem code ps = ground arith
