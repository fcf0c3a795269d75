-- ===== src/Client/User/Answers.antt =====
-- The answers of the site behind the results of `getUserInfo_Web` and `getUserInfo_App`,
-- BiliUserSpiderClient/src/bili/user.cpp.
use mathlib.Core.Path.{subst}
use bili_user_spider.Prelude.{
  ℕ, ◌≡◌, ◌≢◌, refl, Option-cases, some, arith, ◌⊎◌, inl, inr, ℤ, negsuc, ◌==ℤ◌, Bool-cases,
}
use bili_user_spider.Client.Types.{UserInfo}
use bili_user_spider.Client.User.Reply.{WebUser, AppUser, Root, Response}
use bili_user_spider.Client.User.Fields.{
  BiliRet, no_error, risk_control, error, critical, not_found, fail, web_fields, app_fields,
  read_web, read_app,
}
use bili_user_spider.Client.User.{
  check_code, check_response, parse_web, parse_app, Outcome, found, absent, outcome_of,
  get_user_info_web, get_user_info_app,
}
use bili_user_spider.Client.User.Laws.{Checked-cases, outcome_of-found}
use bili_user_spider.Client.ProxyManager.Proxies.{ProxyData, Pool}
use bili_user_spider.Client.ProxyManager.{get_random_proxy}
use bili_user_spider.Client.ProxyManager.Db.{ProxyDb}

-- The site says that there is no such user: the code of the reply is -404 or -400.
abbrev pub Denies : {Node : Type 0} → Response Node → Type 0
Denies {Node} r =
    (root : Root Node) × (r.json ≡ some root)
    × ((root.code ≡ some (negsuc 403)) ⊎ (root.code ≡ some (negsuc 399)))

check_code-Denies :
    {Node : Type 0} (r : Response Node) (root : Root Node) (code : ℤ)
    → r.json ≡ some root
    → root.code ≡ some code
    → check_code code ≡ fail not_found
    → Denies r
unfolding check_code
check_code-Denies r root code e k h = elim (Bool-cases (code ==ℤ negsuc 403)) [
  | inl a ↦ (root, e, inl (ground (arith, k, a)))
  | inr a ↦ elim (Bool-cases (code ==ℤ negsuc 399)) [
    | inl b ↦ (root, e, inr (ground (arith, k, b)))
    | inr b ↦ absurd (ground (arith, a, b, h))
  ]
]

check_response-Denies :
    {Node : Type 0} (r : Response Node) → check_response r ≡ fail not_found → Denies r
unfolding check_response
check_response-Denies r h = elim (Option-cases r.json) [
  | inl e ↦ absurd (ground (arith, e, h))
  | inr (root, e) ↦ elim (Option-cases root.code) [
    | inl k ↦ absurd (ground (arith, e, k, h))
    | inr (code, k) ↦ elim (Checked-cases (check_code code)) [
      | inl (ret, c) ↦ check_code-Denies r root code e k (ground (arith, e, k, c, h))
      | inr (u, c) ↦ absurd (ground (arith, e, k, c, h))
    ]
  ]
]

outcome_of-absent : (ret : BiliRet) → outcome_of ret ≡ absent → ret ≡ not_found
unfolding outcome_of
outcome_of-absent no_error h = absurd (ground arith)
outcome_of-absent not_found h = refl
outcome_of-absent risk_control h = absurd (ground arith)
outcome_of-absent error h = absurd (ground arith)
outcome_of-absent critical h = absurd (ground arith)

web_fields_never : (u : WebUser) → web_fields u ≢ fail not_found
unfolding web_fields
web_fields_never u = ground arith

parse_web-Denies :
    (mid : ℤ) (r : Response WebUser) (info info' : UserInfo)
    → parse_web mid r info ≡ some (info', not_found)
    → Denies r
unfolding parse_web read_web
parse_web-Denies mid r info info' h = elim (Checked-cases (check_response r)) [
  | inl (ret, e) ↦ check_response-Denies r (ground (arith, e, h))
  | inr (u, e) ↦ elim (Checked-cases (web_fields u)) [
    | inl (ret, k) ↦ absurd (ground (arith, e, k, h, web_fields_never u))
    | inr (f, k) ↦ absurd (ground (arith, e, k, h))
  ]
]

app_fields_never : (u : AppUser) → app_fields u ≢ fail not_found
unfolding app_fields
app_fields_never u = ground arith

parse_app-Denies :
    (mid : ℤ) (r : Response AppUser) (info info' : UserInfo)
    → parse_app mid r info ≡ some (info', not_found)
    → Denies r
unfolding parse_app read_app
parse_app-Denies mid r info info' h = elim (Checked-cases (check_response r)) [
  | inl (ret, e) ↦ check_response-Denies r (ground (arith, e, h))
  | inr (u, e) ↦ elim (Checked-cases (app_fields u)) [
    | inl (ret, k) ↦ absurd (ground (arith, e, k, h, app_fields_never u))
    | inr (f, k) ↦ absurd (ground (arith, e, k, h))
  ]
]

module _ (db : ProxyDb) where
  -- The proxy and the reply behind a result of the Web call.
  get_user_info_web-parse :
      (r : ℕ) (perform : ProxyData → Response WebUser) (mid : ℤ) (info : UserInfo) (m : Pool)
      (w : db.World) (v : Pool × db.World) (info' : UserInfo) (o : Outcome)
      → get_user_info_web db r perform mid info m w ≡ some (v, info', o)
      → (p : ProxyData) × (ret : BiliRet) × (parse_web mid (perform p) info ≡ some (info', ret))
        × (outcome_of ret ≡ o)
  unfolding get_user_info_web
  get_user_info_web-parse r perform mid info m w v info' o h =
      elim (Option-cases (get_random_proxy r m)) [
        | inl e ↦ absurd (ground (arith, e, h))
        | inr (p, e) ↦ elim (Option-cases (parse_web mid (perform p) info)) [
          | inl k ↦ absurd (ground (arith, e, k, h))
          | inr ((info1, ret), k) ↦ (p, ret, ground (arith, e, k, h), ground (arith, e, k, h))
        ]
      ]

  -- A user that the Web call finds is what a reply to it says.
  pub get_user_info_web-reads :
      (r : ℕ) (perform : ProxyData → Response WebUser) (mid : ℤ) (info : UserInfo) (m : Pool)
      (w : db.World) (v : Pool × db.World) (info' : UserInfo)
      → get_user_info_web db r perform mid info m w ≡ some (v, info', found)
      → (p : ProxyData) × (parse_web mid (perform p) info ≡ some (info', no_error))
  get_user_info_web-reads r perform mid info m w v info' h =
      let (p, ret, e, o) = get_user_info_web-parse r perform mid info m w v info' found h in
      (p, subst (λ x. parse_web mid (perform p) info ≡ some (info', x)) (outcome_of-found ret o) e)

  -- A user that the Web call does not find is one that a reply to it denies.
  pub get_user_info_web-Denies :
      (r : ℕ) (perform : ProxyData → Response WebUser) (mid : ℤ) (info : UserInfo) (m : Pool)
      (w : db.World) (v : Pool × db.World) (info' : UserInfo)
      → get_user_info_web db r perform mid info m w ≡ some (v, info', absent)
      → (p : ProxyData) × Denies (perform p)
  get_user_info_web-Denies r perform mid info m w v info' h =
      let (p, ret, e, o) = get_user_info_web-parse r perform mid info m w v info' absent h in
      let said =
        subst (λ x. parse_web mid (perform p) info ≡ some (info', x)) (outcome_of-absent ret o) e in
      (p, parse_web-Denies mid (perform p) info info' said)

  -- The proxy and the reply behind a result of the App call.
  get_user_info_app-parse :
      (r : ℕ) (perform : ProxyData → Response AppUser) (mid : ℤ) (info : UserInfo) (m : Pool)
      (w : db.World) (v : Pool × db.World) (info' : UserInfo) (o : Outcome)
      → get_user_info_app db r perform mid info m w ≡ some (v, info', o)
      → (p : ProxyData) × (ret : BiliRet) × (parse_app mid (perform p) info ≡ some (info', ret))
        × (outcome_of ret ≡ o)
  unfolding get_user_info_app
  get_user_info_app-parse r perform mid info m w v info' o h =
      elim (Option-cases (get_random_proxy r m)) [
        | inl e ↦ absurd (ground (arith, e, h))
        | inr (p, e) ↦ elim (Option-cases (parse_app mid (perform p) info)) [
          | inl k ↦ absurd (ground (arith, e, k, h))
          | inr ((info1, ret), k) ↦ (p, ret, ground (arith, e, k, h), ground (arith, e, k, h))
        ]
      ]

  -- A user that the App call finds is what a reply to it says.
  pub get_user_info_app-reads :
      (r : ℕ) (perform : ProxyData → Response AppUser) (mid : ℤ) (info : UserInfo) (m : Pool)
      (w : db.World) (v : Pool × db.World) (info' : UserInfo)
      → get_user_info_app db r perform mid info m w ≡ some (v, info', found)
      → (p : ProxyData) × (parse_app mid (perform p) info ≡ some (info', no_error))
  get_user_info_app-reads r perform mid info m w v info' h =
      let (p, ret, e, o) = get_user_info_app-parse r perform mid info m w v info' found h in
      (p, subst (λ x. parse_app mid (perform p) info ≡ some (info', x)) (outcome_of-found ret o) e)

  -- A user that the App call does not find is one that a reply to it denies.
  pub get_user_info_app-Denies :
      (r : ℕ) (perform : ProxyData → Response AppUser) (mid : ℤ) (info : UserInfo) (m : Pool)
      (w : db.World) (v : Pool × db.World) (info' : UserInfo)
      → get_user_info_app db r perform mid info m w ≡ some (v, info', absent)
      → (p : ProxyData) × Denies (perform p)
  get_user_info_app-Denies r perform mid info m w v info' h =
      let (p, ret, e, o) = get_user_info_app-parse r perform mid info m w v info' absent h in
      let said =
        subst (λ x. parse_app mid (perform p) info ≡ some (info', x)) (outcome_of-absent ret o) e in
      (p, parse_app-Denies mid (perform p) info info' said)
