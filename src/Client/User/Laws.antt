-- ===== src/Client/User/Laws.antt =====
-- What an answer of the site means for the user and for the proxy.
use mathlib.Core.Path.{sym, subst}
use bili_user_spider.Prelude.{
  ◌∙◌, ap, Option, pos, ◌≤ℤ◌, ◌<ℤ◌, ◌^◌, ℕ, ◌≡◌, ◌≢◌, refl, none, some, Bool, true, false, arith, ℤ,
  negsuc, ◌⊎◌, Option-cases, inl, inr,
}
use bili_user_spider.Client.Types.{UserInfo}
use bili_user_spider.Client.Json.{as_int_same, as_uint_same}
use bili_user_spider.Client.User.Reply.{WebUser, AppUser, Response}
use bili_user_spider.Client.User.Fields.{
  BiliRet, no_error, risk_control, error, critical, not_found, Checked, pass, fail, ◌>>=◌, Fields,
  web_fields, app_fields, read_web, read_app, fill_info,
}
use bili_user_spider.Client.ProxyManager.Proxies.{ProxyData, Pool, equivalent, find, find-erase}
use bili_user_spider.Client.ProxyManager.{get_random_proxy, drop_proxy}
use bili_user_spider.Client.ProxyManager.Laws.{find-error_proxy}
use bili_user_spider.Client.ProxyManager.Db.{ProxyDb, remove_proxy}
use bili_user_spider.Client.User.{
  check_code, check_response, parse_web, parse_app, Outcome, found, failed, outcome_of,
  settle_proxy, get_user_info_web, get_user_info_app,
}

read_web-found :
    (mid : ℤ) (f : Fields) (info info' : UserInfo)
    → read_web mid f info ≡ some (info', no_error)
    → info'.mid ≡ mid
unfolding read_web fill_info
read_web-found mid f info info' h = ground arith

read_app-found :
    (mid : ℤ) (f : Fields) (info info' : UserInfo)
    → read_app mid f info ≡ some (info', no_error)
    → info'.mid ≡ mid
unfolding read_app fill_info
read_app-found mid f info info' h = ground arith

pub Checked-cases :
    {A : Type 0} (c : Checked A) → ((ret : BiliRet) × (c ≡ fail ret)) ⊎ ((a : A) × (c ≡ pass a))
Checked-cases (fail ret) = inl (ret, refl)
Checked-cases (pass a) = inr (a, refl)

-- Whether the block breaks with the code for success.
is_success : {A : Type 0} → Checked A → Bool
is_success (pass a) = false
is_success (fail no_error) = true
is_success (fail risk_control) = false
is_success (fail error) = false
is_success (fail critical) = false
is_success (fail not_found) = false

check_response-fail : {Node : Type 0} (r : Response Node) → is_success (check_response r) ≡ false
unfolding check_response check_code is_success
check_response-fail r = ground arith

web_fields-fail : (u : WebUser) → is_success (web_fields u) ≡ false
unfolding web_fields is_success
web_fields-fail u = ground arith

app_fields-fail : (u : AppUser) → is_success (app_fields u) ≡ false
unfolding app_fields is_success
app_fields-fail u = ground arith

-- A user that the Web call finds has the id that was asked for, whatever the site's answer says.
pub parse_web-found :
    (mid : ℤ) (r : Response WebUser) (info info' : UserInfo)
    → parse_web mid r info ≡ some (info', no_error)
    → info'.mid ≡ mid
unfolding parse_web is_success
parse_web-found mid r info info' h = elim (Checked-cases (check_response r)) [
  | inl (ret, e) ↦ ground (arith, e, h, check_response-fail r)
  | inr (u, e) ↦ elim (Checked-cases (web_fields u)) [
    | inl (ret, k) ↦ ground (arith, e, k, h, web_fields-fail u)
    | inr (f, k) ↦ read_web-found mid f info info' (ground (arith, e, k, h))
  ]
]

-- The same of the App call.
pub parse_app-found :
    (mid : ℤ) (r : Response AppUser) (info info' : UserInfo)
    → parse_app mid r info ≡ some (info', no_error)
    → info'.mid ≡ mid
unfolding parse_app is_success
parse_app-found mid r info info' h = elim (Checked-cases (check_response r)) [
  | inl (ret, e) ↦ ground (arith, e, h, check_response-fail r)
  | inr (u, e) ↦ elim (Checked-cases (app_fields u)) [
    | inl (ret, k) ↦ ground (arith, e, k, h, app_fields-fail u)
    | inr (f, k) ↦ read_app-found mid f info info' (ground (arith, e, k, h))
  ]
]

-- The App reply with the same members as a Web reply.
unfoldable pub as_app : WebUser → AppUser
as_app u = record {
  card = some (record {
    mid = u.mid;
    name = u.name;
    sex = u.sex;
    face = u.face;
    sign = u.sign;
    attention = some (negsuc 0);
    fans = some (negsuc 0);
    level_info = some (record { current_level = u.level });
    official_verify = u.official;
    vip = u.vip;
    is_deleted = some (negsuc 0);
  });
  live = u.live_room;
}

app_fields-as_app : (u : WebUser) → app_fields (as_app u) ≡ web_fields u
unfolding app_fields web_fields as_app
app_fields-as_app u = ground arith

unfoldable pub as_app_response : Response WebUser → Response AppUser
as_app_response r = record {
  is_ok = r.is_ok;
  size = r.size;
  json = elim r.json [
    | none ↦ none
    | some root ↦ some (record {
      code = root.code;
      message = root.message;
      node = elim root.node [ none ↦ none | some u ↦ some (as_app u) ];
    })
  ];
}

check_response-as_app :
    (r : Response WebUser)
    → (check_response (as_app_response r) >>= app_fields) ≡ (check_response r >>= web_fields)
unfolding check_response check_code as_app_response
check_response-as_app r = elim (Option-cases r.json) [
  | inl e ↦ ground (arith, e)
  | inr (root, e) ↦ elim (Option-cases root.node) [
    | inl k ↦ ground (arith, e, k)
    | inr (u, k) ↦ ground (arith, e, k, app_fields-as_app u)
  ]
]

fail-no_error :
    (r : Response WebUser) (ret : BiliRet)
    → (check_response r >>= web_fields) ≡ fail ret
    → ret ≢ no_error
unfolding is_success
fail-no_error r ret h = elim (Checked-cases (check_response r)) [
  | inl (other, e) ↦ ground (arith, e, h, check_response-fail r)
  | inr (u, e) ↦ ground (arith, e, h, web_fields-fail u)
]

-- The id of the live room in a Web answer, if it has one.
unfoldable pub room_of : Response WebUser → Option ℤ
room_of r = elim r.json [
  | none ↦ none
  | some root ↦ elim root.node [
    | none ↦ none
    | some u ↦ elim u.live_room [ none ↦ none | some live ↦ live.roomid ]
  ]
]

web_fields-live : (u : WebUser) (f : Fields) → web_fields u ≡ pass f → f.live ≡ u.live_room
unfolding web_fields
web_fields-live u f h = ground arith

room_of-live :
    (r : Response WebUser) (f : Fields)
    → (check_response r >>= web_fields) ≡ pass f
    → room_of r ≡ elim f.live [ none ↦ none | some live ↦ live.roomid ]
unfolding room_of check_response check_code
room_of-live r f h = elim (Option-cases r.json) [
  | inl e ↦ absurd (ground (arith, e, h))
  | inr (root, e) ↦ elim (Option-cases root.node) [
    | inl k ↦ absurd (ground (arith, e, k, h))
    | inr (u, k) ↦
        let same = web_fields-live u f (ground (arith, e, k, h)) in ground (arith, e, k, same)
  ]
]

-- Both calls can read the id of the live room: it is an `int` that is not negative.
abbrev pub RoomFits : Option ℤ → Type 0
RoomFits none = Unit {0}
RoomFits (some n) = (pos 0 ≤ℤ n) × (n <ℤ pos (2 ^ 31))

abbrev pub room_or : ℤ → Option ℤ → ℤ
room_or lid none = lid
room_or lid (some n) = n

-- What the two calls leave: they differ at most in `lid`, and where they find the user, that is the
-- room of the answer, or else what it was for the Web call and -1 for the App call.
pub record SameUser (info : UserInfo) (room : Option ℤ) (ret : BiliRet) (web app : UserInfo)
    : Type 0 where
  pub members : record app { lid = pos 0 } ≡ record web { lid = pos 0 }
  pub lids :
      (ret ≢ no_error) ⊎ ((web.lid ≡ room_or info.lid room) × (app.lid ≡ room_or (negsuc 0) room))

read_app-read_web :
    (mid : ℤ) (f : Fields) (info : UserInfo) (room : Option ℤ)
    → room ≡ elim f.live [ none ↦ none | some live ↦ live.roomid ]
    → RoomFits room
    → (web app : UserInfo) × (ret : BiliRet) × (read_web mid f info ≡ some (web, ret))
      × (read_app mid f info ≡ some (app, ret))
      × SameUser info room ret web app
unfolding read_web read_app fill_info
read_app-read_web mid f info room is_room fits = elim (Option-cases f.live) [
  | inl e ↦ (
    fill_info mid f info.lid,
    fill_info mid f (negsuc 0),
    no_error,
    ground (arith, e),
    ground (arith, e),
    record { members = refl; lids = inr (ground (arith, is_room, e), ground (arith, is_room, e)) },
  )
  | inr (live, e) ↦ elim (Option-cases live.roomid) [
    | inl k ↦ (
      info,
      record info { lid = negsuc 0 },
      critical,
      ground (arith, e, k),
      ground (arith, e, k),
      record { members = refl; lids = inl (ground arith) },
    )
    | inr (n, k) ↦
        let is_n : room ≡ some n = ground (arith, is_room, e, k) in
        let range : RoomFits (some n) = subst RoomFits is_n fits in
        (
          fill_info mid f n,
          fill_info mid f n,
          no_error,
          ground (arith, e, k, as_uint_same n range.0 range.1),
          ground (arith, e, k, as_int_same n range.0 range.1),
          record { members = refl; lids = inr (ground (arith, is_n), ground (arith, is_n)) },
        )
  ]
]

-- The App call on an answer with the members of a Web answer ends with the code of the Web call on
-- that one and leaves the same user but for `lid`, if the id of the live room, where there is one,
-- is an int that is not negative. Where they find the user, `lid` is that id for both; without one
-- the Web call leaves `lid` as it was, and the App call sets it to -1.
pub parse_app-parse_web :
    (mid : ℤ) (r : Response WebUser) (info : UserInfo)
    → RoomFits (room_of r)
    → (web app : UserInfo) × (ret : BiliRet) × (parse_web mid r info ≡ some (web, ret))
      × (parse_app mid (as_app_response r) info ≡ some (app, ret))
      × SameUser info (room_of r) ret web app
unfolding parse_app parse_web is_success
parse_app-parse_web mid r info fits =
    let same = check_response-as_app r in
    elim (Checked-cases (check_response r >>= web_fields)) [
      | inl (ret, e) ↦ (
        info,
        info,
        ret,
        ground (arith, e),
        ground (arith, e, same),
        record { members = refl; lids = inl (fail-no_error r ret e) },
      )
      | inr (f, e) ↦
          let (web, app, ret, is_web, is_app, users) =
            read_app-read_web mid f info (room_of r) (room_of-live r f e) fits in
          (web, app, ret, ground (arith, e, is_web), ground (arith, e, same, is_app), users)
    ]

pub outcome_of-found : (ret : BiliRet) → outcome_of ret ≡ found → ret ≡ no_error
unfolding outcome_of
outcome_of-found no_error h = refl
outcome_of-found not_found h = absurd (ground arith)
outcome_of-found risk_control h = absurd (ground arith)
outcome_of-found error h = absurd (ground arith)
outcome_of-found critical h = absurd (ground arith)

-- What an outcome leaves alone.
module _ (db : ProxyDb) where
  settle_proxy-same :
      (ret : BiliRet) (p : ProxyData) (m : Pool) (w : db.World)
      → (outcome_of ret ≡ failed) ⊎ (settle_proxy db ret p m w ≡ (m, w))
  unfolding settle_proxy outcome_of
  settle_proxy-same no_error p m w = inr refl
  settle_proxy-same not_found p m w = inr refl
  settle_proxy-same critical p m w = inr refl
  settle_proxy-same risk_control p m w = inl refl
  settle_proxy-same error p m w = inl refl

  settle_proxy-other :
      (ret : BiliRet) (p q : ProxyData) (m : Pool) (w : db.World)
      → equivalent q p ≡ false
      → find q (settle_proxy db ret p m w).0 ≡ find q m
  unfolding settle_proxy remove_proxy drop_proxy
  settle_proxy-other no_error p q m w h = refl
  settle_proxy-other not_found p q m w h = refl
  settle_proxy-other critical p q m w h = refl
  settle_proxy-other risk_control p q m w h = ground (arith, find-erase p q m h)
  settle_proxy-other error p q m w h = ground (arith, find-error_proxy p q m)

  -- A Web call that finds a user gives the id that was asked for; one that does not fail leaves the
  -- pool and the database as they were; and no call changes what the pool has of a proxy other than
  -- the one it took.
  pub get_user_info_web_lem :
      (r : ℕ) (perform : ProxyData → Response WebUser) (mid : ℤ) (info : UserInfo) (m : Pool)
      (w : db.World) (m' : Pool) (w' : db.World) (info' : UserInfo) (o : Outcome)
      → get_user_info_web db r perform mid info m w ≡ some ((m', w'), info', o)
      → (o ≡ found → info'.mid ≡ mid)
        × (o ≢ failed → (m' ≡ m) × (w' ≡ w))
        × ((p : ProxyData) × (get_random_proxy r m ≡ some p)
            × ((q : ProxyData) → equivalent q p ≡ false → find q m' ≡ find q m))
  unfolding get_user_info_web
  get_user_info_web_lem r perform mid info m w m' w' info' o h =
      elim (Option-cases (get_random_proxy r m)) [
        | inl e ↦ absurd (ground (arith, e, h))
        | inr (p, e) ↦ elim (Option-cases (parse_web mid (perform p) info)) [
          | inl k ↦ absurd (ground (arith, e, k, h))
          | inr ((found_info, ret), k) ↦
              let settled = settle_proxy db ret p m w in
              let is_o : o ≡ outcome_of ret = ground (arith, e, k, h) in
              let is_info : info' ≡ found_info = ground (arith, e, k, h) in
              let is_m : m' ≡ settled.0 = ground (arith, e, k, h) in
              let is_w : w' ≡ settled.1 = ground (arith, e, k, h) in
              (
                λ is_found.
                    ap (λ x. x.mid) is_info
                    ∙ parse_web-found mid (perform p) info found_info (
                        subst (λ x. parse_web mid (perform p) info ≡ some (found_info, x))
                          (outcome_of-found ret (sym is_o ∙ is_found)) k),
                ground (arith, is_o, is_m, is_w, settle_proxy-same ret p m w),
                (p, e, λ q other. ground (arith, is_m, settle_proxy-other ret p q m w other)),
              )
        ]
      ]

  -- The same id from the App call.
  pub get_user_info_app-found :
      (r : ℕ) (perform : ProxyData → Response AppUser) (mid : ℤ) (info : UserInfo) (m : Pool)
      (w : db.World) (m' : Pool) (w' : db.World) (info' : UserInfo)
      → get_user_info_app db r perform mid info m w ≡ some ((m', w'), info', found)
      → info'.mid ≡ mid
  unfolding get_user_info_app
  get_user_info_app-found r perform mid info m w m' w' info' h =
      elim (Option-cases (get_random_proxy r m)) [
        | inl e ↦ absurd (ground (arith, e, h))
        | inr (p, e) ↦ elim (Option-cases (parse_app mid (perform p) info)) [
          | inl k ↦ absurd (ground (arith, e, k, h))
          | inr ((found_info, ret), k) ↦
              let is_found : outcome_of ret ≡ found = ground (arith, e, k, h) in
              let is_info : info' ≡ found_info = ground (arith, e, k, h) in
              ap (λ x. x.mid) is_info
              ∙ parse_app-found mid (perform p) info found_info (
                  subst (λ x. parse_app mid (perform p) info ≡ some (found_info, x))
                    (outcome_of-found ret is_found) k)
        ]
      ]
