-- ===== src/Client/User.antt =====
-- `getUserInfo_Web` and `getUserInfo_App` of BiliUserSpiderClient/src/bili/user.cpp: what they make
-- of a response, and what it means for the proxy.
pub mod Reply
pub mod Fields
pub mod Laws
pub mod Answers
use bili_user_spider.Prelude.{
  ℕ, Option, none, some, Bool, true, false, not, ◌&&◌, if◌then◌else◌, ltb, ℤ, pos, negsuc, ◌==ℤ◌,
}
use bili_user_spider.Client.Types.{UserInfo}
use bili_user_spider.Client.ProxyManager.Proxies.{ProxyData, Pool}
use bili_user_spider.Client.ProxyManager.{get_random_proxy, error_proxy}
use bili_user_spider.Client.ProxyManager.Db.{ProxyDb, remove_proxy}
use bili_user_spider.Client.User.Reply.{WebUser, AppUser, Root, Response}
use bili_user_spider.Client.User.Fields.{
  BiliRet, no_error, risk_control, error, critical, not_found, Checked, pass, fail, ◌>>=◌, require,
  web_fields, app_fields, read_web, read_app,
}

-- The code of a reply; 0 goes on.
unfoldable pub check_code : ℤ → Checked (Unit {0})
check_code code =
    if code ==ℤ pos 0
    then pass tt
    else if code ==ℤ negsuc 411
    then fail risk_control
    else if code ==ℤ negsuc 403
    then fail not_found
    else if code ==ℤ negsuc 399
    then fail not_found
    else fail error

-- The first part of the `do` block, up to `data`.
unfoldable pub check_response : {Node : Type 0} → Response Node → Checked Node
check_response r = if not r.is_ok && ltb r.size 10 then fail error else (do
  root ← require r.json error
  code ← require root.code critical
  _ ← require root.message critical
  _ ← check_code code
  require root.node critical)

-- The call for one proxy: what it leaves in `*info`, and its `ret`; `none` where the id of the live
-- room throws.
unfoldable pub parse_web : ℤ → Response WebUser → UserInfo → Option (UserInfo × BiliRet)
parse_web mid r info = elim (check_response r >>= web_fields) [
  | fail ret ↦ some (info, ret)
  | pass fields ↦ read_web mid fields info
]

unfoldable pub parse_app : ℤ → Response AppUser → UserInfo → Option (UserInfo × BiliRet)
parse_app mid r info = elim (check_response r >>= app_fields) [
  | fail ret ↦ some (info, ret)
  | pass fields ↦ read_app mid fields info
]

-- The results 0, 1 and -1.
pub data Outcome : Type 0 where
  found absent failed : Outcome

unfoldable pub outcome_of : BiliRet → Outcome
outcome_of no_error = found
outcome_of not_found = absent
outcome_of risk_control = failed
outcome_of error = failed
outcome_of critical = failed

module _ (db : ProxyDb) where
  -- The `switch` at the end: what becomes of the proxy.
  unfoldable pub settle_proxy : BiliRet → ProxyData → Pool → db.World → Pool × db.World
  settle_proxy no_error p m w = (m, w)
  settle_proxy not_found p m w = (m, w)
  settle_proxy risk_control p m w = remove_proxy db p m w
  settle_proxy error p m w = (error_proxy p m, w)
  settle_proxy critical p m w = (m, w)

  -- The whole call, for the number that `rand` gives and the response to the request through the
  -- proxy; `none` where no proxy can be taken or the reply throws.
  unfoldable pub get_user_info_web :
      ℕ
      → (ProxyData → Response WebUser)
      → ℤ
      → UserInfo
      → Pool
      → db.World
      → Option ((Pool × db.World) × UserInfo × Outcome)
  get_user_info_web r perform mid info m w = elim (get_random_proxy r m) [
    | none ↦ none
    | some p ↦ elim (parse_web mid (perform p) info) [
      | none ↦ none
      | some (info', ret) ↦ some (settle_proxy ret p m w, info', outcome_of ret)
    ]
  ]

  unfoldable pub get_user_info_app :
      ℕ
      → (ProxyData → Response AppUser)
      → ℤ
      → UserInfo
      → Pool
      → db.World
      → Option ((Pool × db.World) × UserInfo × Outcome)
  get_user_info_app r perform mid info m w = elim (get_random_proxy r m) [
    | none ↦ none
    | some p ↦ elim (parse_app mid (perform p) info) [
      | none ↦ none
      | some (info', ret) ↦ some (settle_proxy ret p m w, info', outcome_of ret)
    ]
  ]
