-- ===== src/Client/User/Fields.antt =====
-- The fields of a user: which members of a reply are required, and what they become.
use text.Mathlib.Text.{◌==◌ as str_eq}
use bili_user_spider.Prelude.{
  ◌-◌, ◌%◌, Option, none, some, if◌then◌else◌, ltb, String, ℤ, pos, negsuc, ◌-ℤ◌,
}
use bili_user_spider.Client.Types.{UserInfo}
use bili_user_spider.Client.Json.{as_int, as_uint}
use bili_user_spider.Client.User.Reply.{Live, WebUser, AppUser}

-- `BILI_RET`.
pub data BiliRet : Type 0 where
  no_error risk_control error critical not_found : BiliRet

-- A step of the `do` block: it goes on, or breaks with a `ret`.
pub data Checked (A : Type 0) : Type 0 where
  pass : A → Checked A
  fail : BiliRet → Checked A

infixl 5 ◌>>=◌
abbrev pub ◌>>=◌ : {A B : Type 0} → Checked A → (A → Checked B) → Checked B
pass a >>= f = f a
fail ret >>= f = fail ret

abbrev pub require : {A : Type 0} → Option A → BiliRet → Checked A
require none ret = fail ret
require (some a) ret = pass a

-- An `int` as a signed `char`.
unfoldable pub to_char : ℤ → ℤ
to_char (pos n) = if ltb (n % 256) 128 then pos (n % 256) else pos (n % 256) -ℤ pos 256
to_char (negsuc n) = let r = 255 - n % 256 in if ltb r 128 then pos r else pos r -ℤ pos 256

unfoldable pub sex_of : String → ℤ
sex_of sex =
    if str_eq sex "保密"
    then pos 0
    else if str_eq sex "男"
    then pos 2
    else if str_eq sex "女"
    then pos 1
    else negsuc 0

-- The members of both replies, once they are there.
pub record Fields : Type 0 where
  pub name : String
  pub sex : String
  pub face : String
  pub sign : String
  pub level : ℤ
  pub attention : ℤ
  pub fans : ℤ
  pub is_deleted : ℤ
  pub official_type : ℤ
  pub official_desc : String
  pub official_role : ℤ
  pub official_title : String
  pub vip_type : ℤ
  pub vip_status : ℤ
  pub vip_label : String
  pub live : Option Live

-- `checkNull` of the Web reply's `data` and of the objects in it. The Web reply has no `attention`,
-- `fans` and `is_deleted`.
unfoldable pub web_fields : WebUser → Checked Fields
web_fields u = do
  _ ← require u.mid critical
  name ← require u.name critical
  sex ← require u.sex critical
  face ← require u.face critical
  sign ← require u.sign critical
  level ← require u.level critical
  official ← require u.official critical
  vip ← require u.vip critical
  official_type ← require official.type critical
  official_desc ← require official.desc critical
  official_role ← require official.role critical
  official_title ← require official.title critical
  vip_type ← require vip.type critical
  vip_status ← require vip.status critical
  label ← require vip.label critical
  vip_label ← require label.text critical
  pass (record {
    name = name;
    sex = sex;
    face = face;
    sign = sign;
    level = level;
    attention = negsuc 0;
    fans = negsuc 0;
    is_deleted = negsuc 0;
    official_type = official_type;
    official_desc = official_desc;
    official_role = official_role;
    official_title = official_title;
    vip_type = vip_type;
    vip_status = vip_status;
    vip_label = vip_label;
    live = u.live_room;
  })

unfoldable pub app_fields : AppUser → Checked Fields
app_fields d = do
  u ← require d.card critical
  _ ← require u.mid critical
  name ← require u.name critical
  sex ← require u.sex critical
  face ← require u.face critical
  sign ← require u.sign critical
  attention ← require u.attention critical
  fans ← require u.fans critical
  level_info ← require u.level_info critical
  official ← require u.official_verify critical
  vip ← require u.vip critical
  is_deleted ← require u.is_deleted critical
  level ← require level_info.current_level critical
  official_type ← require official.type critical
  official_desc ← require official.desc critical
  official_role ← require official.role critical
  official_title ← require official.title critical
  vip_type ← require vip.type critical
  vip_status ← require vip.status critical
  label ← require vip.label critical
  vip_label ← require label.text critical
  pass (record {
    name = name;
    sex = sex;
    face = face;
    sign = sign;
    level = level;
    attention = attention;
    fans = fans;
    is_deleted = is_deleted;
    official_type = official_type;
    official_desc = official_desc;
    official_role = official_role;
    official_title = official_title;
    vip_type = vip_type;
    vip_status = vip_status;
    vip_label = vip_label;
    live = d.live;
  })

-- The assignments to `*info`, with the id of the live room.
unfoldable pub fill_info : ℤ → Fields → ℤ → UserInfo
fill_info mid f lid = record {
  sex = sex_of f.sex;
  level = to_char f.level;
  vip_status = to_char f.vip_status;
  vip_type = to_char f.vip_type;
  official_type = to_char f.official_type;
  official_role = to_char f.official_role;
  is_deleted = to_char f.is_deleted;
  attention = f.attention;
  fans = f.fans;
  mid = mid;
  lid = lid;
  name = f.name;
  face = f.face;
  sign = f.sign;
  vip_label = f.vip_label;
  official_desc = f.official_desc;
  official_title = f.official_title;
}

-- From the live room on: without one, `lid` stays what it was. `roomid` is read as unsigned, which may
-- throw.
unfoldable pub read_web : ℤ → Fields → UserInfo → Option (UserInfo × BiliRet)
read_web mid f info = elim f.live [
  | none ↦ some (fill_info mid f info.lid, no_error)
  | some live ↦ elim live.roomid [
    | none ↦ some (info, critical)
    | some roomid ↦ elim (as_uint roomid) [
      | none ↦ none
      | some lid ↦ some (fill_info mid f lid, no_error)
    ]
  ]
]

-- The App call sets `lid` to -1 first, and reads `roomid` as an `int`.
unfoldable pub read_app : ℤ → Fields → UserInfo → Option (UserInfo × BiliRet)
read_app mid f info = elim f.live [
  | none ↦ some (fill_info mid f (negsuc 0), no_error)
  | some live ↦ elim live.roomid [
    | none ↦ some (record info { lid = negsuc 0 }, critical)
    | some roomid ↦ elim (as_int roomid) [
      | none ↦ none
      | some lid ↦ some (fill_info mid f lid, no_error)
    ]
  ]
]
