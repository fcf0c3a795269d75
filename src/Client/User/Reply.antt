-- ===== src/Client/User/Reply.antt =====
-- The members of the site's replies that BiliUserSpiderClient/src/bili/user.cpp reads. The HTTP
-- library and jsoncpp are not part of the model: a response is what they make of it. `none` is a
-- member that is missing or null; a member that is there has the kind that is read from it.
use bili_user_spider.Prelude.{ℕ, Option, Bool, String, ℤ}

pub record Official : Type 0 where
  pub type : Option ℤ
  pub desc : Option String
  pub role : Option ℤ
  pub title : Option String

-- `text` is the member of `label`.
pub record Label : Type 0 where
  pub text : Option String

-- `vip`, with the names of the Web reply; the App reply has `vipType` and `vipStatus`.
pub record Vip : Type 0 where
  pub type : Option ℤ
  pub status : Option ℤ
  pub label : Option Label

pub record Live : Type 0 where
  pub roomid : Option ℤ

-- `data` of the Web reply.
pub record WebUser : Type 0 where
  pub mid : Option ℤ
  pub name : Option String
  pub sex : Option String
  pub face : Option String
  pub sign : Option String
  pub level : Option ℤ
  pub official : Option Official
  pub vip : Option Vip
  pub live_room : Option Live

pub record LevelInfo : Type 0 where
  pub current_level : Option ℤ

-- `card` of the App reply.
pub record Card : Type 0 where
  pub mid : Option ℤ
  pub name : Option String
  pub sex : Option String
  pub face : Option String
  pub sign : Option String
  pub attention : Option ℤ
  pub fans : Option ℤ
  pub level_info : Option LevelInfo
  pub official_verify : Option Official
  pub vip : Option Vip
  pub is_deleted : Option ℤ

-- `data` of the App reply.
pub record AppUser : Type 0 where
  pub card : Option Card
  pub live : Option Live

-- A reply of the site, with its `data`.
pub record Root (Node : Type 0) : Type 0 where
  pub code : Option ℤ
  pub message : Option String
  pub node : Option Node

-- `is_ok` for the status SUCCESS with 200, `size` the length of the body, `json` what the reader
-- makes of the body.
pub record Response (Node : Type 0) : Type 0 where
  pub is_ok : Bool
  pub size : ℕ
  pub json : Option (Root Node)
