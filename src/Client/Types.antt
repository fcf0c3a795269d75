-- ===== src/Client/Types.antt =====
-- The data of the client's task manager, BiliUserSpiderClient/src/task/task.h, bili/user.h and
-- status/status_code.h, and what lies outside the client as a parameter.
use bili_user_spider.Prelude.{List, Option, Bool, String, ℤ, ◌-ℤ◌, leb_ℤ}

-- The codes that a call of the server can end with, as far as the task manager tells them apart.
pub data ApiCode : Type 0 where
  no_error server_stopped other_error : ApiCode

pub data StopMode : Type 0 where
  smooth force : StopMode

pub record UserInfo : Type 0 where
  pub sex : ℤ
  pub level : ℤ
  pub vip_status : ℤ
  pub vip_type : ℤ
  pub official_type : ℤ
  pub official_role : ℤ
  pub is_deleted : ℤ
  pub attention : ℤ
  pub fans : ℤ
  pub mid : ℤ
  pub lid : ℤ
  pub name : String
  pub face : String
  pub sign : String
  pub vip_label : String
  pub official_desc : String
  pub official_title : String

pub record MainTask : Type 0 where
  pub id : ℤ
  pub mid_start : ℤ
  pub mid_end : ℤ
  pub completed : ℤ

unfoldable pub is_completed : MainTask → Bool
is_completed t = leb_ℤ (t.mid_end -ℤ t.mid_start) t.completed

pub record SubTask : Type 0 where
  pub main_task_id : ℤ
  pub mids : List ℤ

-- A table, by the two numbers of its name.
pub record Table : Type 0 where
  pub start : ℤ
  pub end : ℤ

-- An INSERT IGNORE of rows of the one kind or the other.
pub data Statement : Type 0 where
  insert_ok : Table → List UserInfo → Statement
  insert_none : Table → List ℤ → Statement

-- The two numbers of the client configuration that the task manager reads.
pub record Steps : Type 0 where
  pub sub_task_step : ℤ
  pub main_task_step_times : ℤ

-- What `api_get_task` leaves: its code, and the main task and the configuration that it may have
-- overwritten.
pub record Fetched : Type 0 where
  pub code : ApiCode
  pub main_task : MainTask
  pub steps : Steps

-- What `api_commit_task` leaves: its code, the configuration, and whether the server asks to stop.
pub record Reported : Type 0 where
  pub code : ApiCode
  pub steps : Steps
  pub stop : Option StopMode

-- The server, the network and the database, as a state that the calls change. `api_get_task` is
-- given the count, the number of users crawled so far, the current main task and the configuration;
-- `api_commit_task` the id, the number of users and the configuration. `name_lt` is the order of
-- the names of two tables as texts.
pub record Outside : Type 1 where
  pub World : Type 0
  pub api_get_task : ℤ → ℤ → MainTask → Steps → World → World × Fetched
  pub api_commit_task : ℤ → ℤ → Steps → World → World × Reported
  pub mysql_is_bad : World → Bool
  pub mysql_query : Statement → World → World × Bool
  pub name_lt : Table → Table → Bool
