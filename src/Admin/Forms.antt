-- ===== src/Admin/Forms.antt =====
-- The input boxes for the configuration: updateAllConfig, onSetClientConfig, onSetDbConfig,
-- onSetProxyConfig and onSetServerConfig of Admin/src/spidermanager.cpp, as far as they read and fill
-- the boxes, and the dialog of Admin/src/dialog/proxy_sleeptime_map_dialog.cpp.
pub mod Laws
use bili_user_spider.Prelude.{
  List, [], ◌∷◌, Option, none, some, Bool, true, false, ◌||◌, if◌then◌else◌, String, ℤ, pos, ◌==ℤ◌,
}
use bili_user_spider.Prelude.OrdMap.{OrdMap, emplace}
use bili_user_spider.Server.Config.{
  ClientConfig, DatabaseConfig, ProxyConfig, ServerConfig, is_empty,
}

-- `QString::number` and `QString::toInt`; `toUInt` gives the same for the numbers of a port.
pub record Qt : Type 0 where
  pub number : ℤ → String
  pub to_int : String → ℤ

-- A line of the dialog: a number of proxies, and a time.
pub record Line : Type 0 where
  pub proxies_count : String
  pub sleep_time : String

pub record SleepTimeDialog : Type 0 where
  pub line0 : Line
  pub line1 : Line
  pub line2 : Line

-- `Web` and `App`; `App` is checked if `is_web` is not. `times` is the button that is checked.
pub data Times : Type 0 where
  once twice thrice : Times

pub record ClientForm : Type 0 where
  pub is_web : Bool
  pub times : Times
  pub sub_task_step : String
  pub timeout : String
  pub proxy_max_error : String
  pub mid_max_error : String
  pub interval_proxypool_sync : String
  pub dialog : SleepTimeDialog

pub record DatabaseForm : Type 0 where
  pub host : String
  pub port : String
  pub user : String
  pub password : String
  pub name : String

pub record ProxyForm : Type 0 where
  pub order_code : String
  pub user_id : String
  pub interval_query : String

pub record ServerForm : Type 0 where
  pub max_live_heartbeat : String
  pub interval_detect_client_live : String
  pub main_task_timeout : String

module _ (qt : Qt) where
  unfoldable pub add_line : Line → OrdMap ℤ → OrdMap ℤ
  add_line l m =
      if is_empty l.proxies_count || is_empty l.sleep_time
      then m
      else emplace (qt.to_int l.proxies_count) (qt.to_int l.sleep_time) m

  unfoldable pub get_map : SleepTimeDialog → OrdMap ℤ
  get_map d = add_line d.line2 (add_line d.line1 (add_line d.line0 []))

  unfoldable pub line_of : ℤ × ℤ → Line
  line_of (count, time) = record { proxies_count = qt.number count; sleep_time = qt.number time }

  -- The lines for which there is no entry stay.
  unfoldable pub set_map : OrdMap ℤ → SleepTimeDialog → SleepTimeDialog
  set_map [] d = d
  set_map (p ∷ []) d = record d { line0 = line_of p }
  set_map (p ∷ q ∷ []) d = record d { line0 = line_of p; line1 = line_of q }
  set_map (p ∷ q ∷ r ∷ _) d = record { line0 = line_of p; line1 = line_of q; line2 = line_of r }

  unfoldable pub times_of : ℤ → Times
  times_of n = if n ==ℤ pos 1 then once else if n ==ℤ pos 2 then twice else thrice

  -- The client's part of `updateAllConfig`.
  unfoldable pub show_client : ClientConfig → ClientForm → ClientForm
  show_client c f = record {
    is_web = c.bili_api_type ==ℤ pos 0;
    times = times_of c.main_task_step_times;
    sub_task_step = qt.number c.sub_task_step;
    timeout = qt.number c.timeout;
    proxy_max_error = qt.number c.proxy_max_error_times;
    mid_max_error = qt.number c.mid_max_error_times;
    interval_proxypool_sync = qt.number c.interval_proxypool_sync;
    dialog = set_map c.proxy_sleeptime_map f.dialog;
  }

  unfoldable pub show_database : DatabaseConfig → DatabaseForm
  show_database c = record {
    host = c.host;
    port = qt.number c.port;
    user = c.user;
    password = c.password;
    name = c.name;
  }

  unfoldable pub show_proxy : ProxyConfig → ProxyForm
  show_proxy c = record {
    order_code = c.order_id;
    user_id = c.user_id;
    interval_query = qt.number c.interval_query;
  }

  unfoldable pub show_server : ServerConfig → ServerForm
  show_server c = record {
    max_live_heartbeat = qt.number c.client_live_heartbeat;
    interval_detect_client_live = qt.number c.interval_detect_client_live;
    main_task_timeout = qt.number c.main_task_timeout;
  }

  unfoldable pub number_of : Times → ℤ
  number_of once = pos 1
  number_of twice = pos 2
  number_of thrice = pos 3

  -- What the setters post; `none` where a box is empty.
  unfoldable pub client_of : ClientForm → Option ClientConfig
  client_of f =
      if is_empty f.sub_task_step
        || is_empty f.timeout
        || is_empty f.proxy_max_error
        || is_empty f.mid_max_error
        || is_empty f.interval_proxypool_sync
      then none
      else some (record {
        bili_api_type = if f.is_web then pos 0 else pos 1;
        main_task_step_times = number_of f.times;
        sub_task_step = qt.to_int f.sub_task_step;
        timeout = qt.to_int f.timeout;
        proxy_max_error_times = qt.to_int f.proxy_max_error;
        mid_max_error_times = qt.to_int f.mid_max_error;
        interval_proxypool_sync = qt.to_int f.interval_proxypool_sync;
        proxy_sleeptime_map = get_map f.dialog;
      })

  unfoldable pub database_of : DatabaseForm → Option DatabaseConfig
  database_of f =
      if is_empty f.host
        || is_empty f.port
        || is_empty f.user
        || is_empty f.password
        || is_empty f.name
      then none
      else some (record {
        port = qt.to_int f.port;
        host = f.host;
        user = f.user;
        password = f.password;
        name = f.name;
      })

  unfoldable pub proxy_of : ProxyForm → Option ProxyConfig
  proxy_of f =
      if is_empty f.order_code || is_empty f.interval_query
      then none
      else some (record {
        order_id = f.order_code;
        user_id = f.user_id;
        interval_query = qt.to_int f.interval_query;
      })

  -- The members that have no box are those of the object that `fresh` stands for, which is not
  -- initialised.
  unfoldable pub server_of : ServerConfig → ServerForm → Option ServerConfig
  server_of fresh f =
      if is_empty f.max_live_heartbeat
        || is_empty f.interval_detect_client_live
        || is_empty f.main_task_timeout
      then none
      else some (record fresh {
        client_live_heartbeat = qt.to_int f.max_live_heartbeat;
        interval_detect_client_live = qt.to_int f.interval_detect_client_live;
        main_task_timeout = qt.to_int f.main_task_timeout;
      })
