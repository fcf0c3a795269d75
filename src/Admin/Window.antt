-- ===== src/Admin/Window.antt =====
-- The window of the administration program, Admin/src/spidermanager.h and .cpp: its slots, one at a
-- time, and its background thread. A slot is given the answers to its calls, by the number of the
-- attempt, with `none` or `false` for a call that does not return NO_ERROR. A question that is asked
-- first is a slot of its own end: other slots can come while it is open.
pub mod Consistent
pub mod Laws
use bili_user_spider.Prelude.{
  ℕ, zero, suc, List, [], ◌∷◌, Option, none, some, Bool, true, false, not, ◌&&◌, ◌||◌,
  if◌then◌else◌, ℤ, pos, negsuc, ltb_ℤ,
}
use bili_user_spider.Server.Config.{ServerConfig}
use bili_user_spider.Server.Config.File.{Configs}
use bili_user_spider.Admin.Table.{
  SpiderClientInfo, Column, Table, show_clients_info, on_horizontal_header_clicked,
  on_horizontal_header_double_clicked, clear_contents,
}
use bili_user_spider.Admin.Forms.{
  Qt, ClientForm, DatabaseForm, ProxyForm, ServerForm, show_client, show_database, show_proxy,
  show_server, client_of, database_of, proxy_of, server_of,
}

-- The background thread: in its loop, or behind it with its flag not yet set.
pub data Thread : Type 0 where
  absent looping leaving : Thread

-- The buttons and boxes stand for whether they are enabled. `is_svr_connected`, `is_svr_running` and
-- `configs` are globals.
pub record Window : Type 0 where
  pub is_svr_connected : Bool
  pub is_svr_running : Bool
  pub edit_server_addr : Bool
  pub btn_connect : Bool
  pub btn_disconnect : Bool
  pub btn_start : Bool
  pub btn_stop : Bool
  pub btn_shutdown : Bool
  pub edit_mid_start : Bool
  pub edit_mid_current : Bool
  pub edit_mid_end : Bool
  pub client_config_box : Bool
  pub db_config_box : Bool
  pub proxy_config_box : Bool
  pub svr_config_box : Bool
  pub task_range_box : Bool
  pub table : Table
  pub configs : Configs
  pub client_form : ClientForm
  pub database_form : DatabaseForm
  pub proxy_form : ProxyForm
  pub server_form : ServerForm
  pub progress : Option (ℤ × ℤ × ℤ)
  pub proxy_pool_size : Option ℤ
  pub has_db_pool : Bool
  pub thread : Thread
  pub is_bg_thread_quit : Bool
  pub should_close : Bool

-- The loop over at most `n` attempts, from number `i` on: the first answer that is one.
unfoldable pub first_of : {A : Type 0} → ℕ → ℕ → (ℕ → Option A) → Option A
first_of zero i answers = none
first_of (suc n) i answers =
    let rest = first_of n (suc i) answers in elim (answers i) [ none ↦ rest | some a ↦ some a ]

unfoldable pub any_of : ℕ → ℕ → (ℕ → Bool) → Bool
any_of zero i answers = false
any_of (suc n) i answers = let rest = any_of n (suc i) answers in if answers i then true else rest

unfoldable pub on_server_connected : Window → Window
on_server_connected w = record w {
  is_svr_connected = true;
  edit_server_addr = false;
  btn_connect = false;
  btn_disconnect = true;
  btn_shutdown = true;
  btn_start = not w.is_svr_running;
  btn_stop = w.is_svr_running;
  edit_mid_start = not w.is_svr_running;
  edit_mid_current = not w.is_svr_running;
  edit_mid_end = true;
  client_config_box = true;
  db_config_box = true;
  proxy_config_box = true;
  svr_config_box = true;
  task_range_box = true;
}

unfoldable pub on_server_disconnected : Window → Window
on_server_disconnected w = record w {
  is_svr_connected = false;
  edit_server_addr = true;
  btn_connect = true;
  btn_disconnect = false;
  btn_start = false;
  btn_stop = false;
  btn_shutdown = false;
  table = clear_contents w.table;
  client_config_box = false;
  db_config_box = false;
  proxy_config_box = false;
  svr_config_box = false;
  task_range_box = false;
}

unfoldable pub on_server_started : Window → Window
on_server_started w = record w {
  is_svr_running = true;
  edit_server_addr = false;
  btn_connect = false;
  btn_disconnect = true;
  btn_start = false;
  btn_stop = true;
  btn_shutdown = true;
  edit_mid_start = false;
  edit_mid_current = false;
  edit_mid_end = true;
}

unfoldable pub on_server_stopped : Window → Window
on_server_stopped w = record w {
  is_svr_running = false;
  edit_server_addr = false;
  btn_connect = false;
  btn_disconnect = true;
  btn_start = true;
  btn_stop = false;
  btn_shutdown = true;
  edit_mid_start = true;
  edit_mid_current = true;
  edit_mid_end = true;
}

unfoldable pub on_server_shutdown : Window → Window
on_server_shutdown w = on_server_disconnected (record w { is_svr_running = false })

unfoldable pub start_thread : Window → Window
start_thread w =
    if w.is_bg_thread_quit then record w { is_bg_thread_quit = false; thread = looping } else w

module _ (qt : Qt) where
  unfoldable pub update_all_config : Configs → Window → Window
  update_all_config c w = record w {
    configs = c;
    client_form = show_client qt c.client w.client_form;
    database_form = show_database qt c.database;
    proxy_form = show_proxy qt c.proxy;
    server_form = show_server qt c.server;
  }

  -- Whether an address is given, whether the server says that it runs, its configurations, and
  -- whether the database can be connected to.
  unfoldable pub on_connect : Bool → Option Bool → (ℕ → Option Configs) → Bool → Window → Window
  on_connect has_addr running configs db_ok w =
      if has_addr
      then elim running [
        | none ↦ w
        | some status ↦
            let w' = record w { is_svr_running = status } in
            elim (first_of 3 0 configs) [
              | none ↦ w'
              | some c ↦
                  start_thread
                    (on_server_connected (record (update_all_config c w') { has_db_pool = db_ok }))
            ]
      ]
      else w

  unfoldable pub on_set_client_config : (ℕ → Bool) → Window → Window
  on_set_client_config answers w = elim (client_of qt w.client_form) [
    | none ↦ w
    | some c ↦
        if any_of 5 0 answers then record w { configs = record w.configs { client = c } } else w
  ]

  unfoldable pub on_set_db_config : (ℕ → Bool) → Bool → Window → Window
  on_set_db_config answers db_ok w = elim (database_of qt w.database_form) [
    | none ↦ w
    | some c ↦
        if any_of 5 0 answers
        then record w { configs = record w.configs { database = c }; has_db_pool = db_ok }
        else w
  ]

  unfoldable pub on_set_proxy_config : (ℕ → Bool) → Window → Window
  on_set_proxy_config answers w = elim (proxy_of qt w.proxy_form) [
    | none ↦ w
    | some c ↦
        if any_of 5 0 answers then record w { configs = record w.configs { proxy = c } } else w
  ]

  unfoldable pub on_set_server_config : ServerConfig → (ℕ → Bool) → Window → Window
  on_set_server_config fresh answers w = elim (server_of qt fresh w.server_form) [
    | none ↦ w
    | some c ↦
        if any_of 5 0 answers then record w { configs = record w.configs { server = c } } else w
  ]

unfoldable pub on_disconnect : Window → Window
on_disconnect w = on_server_disconnected w

unfoldable pub on_start : (ℕ → Bool) → Window → Window
on_start answers w = if any_of 3 0 answers then on_server_started w else w

unfoldable pub on_stop : Bool → (ℕ → Bool) → Window → Window
on_stop confirmed answers w = if confirmed && any_of 3 0 answers then on_server_stopped w else w

unfoldable pub on_shutdown : Bool → (ℕ → Bool) → Window → Window
on_shutdown confirmed answers w =
    if confirmed && any_of 3 0 answers then on_server_shutdown w else w

-- The answers tell whether the server runs, and its clients. Without a connection none is asked for.
unfoldable pub on_update_clients_info :
    ℤ → (ℕ → Option (Bool × List SpiderClientInfo)) → Window → Window
on_update_clients_info now answers w =
    let cleared = record w { table = record w.table { clients_info = [] } } in
    elim (first_of (if w.is_svr_connected then 3 else 0) 0 answers) [
      | none ↦ on_disconnect cleared
      | some (status, infos) ↦
          let w' = if status then cleared else on_server_stopped cleared in
          record w' {
            table = show_clients_info true now (record w'.table { clients_info = infos });
          }
    ]

unfoldable pub on_update_progress : (ℕ → Option (Bool × (ℤ × ℤ × ℤ))) → Window → Window
on_update_progress answers w = elim (first_of 3 0 answers) [
  | none ↦ on_disconnect w
  | some (status, mids) ↦ record (if status then w else on_server_stopped w) {
    progress = some mids;
  }
]

-- `instance_ok` says that a connection of the pool can be had.
unfoldable pub on_update_proxy_pool_size : Bool → (ℕ → Option ℤ) → Window → Window
on_update_proxy_pool_size instance_ok answers w =
    if w.has_db_pool && instance_ok
    then elim (first_of 10 0 answers) [ none ↦ w | some n ↦ record w { proxy_pool_size = some n } ]
    else w

unfoldable pub on_empty_proxy_pool : Bool → Bool → (ℕ → Bool) → Window → Window
on_empty_proxy_pool confirmed instance_ok answers w =
    if confirmed && (w.has_db_pool && instance_ok) && any_of 5 0 answers
    then record w { proxy_pool_size = some (pos 0) }
    else w

unfoldable pub close_event : Window → Window
close_event w = record w { is_svr_connected = false; should_close = true }

-- What happens to the window.
pub data Event : Type 0 where
  connects : Bool → Option Bool → (ℕ → Option Configs) → Bool → Event
  disconnects : Event
  starts : (ℕ → Bool) → Event
  stops shuts_down : Bool → (ℕ → Bool) → Event
  sets_client sets_proxy : (ℕ → Bool) → Event
  sets_database : (ℕ → Bool) → Bool → Event
  sets_server : ServerConfig → (ℕ → Bool) → Event
  updates_clients_info : ℤ → (ℕ → Option (Bool × List SpiderClientInfo)) → Event
  updates_progress : (ℕ → Option (Bool × (ℤ × ℤ × ℤ))) → Event
  updates_pool_size : Bool → (ℕ → Option ℤ) → Event
  empties_pool : Bool → Bool → (ℕ → Bool) → Event
  clicks : Column → ℤ → Event
  double_clicks : Column → Event
  opens_menu closes_menu closes thread_leaves thread_ends : Event

unfoldable pub lock : Bool → Window → Window
lock is_locked w = record w { table = record w.table { is_locked = is_locked } }

-- The end of the loop of `backgroundThread`, where its condition fails, and its last line.
unfoldable pub leave : Window → Window
leave w = elim w.thread [
  | looping ↦ if w.should_close || not w.is_svr_connected then record w { thread = leaving } else w
  | absent ↦ w
  | leaving ↦ w
]

unfoldable pub end_thread : Window → Window
end_thread w = elim w.thread [
  | leaving ↦ record w { thread = absent; is_bg_thread_quit = true }
  | absent ↦ w
  | looping ↦ w
]

module _ (qt : Qt) where
  -- A button that is disabled cannot be clicked.
  unfoldable pub handle : Event → Window → Window
  handle (connects has_addr running configs db_ok) w =
      if w.btn_connect then on_connect qt has_addr running configs db_ok w else w
  handle disconnects w = if w.btn_disconnect then on_disconnect w else w
  handle (starts answers) w = if w.btn_start then on_start answers w else w
  handle (stops confirmed answers) w = on_stop confirmed answers w
  handle (shuts_down confirmed answers) w = on_shutdown confirmed answers w
  handle (sets_client answers) w = on_set_client_config qt answers w
  handle (sets_proxy answers) w = on_set_proxy_config qt answers w
  handle (sets_database answers db_ok) w = on_set_db_config qt answers db_ok w
  handle (sets_server fresh answers) w = on_set_server_config qt fresh answers w
  handle (updates_clients_info now answers) w = on_update_clients_info now answers w
  handle (updates_progress answers) w = on_update_progress answers w
  handle (updates_pool_size instance_ok answers) w = on_update_proxy_pool_size instance_ok answers w
  handle (empties_pool confirmed instance_ok answers) w =
      on_empty_proxy_pool confirmed instance_ok answers w
  handle (clicks col now) w = record w { table = on_horizontal_header_clicked col now w.table }
  handle (double_clicks col) w = record w {
    table = on_horizontal_header_double_clicked col w.table;
  }
  handle opens_menu w = lock true w
  handle closes_menu w = lock false w
  handle closes w = close_event w
  handle thread_leaves w = leave w
  handle thread_ends w = end_thread w

  unfoldable pub run : List Event → Window → Window
  run [] w = w
  run (e ∷ es) w = run es (handle e w)
