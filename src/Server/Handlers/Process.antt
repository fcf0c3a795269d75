-- ===== src/Server/Handlers/Process.antt =====
-- The server from its start to its end: `main` and `catchCtrlC` of BiliUserSpiderServer/src/main.cpp
-- with the HTTP server that it starts, and the destructor of the task manager, which runs behind
-- `main`. What `main` registers for a path is in `Serve`.
pub mod Laws
use bili_user_spider.Prelude.{List, [], Option, none, some, Bool, true, false, if◌then◌else◌, pos}
use bili_user_spider.Server.Json.{JsonText}
use bili_user_spider.Server.Config.File.{Configs, ConfigText, g_reload_config}
use bili_user_spider.Server.TaskManager.{TaskManager, read_data, write_data_to_file}
use bili_user_spider.Server.TaskManager.Archive.{fresh}
use bili_user_spider.Server.ClientManager.{ClientManager}
use bili_user_spider.Server.Handlers.Monad.{Server, Request, g_stop}
use bili_user_spider.Server.Handlers.Serve.{Call, System, serve_all}

-- The client manager of a process that has just started.
abbrev pub no_clients : ClientManager
no_clients = record { current_client_id = pos 0; bg_thread_quit = true; clients = [] }

-- The server on the configurations that were read; it does not run until server_start.
abbrev pub stopped : {Text : Type 0} → Configs → TaskManager Text → Server Text
stopped c tasks = record {
  is_running = false;
  http_running = true;
  client_config = c.client;
  db_config = c.database;
  proxy_config = c.proxy;
  svr_config = c.server;
  task_mgr = tasks;
  client_mgr = no_clients;
}

module _ {Text : Type 0} where
  -- The instances are not deleted here: what their destructors do to this state, `stop` has done.
  unfoldable pub catch_ctrl_c : Server Text → Server Text
  catch_ctrl_c s = record (g_stop s) { http_running = false }

module _ (json : JsonText) (config : ConfigText) where
  -- `main` up to `start_sync`, on config/config.json and data/task.json; `none` is the exit code 1.
  -- `globals` are the configurations that no one has set.
  unfoldable pub start_up :
      Configs → Option config.Text → Option json.Text → Option (System json config)
  start_up globals file archive =
      let (c, configured) = g_reload_config config file globals in
      let (tasks, restored) = read_data json (fresh archive) in
      if configured
      then (if restored then some (record { server = stopped c tasks; file = file }) else none)
      else none

  -- `~TaskManager`.
  unfoldable pub tear_down : Bool → Server json.Text → Server json.Text
  tear_down can_open s =
      g_stop (record s { task_mgr = (write_data_to_file json can_open s.task_mgr).0 })

  -- A process that handles these requests and is then stopped at its console; `none` is one that
  -- does not come up.
  unfoldable pub process :
      Bool
      → List (Call × Request)
      → Configs
      → Option config.Text
      → Option json.Text
      → Option (System json config)
  process can_open calls globals file archive = elim (start_up globals file archive) [
    | none ↦ none
    | some y ↦
        let z = serve_all json config calls y in
        some (record z { server = tear_down can_open (catch_ctrl_c z.server) })
  ]
