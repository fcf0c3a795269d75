-- ===== src/Server/Handlers/Serve/Laws.antt =====
-- Every request, in any order, keeps the server in order.
use bili_user_spider.Prelude.{◌≡◌, List, [], ◌∷◌, Option, Bool, true, ℤ}
use bili_user_spider.Server.Json.{JsonText}
use bili_user_spider.Server.Config.File.{Configs, ConfigText, are_valid}
use bili_user_spider.Server.ClientManager.{detect_dead, leave}
use bili_user_spider.Server.ClientManager.Laws.{detect_dead-IsValid}
use bili_user_spider.Server.Handlers.Monad.{Server, Request, Payload, Outcome, pass, stop, reply}
use bili_user_spider.Server.Handlers.Config.{
  ConfigCall, configs_of, set_configs, config_call, save, configure,
}
use bili_user_spider.Server.Handlers.Config.Laws.{configure-valid, config_call-same}
use bili_user_spider.Server.Handlers.Serve.{
  Call, joins, quits, gets_task, commits_task, administers, configures, detects, leaves, System,
  serve, serve_all,
}
use bili_user_spider.Server.Handlers.Serve.Safe.{IsServing, clients-IsServing, leave-IsValid}
use bili_user_spider.Server.Handlers.Serve.Kept.{
  client_join-Safe, client_quit-Safe, g_stop-IsServing, admin-Safe, task_get-Safe, task_commit-Safe,
}

module _ (json : JsonText) where
  set_configs-IsServing :
      (c : Configs) (s : Server json.Text)
      → IsServing s
      → are_valid (configs_of (set_configs c s)) ≡ true
      → IsServing (set_configs c s)
  unfolding set_configs
  set_configs-IsServing c s v ok = record { tasks = v.tasks; clients = v.clients; configs = ok }

module _ (json : JsonText) (config : ConfigText) where
  save-IsServing :
      (can_open : Bool) (file : Option config.Text)
      (r : Server json.Text × Outcome (Configs × Payload))
      → IsServing r.0
      → are_valid (configs_of (save config can_open file r).0) ≡ true
      → IsServing (save config can_open file r).0
  unfolding save
  save-IsServing can_open file (s, pass (c, p)) v ok = set_configs-IsServing json c s v ok
  save-IsServing can_open file (s, stop code) v ok = v
  save-IsServing can_open file (s, reply p) v ok = v

  configure-IsServing :
      (call : ConfigCall) (req : Request) (file : Option config.Text) (s : Server json.Text)
      → IsServing s
      → IsServing (configure config call req req.can_open file s).0
  unfolding configure
  configure-IsServing call req file s v =
      save-IsServing req.can_open file (config_call call req s)
        (rw (config_call-same call req s v.configs) v)
        (configure-valid config call req req.can_open file s v.configs)

  detect-IsServing :
      (now limit : ℤ) (s : Server json.Text)
      → IsServing s
      → IsServing (record s { client_mgr = detect_dead now limit s.client_mgr })
  detect-IsServing now limit s v =
      clients-IsServing s _ v (detect_dead-IsValid now limit s.client_mgr v.clients)

  serve-IsServing :
      (call : Call) (req : Request) (y : System json config)
      → IsServing y.server
      → IsServing (serve json config call req y).server
  unfolding serve
  serve-IsServing joins req y v = (client_join-Safe req).keeps y.server v
  serve-IsServing quits req y v = (client_quit-Safe req).keeps y.server v
  serve-IsServing gets_task req y v = (task_get-Safe json req).keeps y.server v
  serve-IsServing commits_task req y v = (task_commit-Safe json req).keeps y.server v
  serve-IsServing (administers call) req y v = (admin-Safe call req).keeps y.server v
  serve-IsServing (configures call) req y v = configure-IsServing call req y.file y.server v
  serve-IsServing detects req y v =
      detect-IsServing req.client_now y.server.svr_config.client_live_heartbeat y.server v
  serve-IsServing leaves req y v =
      g_stop-IsServing (record y.server { client_mgr = leave y.server.client_mgr })
        (clients-IsServing y.server (leave y.server.client_mgr) v
          (leave-IsValid y.server.client_mgr v.clients))

  -- Whatever requests come, in whatever order and at whatever times, with the rounds of the client
  -- manager's thread between them: the ids of the tasks and of the clients keep ascending and stay
  -- below the next ones to be given, and the four configurations stay valid.
  pub serve_all-IsServing :
      (calls : List (Call × Request)) (y : System json config)
      → IsServing y.server
      → IsServing (serve_all json config calls y).server
  unfolding serve_all
  serve_all-IsServing [] y v = v
  serve_all-IsServing ((call, req) ∷ calls) y v =
      serve_all-IsServing calls (serve json config call req y) (serve-IsServing call req y v)
