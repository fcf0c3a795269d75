-- ===== src/Server/Handlers/Process/Laws.antt =====
-- What a process of the server keeps, and what the next one takes over.
use mathlib.Core.Path.{subst}
use bili_user_spider.Prelude.{
  ◌≡◌, refl, List, [], Option, none, some, Bool, true, arith, ℤ, Option-cases, inl, inr,
}
use bili_user_spider.Server.Json.{Document, JsonText}
use bili_user_spider.Server.Config.File.{
  Configs, ConfigText, RootNode, are_valid, install, g_parse_from_json, parse_members,
  g_reload_config,
}
use bili_user_spider.Server.TaskManager.{TaskManager, load_document, read_data, write_data_to_file}
use bili_user_spider.Server.TaskManager.Cover.{pending}
use bili_user_spider.Server.TaskManager.Valid.{IsValid as TasksValid}
use bili_user_spider.Server.TaskManager.Archive.{fresh, restarted, read_data-write_data_to_file}
use bili_user_spider.Server.Handlers.Monad.{Server, Request, g_stop}
use bili_user_spider.Server.Handlers.Config.{configs_of}
use bili_user_spider.Server.Handlers.Serve.{Call, System, serve_all}
use bili_user_spider.Server.Handlers.Serve.Safe.{IsServing}
use bili_user_spider.Server.Handlers.Serve.Laws.{serve_all-IsServing}
use bili_user_spider.Server.Handlers.Process.{stopped, catch_ctrl_c, start_up, tear_down, process}

-- What is read and accepted is valid.
install-done :
    (root : RootNode) (old : Configs)
    → (install root old).1 ≡ true
    → are_valid (install root old).0 ≡ true
unfolding install g_parse_from_json parse_members
install-done root old h = ground arith

g_reload_config-done :
    (config : ConfigText) (file : Option config.Text) (old : Configs)
    → (g_reload_config config file old).1 ≡ true
    → are_valid (g_reload_config config file old).0 ≡ true
unfolding g_reload_config
g_reload_config-done config none old h = absurd (ground arith)
g_reload_config-done config (some text) old h = elim (Option-cases (config.parse text)) [
  | inl e ↦ absurd (ground (arith, e, h))
  | inr (root, e) ↦ ground (arith, e, install-done root old)
]

module _ (json : JsonText) where
  load_document-tasks :
      (d : Document) (t : TaskManager json.Text) → (load_document json d t).0.tasks ≡ t.tasks
  unfolding load_document
  load_document-tasks d t = ground arith

  read_data-tasks : (t : TaskManager json.Text) → (read_data json t).0.tasks ≡ t.tasks
  unfolding read_data
  read_data-tasks t = elim (Option-cases t.data_file) [
    | inl e ↦ ground (arith, e)
    | inr (text, e) ↦ elim (Option-cases (json.parse text)) [
      | inl k ↦ ground (arith, e, k)
      | inr (d, k) ↦ ground (arith, e, k, load_document-tasks d t)
    ]
  ]

  read_data-IsValid : (archive : Option json.Text) → TasksValid (read_data json (fresh archive)).0
  unfolding fresh
  read_data-IsValid archive =
      let e : (read_data json (fresh archive)).0.tasks ≡ [] = read_data-tasks (fresh archive) in
      record { ordered = rw e tt; fresh = rw e tt }

module _ (json : JsonText) (config : ConfigText) where
  -- The files of a server that comes up are accepted, and it starts on what they say.
  start_up-some :
      (globals : Configs) (file : Option config.Text) (archive : Option json.Text)
      (y : System json config)
      → start_up json config globals file archive ≡ some y
      → ((g_reload_config config file globals).1 ≡ true)
        × (record {
          server =
              stopped (g_reload_config config file globals).0 (read_data json (fresh archive)).0;
          file = file;
        }
            ≡ y)
  unfolding start_up
  start_up-some globals file archive y h = ground arith

  start_up-IsServing :
      (globals : Configs) (file : Option config.Text) (archive : Option json.Text)
      (y : System json config)
      → start_up json config globals file archive ≡ some y
      → IsServing y.server
  unfolding configs_of
  start_up-IsServing globals file archive y h =
      let (accepted, e) = start_up-some globals file archive y h in
      subst (λ (z : System json config). IsServing z.server) e
        (record {
          tasks = read_data-IsValid json archive;
          clients = record { ordered = tt; fresh = tt };
          configs = g_reload_config-done config file globals accepted;
        })

  tear_down-IsServing :
      (can_open : Bool) (s : Server json.Text)
      → IsServing s
      → IsServing (tear_down json config can_open (catch_ctrl_c s))
  unfolding tear_down catch_ctrl_c g_stop write_data_to_file configs_of
  tear_down-IsServing can_open s v = ground arith

  -- Whatever the two files hold, and whatever requests come, in whatever order and at whatever
  -- times, with the rounds of the client manager's thread between them: a server that comes up ends
  -- with the ids of the tasks and of the clients ascending and below the next ones to be given, and
  -- with four valid configurations.
  pub process-IsServing :
      (can_open : Bool) (calls : List (Call × Request)) (globals : Configs)
      (file : Option config.Text) (archive : Option json.Text) (z : System json config)
      → process json config can_open calls globals file archive ≡ some z
      → IsServing z.server
  unfolding process
  process-IsServing can_open calls globals file archive z h =
      elim (Option-cases (start_up json config globals file archive)) [
        | inl e ↦ absurd (ground (arith, e, h))
        | inr (y, e) ↦
            let served =
              serve_all-IsServing json config calls y
                (start_up-IsServing globals file archive y e) in
            let ended =
              tear_down-IsServing can_open (serve_all json config calls y).server served in
            ground (arith, e, h, ended)
      ]

  -- If the JSON library reads what it writes, the archive opens and the configuration is accepted:
  -- the process that is started behind one comes up, and each id waits in it in as many places as it
  -- did in the process that ended.
  pub start_up-tear_down :
      (parse_print : (d : Document) → json.parse (json.to_styled_string d) ≡ some d) (m : ℤ)
      (globals : Configs) (s : Server json.Text) (file : Option config.Text)
      → (g_reload_config config file globals).1 ≡ true
      → (y : System json config) × (start_up json config globals file
            (tear_down json config true s).task_mgr.data_file
          ≡ some y)
        × (pending m y.server.task_mgr ≡ pending m s.task_mgr)
        × (y.server.task_mgr.tasks ≡ [])
  unfolding start_up tear_down g_stop restarted fresh
  start_up-tear_down parse_print m globals s file accepted =
      let archive = (write_data_to_file json true s.task_mgr).0.data_file in
      let (takes, same) = read_data-write_data_to_file json parse_print m s.task_mgr in
      (
        record {
          server =
              stopped (g_reload_config config file globals).0 (read_data json (fresh archive)).0;
          file = file;
        },
        ground (arith, accepted, takes),
        same,
        rw takes refl,
      )
