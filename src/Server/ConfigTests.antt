-- ===== src/Server/ConfigTests.antt =====
-- The theorems on the configuration at concrete inputs.
use text.Mathlib.Text.{◌==◌ as str_eq}
use text.Mathlib.TextEquality.{eq_iff}
use bili_user_spider.Prelude.{
  ℕ, ◌⊎◌, ◌≡◌, refl, List, [], ◌∷◌, none, some, true, false, arith, if◌then◌else◌, pos,
}
use bili_user_spider.Prelude.OrdMap.{emplace, find}
use bili_user_spider.Server.Config.{
  ClientConfig, client_is_valid, in_range, database_is_valid, is_empty, proxy_is_valid,
  server_is_valid, has_first_ip, between, byte_length, utf8_size,
}
use bili_user_spider.Server.Convert.{codes}
use bili_user_spider.Server.Config.File.{
  Configs, RootNode, ConfigText, are_valid, root_of, g_reload_config, g_write_config,
}
use bili_user_spider.Server.Config.File.Laws.{g_reload_config-g_write_config}
use bili_user_spider.Server.Handlers.Monad.{Server, Request, check_password, check_secret, stop}
use bili_user_spider.Server.Handlers.Admin.{stops, admin}
use bili_user_spider.Server.Status.{missing_param, wrong_password}
use bili_user_spider.Server.Handlers.Config.{
  ConfigCall, sets_client, set_client, config_client_set, config_call, save, set_configs,
  configs_of, configure,
}
use bili_user_spider.Server.Handlers.Config.Laws.{configure-saved, changes_refused}
use bili_user_spider.Server.Config.Nodes.{
  parse_from_json, to_json, read_members, pairs_node, read_pairs, parse_from_json-to_json,
}

abbrev old_config : ClientConfig
old_config = record {
  bili_api_type = pos 0;
  main_task_step_times = pos 3;
  sub_task_step = pos 5;
  timeout = pos 3000;
  proxy_max_error_times = pos 10;
  mid_max_error_times = pos 3;
  interval_proxypool_sync = pos 5;
  proxy_sleeptime_map = (pos 50, pos 20) ∷ [];
}

-- Other sleep times: 30 seconds below 50 proxies, and 10 below 100.
abbrev new_config : ClientConfig
new_config = record old_config {
  timeout = pos 5000;
  proxy_sleeptime_map = (pos 50, pos 30) ∷ (pos 100, pos 10) ∷ [];
}

abbrev no_sleep : ClientConfig
no_sleep = record old_config { proxy_sleeptime_map = [] }

-- The old 20 seconds stay.
parse_from_json-to_json_example :
    let (new, done) = parse_from_json (to_json new_config) old_config in
    (done ≡ true)
    × (record new { proxy_sleeptime_map = [] } ≡ record new_config { proxy_sleeptime_map = [] })
    × (find (pos 50) new.proxy_sleeptime_map ≡ some (pos 20))
unfolding find
parse_from_json-to_json_example =
    parse_from_json-to_json (pos 50) new_config old_config (pos 50, pos 30) ((pos 100, pos 10) ∷ [])
      refl (tt, tt)

-- The four configurations of a server, with sleep times and without.
abbrev pub configs : Configs
configs = record {
  client = new_config;
  database = record { port = pos 3306; host = "db"; user = "u"; password = "p"; name = "bili" };
  proxy = record { order_id = "1"; user_id = "2"; interval_query = pos 10 };
  server = record {
    ips = "10.0.0.1" ∷ [];
    port = pos 8000;
    thread_pool_size = pos 8;
    admin_password = "password";
    client_token = "clienttoken";
    client_live_heartbeat = pos 120;
    interval_detect_client_live = pos 10;
    main_task_timeout = pos 600;
  };
}

abbrev without_sleep : Configs
without_sleep = record configs { client = no_sleep }

-- A JSON library whose texts are the documents.
abbrev pub direct : ConfigText
direct = record { Text = RootNode; parse = λ d. some d; to_styled_string = λ d. d }

-- A server with these configurations, and a request of the administrator for another interval.
abbrev pub running : Server (List ℕ)
running = record {
  is_running = true;
  http_running = true;
  client_config = configs.client;
  db_config = configs.database;
  proxy_config = configs.proxy;
  svr_config = configs.server;
  task_mgr = record {
    tasks = [];
    tasks_recycled = [];
    task_id_current = pos 0;
    mid_start = pos 1;
    mid_current = pos 1;
    mid_end = pos 1001;
    data_file = none;
    last_time_write_to_file = pos 0;
  };
  client_mgr = record { current_client_id = pos 0; bg_thread_quit = false; clients = [] };
}

abbrev pub request : Request
request = record {
  param = λ name. if str_eq name "pwd" then "password" else "20";
  host = "10.0.0.2";
  task_now = pos 0;
  client_now = pos 0;
  can_open = true;
}

running-valid : are_valid (configs_of running) ≡ true
unfolding are_valid client_is_valid in_range configs_of database_is_valid is_empty proxy_is_valid
    server_is_valid has_first_ip between byte_length utf8_size codes
running-valid = refl

pub saved : g_reload_config direct (some (root_of configs)) configs ≡ (configs_of running, true)
unfolding g_write_config configs_of
saved =
    g_reload_config-g_write_config direct configs configs none (λ root. refl) running-valid
      (λ e. absurd (ground arith)) ((omega arith, tt), (tt, tt))

abbrev set_old : ConfigCall
set_old = sets_client (some (to_json old_config))

configure-saved_example :
    let (u, written, _) = configure direct set_old request true (some (root_of configs)) running in
    g_reload_config direct written configs ≡ (configs_of u, true)
unfolding configure save config_call config_client_set check_password check_secret is_empty
    set_client parse_from_json to_json read_members pairs_node read_pairs emplace client_is_valid
    in_range set_configs configs_of
configure-saved_example =
    configure-saved direct set_old request (some (root_of configs)) running configs (λ root. refl)
      running-valid saved (λ e. absurd (ground arith)) (tt, tt)

-- The same request without the password.
abbrev stranger : Request
stranger = record request { param = λ _. "20" }

changes_refused_example :
    ((admin stops stranger running ≡ (running, stop missing_param))
      ⊎ (admin stops stranger running ≡ (running, stop wrong_password)))
    × ((configure direct set_old stranger true none running ≡ (running, none, stop missing_param))
        ⊎ (configure direct set_old stranger true none running
            ≡ (running, none, stop wrong_password)))
changes_refused_example =
    changes_refused direct stops set_old stranger true none running
      (ground (arith, eq_iff "20" "password"))
