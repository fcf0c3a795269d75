-- ===== src/Server/HandlerTests.antt =====
-- The theorems on the handlers at concrete inputs.
use text.Mathlib.TextEquality.{eq_iff}
use bili_user_spider.Prelude.{
  ◌≡◌, refl, ◌≢◌, [], ◌∷◌, none, some, true, false, arith, String, pos, ◌-ℤ◌, ◌+ℤ◌,
}
use bili_user_spider.Prelude.OrdMap.{find}
use bili_user_spider.Server.Json.{Document, JsonText}
use bili_user_spider.Server.Status.{client_disconnect}
use bili_user_spider.Server.TaskManager.{
  Range, TaskManager, new_task, get_task, take_range, assign_range, write_if_due, next_range,
  write_data_to_file,
}
use bili_user_spider.Server.Config.{is_empty}
use bili_user_spider.Server.Convert.{
  convert, signed, skip_space, codes, is_space, fits, unsigned, is_digit, digits,
}
use bili_user_spider.Server.Handlers.Monad.{Server, Request, stop}
use bili_user_spider.Server.Handlers.Client.{task_get, env_of, clamp}
use bili_user_spider.Server.Handlers.Laws.{Gives, task_get_disconnected}

-- A JSON library whose texts are the documents.
abbrev direct : JsonText
direct = record { Text = Document; parse = λ d. some d; to_styled_string = λ d. d }

abbrev idle_tasks : TaskManager Document
idle_tasks = record {
  tasks = [];
  tasks_recycled = [];
  task_id_current = pos 0;
  mid_start = pos 1;
  mid_current = pos 1;
  mid_end = pos 1001;
  data_file = none;
  last_time_write_to_file = pos 0;
}

-- A running server without clients.
abbrev server : Server Document
server = record {
  is_running = true;
  http_running = true;
  client_config = record {
    bili_api_type = pos 0;
    main_task_step_times = pos 3;
    sub_task_step = pos 5;
    timeout = pos 3000;
    proxy_max_error_times = pos 10;
    mid_max_error_times = pos 3;
    interval_proxypool_sync = pos 5;
    proxy_sleeptime_map = [];
  };
  db_config = record { port = pos 3306; host = "db"; user = "u"; password = "p"; name = "bili" };
  proxy_config = record { order_id = "1"; user_id = "2"; interval_query = pos 10 };
  svr_config = record {
    ips = "10.0.0.1" ∷ [];
    port = pos 8000;
    thread_pool_size = pos 8;
    admin_password = "password";
    client_token = "clienttoken";
    client_live_heartbeat = pos 120;
    interval_detect_client_live = pos 10;
    main_task_timeout = pos 600;
  };
  task_mgr = idle_tasks;
  client_mgr = record { current_client_id = pos 0; bg_thread_quit = false; clients = [] };
}

-- A request whose parameters are all the number 7.
abbrev sevens : Request
sevens = record {
  param = λ _. "7";
  host = "10.0.0.9";
  task_now = pos 100;
  client_now = pos 100;
  can_open = true;
}

sevens-Gives : (name : String) → Gives sevens name (pos 7)
unfolding is_empty convert signed skip_space codes is_space fits unsigned is_digit digits
sevens-Gives name = (refl, refl)

not_the_password : sevens.param "pwd" ≢ server.svr_config.admin_password
not_the_password = ground (arith, eq_iff "7" "password")

task_get_disconnected_example :
    ((task_get direct sevens server).1 ≡ stop client_disconnect)
    × (find (pos 0) idle_tasks.tasks ≡ none)
    × ((r : Range) × (find (pos 0) (task_get direct sevens server).0.task_mgr.tasks
          ≡ some (new_task (env_of sevens server) (pos 7) r)))
unfolding get_task env_of take_range assign_range write_if_due next_range ◌-ℤ◌ ◌+ℤ◌ clamp
    write_data_to_file find
task_get_disconnected_example =
    task_get_disconnected direct sevens server (pos 7) (pos 7) (pos 7) (sevens-Gives "client_id")
      (sevens-Gives "commit_all") (sevens-Gives "count") refl
      (record { task_id = pos 0; mid_start = pos 1; mid_end = pos 8 })
      (record { ordered = tt; fresh = tt }) refl refl
