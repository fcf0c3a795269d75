-- ===== src/Server/ProcessTests.antt =====
-- The theorems on a process of the server at concrete inputs.
use text.Mathlib.Text.{◌==◌ as str_eq}
use bili_user_spider.Prelude.{if◌then◌else◌, ◌≡◌, refl, List, [], ◌∷◌, some, true, pos}
use bili_user_spider.Server.Json.{Document, JsonText}
use bili_user_spider.Server.Config.File.{root_of}
use bili_user_spider.Server.TaskManager.{TaskManager, read_data, load_document, read_nodes}
use bili_user_spider.Server.TaskManager.Archive.{fresh}
use bili_user_spider.Server.TaskManager.Cover.{pending}
use bili_user_spider.Server.Handlers.Monad.{Request}
use bili_user_spider.Server.Handlers.Admin.{starts}
use bili_user_spider.Server.Handlers.Config.{configs_of, sets_proxy}
use bili_user_spider.Server.Handlers.Serve.{
  Call, joins, gets_task, commits_task, administers, configures, detects, System, serve_all,
}
use bili_user_spider.Server.Handlers.Serve.Safe.{IsServing}
use bili_user_spider.Server.Handlers.Process.{stopped, catch_ctrl_c, start_up, tear_down, process}
use bili_user_spider.Server.Handlers.Process.Laws.{process-IsServing, start_up-tear_down}
use bili_user_spider.Server.ConfigTests.{configs, direct, request, saved}

-- A JSON library whose texts are the documents.
abbrev plain : JsonText
plain = record { Text = Document; parse = λ d. some d; to_styled_string = λ d. d }

-- The ids 1 to 200 were assigned when the last process ended, and those from 401 on were not.
abbrev last : Document
last = record {
  task_id_current = some (pos 4);
  mid_current = some (pos 401);
  mid_end = some (pos 1001);
  tasks = some ((record { start = some (pos 1); end = some (pos 201) }) ∷ []);
}

abbrev taken : TaskManager Document
taken = record {
  tasks = [];
  tasks_recycled = (pos 1, pos 201) ∷ [];
  task_id_current = pos 4;
  mid_start = pos 401;
  mid_current = pos 401;
  mid_end = pos 1001;
  data_file = some last;
  last_time_write_to_file = pos 0;
}

abbrev up : System plain direct
up = record { server = stopped configs taken; file = some (root_of configs) }

comes_up : start_up plain direct configs (some (root_of configs)) (some last) ≡ some up
unfolding start_up read_data load_document read_nodes fresh configs_of
comes_up = rw saved refl

-- The right secrets, and 0 for every number.
abbrev right : Request
right = record request {
  param = λ name.
      if str_eq name "pwd" then "password" else if str_eq name "token" then "clienttoken" else "0";
}

-- The administrator starts it, a client joins, takes a task and commits it, and a round of the
-- client manager's thread throws the client out.
abbrev requests : List (Call × Request)
requests =
    (administers starts, right)
    ∷ (joins, right)
    ∷ (gets_task, right)
    ∷ (commits_task, right)
    ∷ (configures sets_proxy, right)
    ∷ (detects, record right { client_now = pos 500 })
    ∷ []

abbrev ended : System plain direct
ended =
    let z = serve_all plain direct requests up in
    record z { server = tear_down plain direct true (catch_ctrl_c z.server) }

ends : process plain direct true requests configs (some (root_of configs)) (some last) ≡ some ended
unfolding process
ends = rw (comes_up, process) refl

process-IsServing_example : IsServing ended.server
process-IsServing_example =
    process-IsServing plain direct true requests configs (some (root_of configs)) (some last) ended
      ends

start_up-tear_down_example :
    (y : System plain direct) × (start_up plain direct configs
        (some (root_of configs))
        (tear_down plain direct true up.server).task_mgr.data_file
      ≡ some y)
    × (pending (pos 7) y.server.task_mgr ≡ pending (pos 7) taken)
    × (y.server.task_mgr.tasks ≡ [])
start_up-tear_down_example =
    start_up-tear_down plain direct (λ d. refl) (pos 7) configs up.server (some (root_of configs))
      (rw saved refl)
