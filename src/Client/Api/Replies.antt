-- ===== src/Client/Api/Replies.antt =====
-- The replies of the server as the client reads them: the macros of BiliUserSpiderServer/src/uri/base.h
-- and the documents of uri/task.cpp and uri/client.cpp, and what comes of them in the client's calls.
use bili_user_spider.Prelude.{
  ◌≡◌, ◌≢◌, refl, [], ◌∷◌, none, some, true, arith, ℤ, pos, List-cases, inl, inr, map, ◌≤ℤ◌, ◌<ℤ◌,
  ◌^◌,
}
use bili_user_spider.Prelude.OrdMap.{OrdMap, emplace}
use bili_user_spider.Client.Types.{MainTask}
use bili_user_spider.Client.Json.{as_uint_same}
use bili_user_spider.Server.Status.{StatusCode, no_error, code, get_err_msg}
use bili_user_spider.Server.Config.{ClientConfig, DatabaseConfig}
use bili_user_spider.Server.Config.Nodes.{to_json, pairs_node, pair_node, read_pairs}
use bili_user_spider.Server.Config.File.{database_to_json, parse_database, temporaries}
use bili_user_spider.Server.TaskManager.{Assignment}
use bili_user_spider.Client.Api.{
  Document, Response, TaskData, ConnectData, JoinData, http_get, get_data, got, broke, parse_client,
  api_get_task, api_commit_task, asked_stop, api_connect_to_server, api_client_join,
}

-- `RETURN_CODE(code)`, and `RETURN_OK()` with `data`.
unfoldable pub return_code : {Data : Type 0} → StatusCode → Document Data
return_code c = record { code = some (pos (code c)); msg = some (get_err_msg c); data_node = none }

unfoldable pub return_ok : {Data : Type 0} → Data → Document Data
return_ok d = record { code = some (pos 0); msg = some "OK"; data_node = some d }

-- `data` of `task_get`, `task_commit`, `client_connect` and `client_join`.
unfoldable pub task_data : Assignment → ClientConfig → ℤ → TaskData
task_data a config should_quit = record {
  task = some (record { start = some a.mid_start; end = some a.mid_end; id = some a.task_id });
  client_config = some (to_json config);
  should_quit = some should_quit;
}

unfoldable pub commit_data : ClientConfig → ℤ → TaskData
commit_data config should_quit = record {
  task = none;
  client_config = some (to_json config);
  should_quit = some should_quit;
}

unfoldable pub connect_data : ClientConfig → DatabaseConfig → ConnectData
connect_data config db = record {
  client_config = some (to_json config);
  db_config = some (database_to_json db);
}

unfoldable pub join_data : ℤ → JoinData
join_data id = record { id = some id }

-- A reply that arrives.
abbrev pub arrives : {Data : Type 0} → Document Data → Response Data
arrives d = record { is_ok = true; json = some d }

get_data-return_ok : {Data : Type 0} (d : Data) → get_data (arrives (return_ok d)) ≡ got d
unfolding get_data http_get return_ok
get_data-return_ok d = refl

get_data-return_code :
    {Data : Type 0} (c : StatusCode)
    → c ≢ no_error
    → get_data {Data = Data} (arrives (return_code c)) ≡ broke (pos (code c))
unfolding get_data http_get return_code code
get_data-return_code c h = ground arith

-- A refused request leaves the client's task and configuration alone and gives the server's code.
pub api_get_task-return_code :
    (c : StatusCode) (main : MainTask) (old : ClientConfig)
    → c ≢ no_error
    → api_get_task (arrives (return_code c)) main old ≡ some (pos (code c), main, old)
unfolding api_get_task
api_get_task-return_code c main old h = ground (arith, get_data-return_code {Data = TaskData} c h)

read_pairs-done : (ps m : OrdMap ℤ) → (read_pairs (map pair_node ps) m).1 ≡ true
unfolding read_pairs
read_pairs-done [] m = refl
read_pairs-done ((a, b) ∷ ps) m = read_pairs-done ps (emplace a b m)

parse_client-to_json :
    (config old : ClientConfig)
    → config.proxy_sleeptime_map ≢ []
    → let (new, done) = parse_client (to_json config) old in
      (done ≡ true)
      × (record new { proxy_sleeptime_map = [] } ≡ record config { proxy_sleeptime_map = [] })
unfolding parse_client to_json pairs_node
parse_client-to_json config old some_time = elim (List-cases config.proxy_sleeptime_map) [
  | inl e ↦ absurd (some_time e)
  | inr (p, ps, e) ↦ rw e (read_pairs-done (p ∷ ps) old.proxy_sleeptime_map, refl)
]

-- A range whose ends are an `int` and not negative.
abbrev pub IsRange : Assignment → Type 0
IsRange a =
    ((pos 0 ≤ℤ a.mid_start) × (a.mid_start <ℤ pos (2 ^ 31)))
    × ((pos 0 ≤ℤ a.mid_end) × (a.mid_end <ℤ pos (2 ^ 31)))

-- The task that the server gives out is the one that the client works on, from its first user on,
-- if the ends of its range are from 0 to the largest int; and the numbers of the configuration are
-- the server's, where that has a sleep time.
pub api_get_task-task_data :
    (a : Assignment) (config : ClientConfig) (should_quit : ℤ) (main : MainTask)
    (old : ClientConfig)
    → IsRange a
    → config.proxy_sleeptime_map ≢ []
    → (new : ClientConfig) × (api_get_task
          (arrives (return_ok (task_data a config should_quit)))
          main
          old
        ≡ some (
          pos 0,
          record {
            id = a.task_id;
            mid_start = a.mid_start;
            mid_end = a.mid_end;
            completed = pos 0;
          },
          new,
        ))
      × (record new { proxy_sleeptime_map = [] } ≡ record config { proxy_sleeptime_map = [] })
unfolding api_get_task task_data get_data http_get return_ok
api_get_task-task_data a config q main old fits some_time =
    let parsed = parse_client-to_json config old some_time in
    (
      (parse_client (to_json config) old).0,
      ground (
        arith,
        parsed.0,
        as_uint_same a.mid_start fits.0.0 fits.0.1,
        as_uint_same a.mid_end fits.1.0 fits.1.1,
      ),
      parsed.1,
    )

-- A commit that the server answers stops the client exactly as the server says: 2 at once, 1
-- smoothly, anything else not at all.
pub api_commit_task-commit_data :
    (config : ClientConfig) (should_quit : ℤ) (old : ClientConfig)
    → config.proxy_sleeptime_map ≢ []
    → let (ret, _, stop) =
        api_commit_task (arrives (return_ok (commit_data config should_quit))) old in
      (ret ≡ pos 0) × (stop ≡ asked_stop should_quit)
unfolding api_commit_task commit_data get_data http_get return_ok
api_commit_task-commit_data config q old some_time =
    let parsed = parse_client-to_json config old some_time in ground (arith, parsed.0)

-- A client that connects has the server's numbers and the server's database, and one that joins the
-- id that the server gave it.
pub api_connect_to_server-connect_data :
    (config : ClientConfig) (db : DatabaseConfig) (old : ClientConfig) (old_db : DatabaseConfig)
    (id client_id : ℤ)
    → config.proxy_sleeptime_map ≢ []
    → let (ret, new, new_db) =
        api_connect_to_server (arrives (return_ok (connect_data config db))) old old_db in
      (ret ≡ pos 0)
      × (record new { proxy_sleeptime_map = [] } ≡ record config { proxy_sleeptime_map = [] })
      × (new_db ≡ db)
      × (api_client_join (arrives (return_ok (join_data id))) client_id ≡ (pos 0, id))
unfolding api_connect_to_server connect_data get_data http_get return_ok parse_database
    database_to_json api_client_join join_data
api_connect_to_server-connect_data config db old old_db id client_id some_time =
    let parsed = parse_client-to_json config temporaries.client some_time in
    (ground (arith, parsed.0), ground (arith, parsed.0, parsed.1), ground (arith, parsed.0), refl)
