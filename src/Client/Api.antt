-- ===== src/Client/Api.antt =====
-- The client's calls of the server, BiliUserSpiderClient/src/api, with `parseFromJson` of the client's
-- config/config.cpp: what they make of a response. `ClientConfig` and `DatabaseConfig` have the same
-- members as the server's.
pub mod Replies
use bili_user_spider.Prelude.{
  ℕ, List, [], ◌∷◌, Option, none, some, Bool, true, false, if◌then◌else◌, String, ℤ, pos, ◌==ℤ◌,
}
use bili_user_spider.Client.Types.{
  ApiCode, no_error, server_stopped, other_error, StopMode, smooth, force, MainTask,
}
use bili_user_spider.Client.Json.{as_uint}
use bili_user_spider.Server.Config.{ClientConfig, DatabaseConfig}
use bili_user_spider.Server.Config.Nodes.{ClientNode, read_pairs}
use bili_user_spider.Server.Config.File.{DatabaseNode, parse_database, temporaries}

-- A reply of the server with its `data`; `none` is a member that is missing or null.
pub record Document (Data : Type 0) : Type 0 where
  pub code : Option ℤ
  pub msg : Option String
  pub data_node : Option Data

-- `is_ok` for the status SUCCESS with 200.
pub record Response (Data : Type 0) : Type 0 where
  pub is_ok : Bool
  pub json : Option (Document Data)

pub record TaskNode : Type 0 where
  pub start : Option ℤ
  pub end : Option ℤ
  pub id : Option ℤ

pub record TaskData : Type 0 where
  pub task : Option TaskNode
  pub client_config : Option ClientNode
  pub should_quit : Option ℤ

pub record ConnectData : Type 0 where
  pub client_config : Option ClientNode
  pub db_config : Option DatabaseNode

pub record JoinData : Type 0 where
  pub id : Option ℤ

abbrev pub request_error : ℤ
request_error = pos 100

abbrev pub internal_server_error : ℤ
internal_server_error = pos 101

-- A `do` block: the `ret` that it breaks with, or its `root["data"]`.
pub data Got (Data : Type 0) : Type 0 where
  got : Data → Got Data
  broke : ℤ → Got Data

-- `http_get`; the result is the document.
unfoldable pub http_get : {Data : Type 0} → Response Data → Got (Document Data)
http_get r =
    if r.is_ok
    then elim r.json [
      | none ↦ broke internal_server_error
      | some doc ↦ elim doc.code [
        | none ↦ broke internal_server_error
        | some code ↦ elim doc.msg [
          | none ↦ broke internal_server_error
          | some msg ↦ if code ==ℤ pos 0 then got doc else broke code
        ]
      ]
    ]
    else broke request_error

-- `http_get`, and the check for `data`.
unfoldable pub get_data : {Data : Type 0} → Response Data → Got Data
get_data r = elim (http_get r) [
  | broke ret ↦ broke ret
  | got doc ↦ elim doc.data_node [ none ↦ broke internal_server_error | some d ↦ got d ]
]

abbrev or_zero : Option ℤ → ℤ
or_zero none = pos 0
or_zero (some n) = n

abbrev read_client :
    Option ℤ
    → Option ℤ
    → Option ℤ
    → Option ℤ
    → Option ℤ
    → Option ℤ
    → Option ℤ
    → Option (List (List ℤ))
    → ClientConfig
    → ClientConfig × Bool
read_client api (some times) (some step) (some time) (some proxy) (some mid) (some sync)
      (some pairs) old =
    let (sleeptimes, done) = read_pairs pairs old.proxy_sleeptime_map in
    (
      record {
        bili_api_type = or_zero api;
        main_task_step_times = times;
        sub_task_step = step;
        timeout = time;
        proxy_max_error_times = proxy;
        mid_max_error_times = mid;
        interval_proxypool_sync = sync;
        proxy_sleeptime_map = sleeptimes;
      },
      done,
    )
read_client _ _ _ _ _ _ _ _ old = (old, false)

-- The client's `ClientConfig::parseFromJson`, which does without `bili_api_type`.
unfoldable pub parse_client : ClientNode → ClientConfig → ClientConfig × Bool
parse_client n old =
    read_client n.bili_api_type n.main_task_step_times n.sub_task_step n.timeout
      n.proxy_max_error_times n.mid_max_error_times n.interval_proxypool_sync n.proxy_sleeptime_map
      old

-- `api_get_task`: `ret`, and what it leaves in `*mainTask` and `*clientConfig`; `none` where a number
-- that is read as unsigned throws, which nobody catches.
unfoldable pub api_get_task :
    Response TaskData → MainTask → ClientConfig → Option (ℤ × MainTask × ClientConfig)
api_get_task r main config = elim (get_data r) [
  | broke ret ↦ some (ret, main, config)
  | got d ↦ elim d.task [
    | none ↦ some (internal_server_error, main, config)
    | some t ↦ elim d.client_config [
      | none ↦ some (internal_server_error, main, config)
      | some node ↦ elim t.start [
        | none ↦ some (internal_server_error, main, config)
        | some start ↦ elim t.end [
          | none ↦ some (internal_server_error, main, config)
          | some end ↦ elim t.id [
            | none ↦ some (internal_server_error, main, config)
            | some id ↦ elim (as_uint start) [
              | none ↦ none
              | some mid_start ↦ elim (as_uint end) [
                | none ↦ none
                | some mid_end ↦
                    let main' : MainTask = record {
                      id = id;
                      mid_start = mid_start;
                      mid_end = mid_end;
                      completed = pos 0;
                    } in
                    let (config', done) = parse_client node config in
                    some (if done then pos 0 else internal_server_error, main', config')
              ]
            ]
          ]
        ]
      ]
    ]
  ]
]

unfoldable pub asked_stop : ℤ → Option StopMode
asked_stop n = if n ==ℤ pos 2 then some force else if n ==ℤ pos 1 then some smooth else none

-- `api_commit_task`: `ret`, `*clientConfig`, and the call of `g_stop`.
unfoldable pub api_commit_task :
    Response TaskData → ClientConfig → ℤ × ClientConfig × Option StopMode
api_commit_task r config = elim (get_data r) [
  | broke ret ↦ (ret, config, none)
  | got d ↦ elim d.client_config [
    | none ↦ (internal_server_error, config, none)
    | some node ↦ elim d.should_quit [
      | none ↦ (internal_server_error, config, none)
      | some n ↦
          let (config', done) = parse_client node config in
          if done then (pos 0, config', asked_stop n) else (internal_server_error, config', none)
    ]
  ]
]

-- `api_connect_to_server`: `ret`, and the two globals.
unfoldable pub api_connect_to_server :
    Response ConnectData → ClientConfig → DatabaseConfig → ℤ × ClientConfig × DatabaseConfig
api_connect_to_server r client db = elim (get_data r) [
  | broke ret ↦ (ret, client, db)
  | got d ↦ elim d.client_config [
    | none ↦ (internal_server_error, client, db)
    | some client_node ↦ elim d.db_config [
      | none ↦ (internal_server_error, client, db)
      | some db_node ↦
          let (client', client_done) = parse_client client_node temporaries.client in
          let (db', db_done) = parse_database db_node temporaries.database in
          if client_done
          then (if db_done then (pos 0, client', db') else (internal_server_error, client', db))
          else (internal_server_error, client, db)
    ]
  ]
]

-- `api_client_join`: `ret`, and `*clientId`.
unfoldable pub api_client_join : Response JoinData → ℤ → ℤ × ℤ
api_client_join r client_id = elim (get_data r) [
  | broke ret ↦ (ret, client_id)
  | got d ↦ elim d.id [ none ↦ (internal_server_error, client_id) | some id ↦ (pos 0, id) ]
]

unfoldable pub api_client_quit : Response (Unit {0}) → ℤ
api_client_quit r = elim (http_get r) [ broke ret ↦ ret | got d ↦ pos 0 ]

unfoldable pub api_get_client_config : Response ClientNode → ClientConfig → ℤ × ClientConfig
api_get_client_config r config = elim (get_data r) [
  | broke ret ↦ (ret, config)
  | got node ↦
      let (config', done) = parse_client node config in
      (if done then pos 0 else internal_server_error, config')
]

-- A node that is read ends with the error.
unfoldable pub api_get_database_config : Response DatabaseNode → DatabaseConfig → ℤ × DatabaseConfig
api_get_database_config r config = elim (get_data r) [
  | broke ret ↦ (ret, config)
  | got node ↦
      let (config', done) = parse_database node config in
      (if done then internal_server_error else pos 0, config')
]

-- The codes that the task manager tells apart.
unfoldable pub api_code : ℤ → ApiCode
api_code ret =
    if ret ==ℤ pos 0 then no_error else if ret ==ℤ pos 2 then server_stopped else other_error
