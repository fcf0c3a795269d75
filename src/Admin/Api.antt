-- ===== src/Admin/Api.antt =====
-- The calls of the server by the administration program: api_base.cpp, api_server.cpp and
-- api_config.cpp of Admin/src/api, and SpiderClientInfo::parseFromJson of
-- Admin/src/client/spider_client_info.cpp. Its config.cpp reads like the server's.
pub mod Replies
use bili_user_spider.Prelude.{
  List, [], ◌∷◌, ◌++◌, Option, none, some, Bool, true, false, if◌then◌else◌, String, ℤ, pos, ltb_ℤ,
  ◌==ℤ◌,
}
use bili_user_spider.Client.Api.{Got, got, broke, request_error, internal_server_error}
use bili_user_spider.Server.Config.{ClientConfig, DatabaseConfig, ProxyConfig, ServerConfig}
use bili_user_spider.Server.Config.Nodes.{ClientNode, parse_from_json as parse_client}
use bili_user_spider.Server.Config.File.{
  Configs, RootNode, DatabaseNode, ProxyNode, ServerNode, parse_database, parse_proxy, parse_server,
  g_parse_from_json,
}
use bili_user_spider.Admin.Table.{SpiderClientInfo}

-- A reply of the server; `none` is a member that is missing or null.
pub record Document (Data : Type 0) : Type 0 where
  pub code : Option ℤ
  pub msg : Option String
  pub status : Option Bool
  pub data_node : Option Data

-- `is_ok` for the status SUCCESS with 200.
pub record Response (Data : Type 0) : Type 0 where
  pub is_ok : Bool
  pub json : Option (Document Data)

-- `http_get` and `http_post`, which read the response alike; the result is the document.
unfoldable pub http_get : {Data : Type 0} → Response Data → Got (Document Data)
http_get r =
    if r.is_ok
    then elim r.json [
      | none ↦ broke internal_server_error
      | some doc ↦ elim doc.code [
        | none ↦ broke internal_server_error
        | some code ↦ elim doc.msg [
          | none ↦ broke internal_server_error
          | some msg ↦ if code ==ℤ pos 0 then got doc else broke code
        ]
      ]
    ]
    else broke request_error

-- The calls that give back no more than `ret`: `api_start_server`, `api_stop_server`,
-- `api_shutdown_server`, `api_quit_client`, `api_set_task_range` and the setters.
unfoldable pub api_call : {Data : Type 0} → Response Data → ℤ
api_call r = elim (http_get r) [ broke ret ↦ ret | got doc ↦ pos 0 ]

-- `api_connect_to_server` and `api_server_status`: `ret`, and `*status` where it is set.
unfoldable pub api_status : {Data : Type 0} → Response Data → ℤ × Option Bool
api_status r = elim (http_get r) [
  | broke ret ↦ (ret, none)
  | got doc ↦ elim doc.status [
    | none ↦ (internal_server_error, none)
    | some status ↦ (pos 0, some status)
  ]
]

pub record InfoNode : Type 0 where
  pub id : Option ℤ
  pub os : Option String
  pub host : Option String
  pub join_time : Option ℤ
  pub heartbeat : Option ℤ
  pub threads : Option ℤ
  pub count : Option ℤ
  pub avg : Option ℤ
  pub avg_3m : Option ℤ
  pub avg_5m : Option ℤ
  pub avg_10m : Option ℤ
  pub avg_30m : Option ℤ

-- A negative speed is taken for .001.
unfoldable pub not_negative : ℤ → ℤ
not_negative v = if ltb_ℤ v (pos 0) then pos 1 else v

abbrev read_info :
    Option ℤ
    → Option String
    → Option String
    → Option ℤ
    → Option ℤ
    → Option ℤ
    → Option ℤ
    → Option ℤ
    → Option ℤ
    → Option ℤ
    → Option ℤ
    → Option ℤ
    → Option SpiderClientInfo
read_info (some id) (some os) (some host) (some join_time) (some _) (some threads) (some count)
      (some avg) (some avg_3m) (some avg_5m) (some avg_10m) (some avg_30m) =
    some (record {
      id = id;
      threads = threads;
      count = count;
      join_time = join_time;
      average_speed = not_negative avg;
      average_speed_3m = not_negative avg_3m;
      average_speed_5m = not_negative avg_5m;
      average_speed_10m = not_negative avg_10m;
      average_speed_30m = not_negative avg_30m;
      os = os;
      host = host;
    })
read_info _ _ _ _ _ _ _ _ _ _ _ _ = none

unfoldable pub parse_from_json : InfoNode → Option SpiderClientInfo
parse_from_json n =
    read_info n.id n.os n.host n.join_time n.heartbeat n.threads n.count n.avg n.avg_3m n.avg_5m
      n.avg_10m n.avg_30m

-- The loop over the clients; one that cannot be read ends it.
unfoldable pub read_clients : List InfoNode → List SpiderClientInfo → List SpiderClientInfo
read_clients [] infos = infos
read_clients (node ∷ nodes) infos = elim (parse_from_json node) [
  | none ↦ infos
  | some info ↦ read_clients nodes (infos ++ info ∷ [])
]

-- `api_get_clients_info`: `ret`, `*status` where it is set, and `*clientsInfo`. The `ret` of a client
-- that cannot be read is overwritten behind the loop.
unfoldable pub api_get_clients_info :
    Response (List InfoNode) → List SpiderClientInfo → ℤ × Option Bool × List SpiderClientInfo
api_get_clients_info r infos = elim (http_get r) [
  | broke ret ↦ (ret, none, infos)
  | got doc ↦ elim doc.status [
    | none ↦ (internal_server_error, none, infos)
    | some status ↦ elim doc.data_node [
      | none ↦ (pos 0, some status, infos)
      | some nodes ↦ (pos 0, some status, read_clients nodes infos)
    ]
  ]
]

pub record ProgressNode : Type 0 where
  pub mid_start : Option ℤ
  pub mid_end : Option ℤ
  pub mid_current : Option ℤ

abbrev read_progress : Option ℤ → Option ℤ → Option ℤ → Option (ℤ × ℤ × ℤ)
read_progress (some start) (some end) (some current) = some (start, end, current)
read_progress _ _ _ = none

-- `api_get_task_progress`: `ret`, `*status` and the three numbers where they are set.
unfoldable pub api_get_task_progress : Response ProgressNode → ℤ × Option Bool × Option (ℤ × ℤ × ℤ)
api_get_task_progress r = elim (http_get r) [
  | broke ret ↦ (ret, none, none)
  | got doc ↦ elim doc.status [
    | none ↦ (internal_server_error, none, none)
    | some status ↦ elim doc.data_node [
      | none ↦ (internal_server_error, none, none)
      | some node ↦ elim (read_progress node.mid_start node.mid_end node.mid_current) [
        | none ↦ (internal_server_error, some status, none)
        | some numbers ↦ (pos 0, some status, some numbers)
      ]
    ]
  ]
]

-- `http_get`, and the check for `data`.
unfoldable pub get_data : {Data : Type 0} → Response Data → Got Data
get_data r = elim (http_get r) [
  | broke ret ↦ broke ret
  | got doc ↦ elim doc.data_node [ none ↦ broke internal_server_error | some d ↦ got d ]
]

unfoldable pub api_get_client_config : Response ClientNode → ClientConfig → ℤ × ClientConfig
api_get_client_config r config = elim (get_data r) [
  | broke ret ↦ (ret, config)
  | got node ↦
      let (config', done) = parse_client node config in
      (if done then pos 0 else internal_server_error, config')
]

-- In the other three a configuration that is read ends with the error.
unfoldable pub api_get_database_config : Response DatabaseNode → DatabaseConfig → ℤ × DatabaseConfig
api_get_database_config r config = elim (get_data r) [
  | broke ret ↦ (ret, config)
  | got node ↦
      let (config', done) = parse_database node config in
      (if done then internal_server_error else pos 0, config')
]

unfoldable pub api_get_proxy_config : Response ProxyNode → ProxyConfig → ℤ × ProxyConfig
api_get_proxy_config r config = elim (get_data r) [
  | broke ret ↦ (ret, config)
  | got node ↦
      let (config', done) = parse_proxy node config in
      (if done then internal_server_error else pos 0, config')
]

unfoldable pub api_get_server_config : Response ServerNode → ServerConfig → ℤ × ServerConfig
api_get_server_config r config = elim (get_data r) [
  | broke ret ↦ (ret, config)
  | got node ↦
      let (config', done) = parse_server node config in
      (if done then internal_server_error else pos 0, config')
]

unfoldable pub api_get_advance_config : Response RootNode → Configs → ℤ × Configs
api_get_advance_config r configs = elim (get_data r) [
  | broke ret ↦ (ret, configs)
  | got root ↦
      let (configs', done) = g_parse_from_json root false configs in
      (if done then pos 0 else internal_server_error, configs')
]
