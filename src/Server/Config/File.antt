-- ===== src/Server/Config/File.antt =====
-- config/config.json: the other `parseFromJson` and `toJson` of BiliUserSpiderServer/src/config,
-- `g_parse_from_json`, `g_realod_config` and `g_write_config`. jsoncpp is a parameter.
pub mod Laws
use bili_user_spider.Prelude.{
  List, [], ◌∷◌, ◌++◌, Option, none, some, Bool, true, false, not, ◌&&◌, ◌||◌, if◌then◌else◌,
  String, ℤ, pos,
}
use bili_user_spider.Server.Config.{
  ClientConfig, DatabaseConfig, ProxyConfig, ServerConfig, client_is_valid, database_is_valid,
  proxy_is_valid, server_is_valid,
}
use bili_user_spider.Server.Config.Nodes.{ClientNode, parse_from_json, to_json}

-- `none` is a member that is missing or null, here and below.
pub record DatabaseNode : Type 0 where
  pub host : Option String
  pub port : Option ℤ
  pub name : Option String
  pub user : Option String
  pub password : Option String

pub record ProxyNode : Type 0 where
  pub order_id : Option String
  pub user_id : Option String
  pub interval_query : Option ℤ

pub record ServerNode : Type 0 where
  pub ip : Option (List String)
  pub port : Option ℤ
  pub admin_password : Option String
  pub client_token : Option String
  pub thread_pool_size : Option ℤ
  pub client_live_heartbeat : Option ℤ
  pub interval_detect_client_live : Option ℤ
  pub main_task_timeout : Option ℤ

pub record RootNode : Type 0 where
  pub client : Option ClientNode
  pub database : Option DatabaseNode
  pub proxy : Option ProxyNode
  pub server : Option ServerNode

-- The four globals, or the four temporaries.
pub record Configs : Type 0 where
  pub client : ClientConfig
  pub database : DatabaseConfig
  pub proxy : ProxyConfig
  pub server : ServerConfig

abbrev read_database :
    Option String
    → Option ℤ
    → Option String
    → Option String
    → Option String
    → DatabaseConfig
    → DatabaseConfig × Bool
read_database (some host) (some port) (some user) (some password) (some name) old =
    (record { port = port; host = host; user = user; password = password; name = name }, true)
read_database _ _ _ _ _ old = (old, false)

unfoldable pub parse_database : DatabaseNode → DatabaseConfig → DatabaseConfig × Bool
parse_database n old = read_database n.host n.port n.user n.password n.name old

abbrev read_proxy : Option String → Option String → Option ℤ → ProxyConfig → ProxyConfig × Bool
read_proxy (some order_id) (some user_id) (some interval) old =
    (record { order_id = order_id; user_id = user_id; interval_query = interval }, true)
read_proxy _ _ _ old = (old, false)

unfoldable pub parse_proxy : ProxyNode → ProxyConfig → ProxyConfig × Bool
parse_proxy n old = read_proxy n.order_id n.user_id n.interval_query old

-- The addresses come behind those that are there; an empty array is refused.
abbrev read_server :
    Option (List String)
    → Option ℤ
    → Option ℤ
    → Option ℤ
    → Option ℤ
    → Option ℤ
    → Option String
    → Option String
    → ServerConfig
    → ServerConfig × Bool
read_server (some (ip ∷ ips)) (some port) (some threads) (some timeout) (some heartbeat)
      (some interval) (some password) (some token) old =
    (
      record {
        ips = old.ips ++ ip ∷ ips;
        port = port;
        thread_pool_size = threads;
        admin_password = password;
        client_token = token;
        client_live_heartbeat = heartbeat;
        interval_detect_client_live = interval;
        main_task_timeout = timeout;
      },
      true,
    )
read_server _ _ _ _ _ _ _ _ old = (old, false)

unfoldable pub parse_server : ServerNode → ServerConfig → ServerConfig × Bool
parse_server n old =
    read_server n.ip n.port n.thread_pool_size n.main_task_timeout n.client_live_heartbeat
      n.interval_detect_client_live n.admin_password n.client_token old

unfoldable pub database_to_json : DatabaseConfig → DatabaseNode
database_to_json c = record {
  host = some c.host;
  port = some c.port;
  name = some c.name;
  user = some c.user;
  password = some c.password;
}

unfoldable pub proxy_to_json : ProxyConfig → ProxyNode
proxy_to_json c = record {
  order_id = some c.order_id;
  user_id = some c.user_id;
  interval_query = some c.interval_query;
}

-- A Json::Value to which nothing is appended stays null.
unfoldable pub server_to_json : ServerConfig → ServerNode
server_to_json c = record {
  ip = elim c.ips [ [] ↦ none | ip ∷ ips ↦ some (ip ∷ ips) ];
  port = some c.port;
  admin_password = some c.admin_password;
  client_token = some c.client_token;
  thread_pool_size = some c.thread_pool_size;
  client_live_heartbeat = some c.client_live_heartbeat;
  interval_detect_client_live = some c.interval_detect_client_live;
  main_task_timeout = some c.main_task_timeout;
}

unfoldable pub are_valid : Configs → Bool
are_valid c =
    client_is_valid c.client
    && database_is_valid c.database
    && proxy_is_valid c.proxy
    && server_is_valid c.server

-- Once no member of the root is null: one after the other, up to the first that fails.
unfoldable pub parse_members :
    ClientNode → DatabaseNode → ProxyNode → ServerNode → Bool → Configs → Configs × Bool
parse_members client database proxy server check_valid old =
    let (c, c_done) = parse_from_json client old.client in
    let (d, d_done) = parse_database database old.database in
    let (p, p_done) = parse_proxy proxy old.proxy in
    let (s, s_done) = parse_server server old.server in
    let new : Configs = record { client = c; database = d; proxy = p; server = s } in
    if not c_done
    then (record old { client = c }, false)
    else if not d_done
    then (record old { client = c; database = d }, false)
    else if not p_done
    then (record old { client = c; database = d; proxy = p }, false)
    else if not s_done
    then (new, false)
    else (new, not check_valid || are_valid new)

unfoldable pub g_parse_from_json : RootNode → Bool → Configs → Configs × Bool
g_parse_from_json root check_valid old = elim root.client [
  | none ↦ (old, false)
  | some client ↦ elim root.database [
    | none ↦ (old, false)
    | some database ↦ elim root.proxy [
      | none ↦ (old, false)
      | some proxy ↦ elim root.server [
        | none ↦ (old, false)
        | some server ↦ parse_members client database proxy server check_valid old
      ]
    ]
  ]
]

-- The new objects that a document is read into. Their numbers and texts are never read: they are
-- all set, or the object is thrown away.
abbrev pub temporaries : Configs
temporaries = record {
  client = record {
    bili_api_type = pos 0;
    main_task_step_times = pos 0;
    sub_task_step = pos 0;
    timeout = pos 0;
    proxy_max_error_times = pos 0;
    mid_max_error_times = pos 0;
    interval_proxypool_sync = pos 0;
    proxy_sleeptime_map = [];
  };
  database = record { port = pos 0; host = ""; user = ""; password = ""; name = "" };
  proxy = record { order_id = ""; user_id = ""; interval_query = pos 0 };
  server = record {
    ips = [];
    port = pos 0;
    thread_pool_size = pos 0;
    admin_password = "";
    client_token = "";
    client_live_heartbeat = pos 0;
    interval_detect_client_live = pos 0;
    main_task_timeout = pos 0;
  };
}

-- `Json::Reader::parse` and `Json::Value::toStyledString`.
pub record ConfigText : Type 1 where
  pub Text : Type 0
  pub parse : Text → Option RootNode
  pub to_styled_string : RootNode → Text

unfoldable pub root_of : Configs → RootNode
root_of c = record {
  client = some (to_json c.client);
  database = some (database_to_json c.database);
  proxy = some (proxy_to_json c.proxy);
  server = some (server_to_json c.server);
}

-- What a document installs, if it is accepted: `old` are the globals.
unfoldable pub install : RootNode → Configs → Configs × Bool
install root old =
    let (new, done) = g_parse_from_json root true temporaries in
    if done then (new, true) else (old, false)

module _ (json : ConfigText) where
  open json use {Text, parse, to_styled_string}

  -- `none` is a file that cannot be opened.
  unfoldable pub g_reload_config : Option Text → Configs → Configs × Bool
  g_reload_config none old = (old, false)
  g_reload_config (some text) old = elim (parse text) [
    | none ↦ (old, false)
    | some root ↦ install root old
  ]

  -- The file afterwards, where `can_open` says whether it opens for writing.
  unfoldable pub g_write_config : Bool → Configs → Option Text → Option Text × Bool
  g_write_config can_open c file =
      if can_open then (some (to_styled_string (root_of c)), true) else (file, false)
