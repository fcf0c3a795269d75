-- ===== src/Server/Handlers/Config.antt =====
-- The handlers of the configuration, BiliUserSpiderServer/src/uri/config.cpp. jsoncpp and the file
-- config/config.json are as in `Server.Config.File`.
pub mod Laws
use bili_user_spider.Prelude.{Option, none, some, Bool, true, false, ◌&&◌, if◌then◌else◌, String, ℤ}
use bili_user_spider.Server.Status.{general_error, invalid_param}
use bili_user_spider.Server.Config.{
  ClientConfig, DatabaseConfig, ProxyConfig, ServerConfig, client_is_valid, database_is_valid,
  proxy_is_valid, server_is_valid,
}
use bili_user_spider.Server.Config.Nodes.{ClientNode, parse_from_json, to_json}
use bili_user_spider.Server.Config.File.{
  Configs, ConfigText, RootNode, temporaries, install, root_of, g_write_config, database_to_json,
  proxy_to_json, server_to_json,
}
use bili_user_spider.Server.Handlers.Monad.{
  Server, Request, Payload, nothing, client_node, database_node, proxy_node, server_node, all_nodes,
  posted, Outcome, pass, stop, reply, M, ◌>>=◌, ◌>>◌, return_ok, get, check_password,
  check_token_or_password, check_param_str, check_param_int,
}

unfoldable pub configs_of : {Text : Type 0} → Server Text → Configs
configs_of s = record {
  client = s.client_config;
  database = s.db_config;
  proxy = s.proxy_config;
  server = s.svr_config;
}

unfoldable pub set_configs : {Text : Type 0} → Configs → Server Text → Server Text
set_configs c s = record s {
  client_config = c.client;
  db_config = c.database;
  proxy_config = c.proxy;
  svr_config = c.server;
}

-- The handlers that only read.
module _ {Text : Type 0} where
  unfoldable pub config_client_get : Request → M Text Payload
  config_client_get req = do
    check_token_or_password req
    s ← get
    return_ok (client_node (to_json s.client_config))

  unfoldable pub config_database_get : Request → M Text Payload
  config_database_get req = do
    check_token_or_password req
    s ← get
    return_ok (database_node (database_to_json s.db_config))

  unfoldable pub config_proxy_get : Request → M Text Payload
  config_proxy_get req = do
    check_password req
    s ← get
    return_ok (proxy_node (proxy_to_json s.proxy_config))

  unfoldable pub config_server_get : Request → M Text Payload
  config_server_get req = do
    check_password req
    s ← get
    return_ok (server_node (server_to_json s.svr_config))

  unfoldable pub config_advance_get : Request → M Text Payload
  config_advance_get req = do
    check_password req
    s ← get
    return_ok (all_nodes (root_of (configs_of s)))

  -- What the handlers that write make of their parameters, and `INVALID_PARAM` where the new
  -- configuration is not valid: the new configurations and the reply.
  abbrev pub if_valid : Bool → Configs → M Text (Configs × Payload)
  if_valid true c s = (s, pass (c, nothing))
  if_valid false c s = (s, stop invalid_param)

  unfoldable pub set_client : Option ClientNode → M Text (Configs × Payload)
  set_client none s = (s, stop invalid_param)
  set_client (some node) s =
      let (client, done) = parse_from_json node temporaries.client in
      if_valid (done && client_is_valid client) (record (configs_of s) { client = client }) s

  unfoldable pub set_database : DatabaseConfig → M Text (Configs × Payload)
  set_database c s = if_valid (database_is_valid c) (record (configs_of s) { database = c }) s

  unfoldable pub set_proxy : ProxyConfig → M Text (Configs × Payload)
  set_proxy c s = if_valid (proxy_is_valid c) (record (configs_of s) { proxy = c }) s

  unfoldable pub set_server : ℤ → ℤ → ℤ → M Text (Configs × Payload)
  set_server heartbeat interval timeout s =
      let c : ServerConfig = record s.svr_config {
        client_live_heartbeat = heartbeat;
        interval_detect_client_live = interval;
        main_task_timeout = timeout;
      } in
      if_valid (server_is_valid c) (record (configs_of s) { server = c }) s

  unfoldable pub set_all : Option RootNode → M Text (Configs × Payload)
  set_all none s = (s, stop general_error)
  set_all (some root) s =
      let (c, done) = install root (configs_of s) in
      if done then (s, pass (c, posted root)) else (s, stop general_error)

  -- `body` is what the reader makes of the body of the request.
  unfoldable pub config_client_set : Option ClientNode → Request → M Text (Configs × Payload)
  config_client_set body req = do check_password req; set_client body

  unfoldable pub config_database_set : Request → M Text (Configs × Payload)
  config_database_set req = do
    check_password req
    host ← check_param_str req "host"
    port ← check_param_int req "port"
    user ← check_param_str req "user"
    password ← check_param_str req "password"
    name ← check_param_str req "name"
    set_database
        (record { port = port; host = host; user = user; password = password; name = name })

  unfoldable pub config_proxy_set : Request → M Text (Configs × Payload)
  config_proxy_set req = do
    check_password req
    order_id ← check_param_str req "order_id"
    interval ← check_param_int req "interval_query"
    set_proxy
        (record { order_id = order_id; user_id = req.param "user_id"; interval_query = interval })

  unfoldable pub config_server_set : Request → M Text (Configs × Payload)
  config_server_set req = do
    check_password req
    heartbeat ← check_param_int req "client_live_heartbeat"
    interval ← check_param_int req "interval_detect_client_live"
    timeout ← check_param_int req "main_task_timeout"
    set_server heartbeat interval timeout

  unfoldable pub config_advance_set : Option RootNode → Request → M Text (Configs × Payload)
  config_advance_set body req = do check_password req; set_all body

-- The handlers that write, by their URIs, with the body where they read one.
pub data ConfigCall : Type 0 where
  sets_client : Option ClientNode → ConfigCall
  sets_database sets_proxy sets_server : ConfigCall
  sets_all : Option RootNode → ConfigCall

unfoldable pub config_call : {Text : Type 0} → ConfigCall → Request → M Text (Configs × Payload)
config_call (sets_client body) = config_client_set body
config_call sets_database = config_database_set
config_call sets_proxy = config_proxy_set
config_call sets_server = config_server_set
config_call (sets_all body) = config_advance_set body

module _ (json : ConfigText) {Text : Type 0} where
  open json use {Text as FileText}

  -- The end of these handlers: the globals are set and the file is written, whether or not it opens.
  unfoldable pub save :
      Bool
      → Option FileText
      → Server Text × Outcome (Configs × Payload)
      → Server Text × Option FileText × Outcome Payload
  save can_open file (s, pass (c, p)) =
      (set_configs c s, (g_write_config json can_open c file).0, reply p)
  save can_open file (s, stop code) = (s, file, stop code)
  save can_open file (s, reply p) = (s, file, reply p)

  unfoldable pub configure :
      ConfigCall
      → Request
      → Bool
      → Option FileText
      → Server Text
      → Server Text × Option FileText × Outcome Payload
  configure call req can_open file s = save can_open file (config_call call req s)
