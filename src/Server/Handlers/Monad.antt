-- ===== src/Server/Handlers/Monad.antt =====
-- The state that the handlers share, and the macros that return early: a macro that returns keeps
-- what was changed before it.
use text.Mathlib.Text.{◌==◌ as str_eq}
use bili_user_spider.Prelude.{List, Option, none, some, Bool, true, false, if◌then◌else◌, String, ℤ}
use bili_user_spider.Server.Status.{
  StatusCode, server_stopped, missing_param, invalid_param, wrong_password,
}
use bili_user_spider.Server.Config.{
  ClientConfig, DatabaseConfig, ProxyConfig, ServerConfig, is_empty,
}
use bili_user_spider.Server.Config.Nodes.{ClientNode}
use bili_user_spider.Server.Config.File.{DatabaseNode, ProxyNode, ServerNode, RootNode}
use bili_user_spider.Server.Convert.{convert}
use bili_user_spider.Server.TaskManager.{TaskManager, Assignment}
use bili_user_spider.Server.ClientManager.{ClientManager}
use bili_user_spider.Server.ClientManager.Info.{ClientEntry}

-- The globals of main.cpp and the singletons that the handlers use. `http_running` is false once
-- the HTTP server is told to stop.
pub record Server (Text : Type 0) : Type 0 where
  pub is_running : Bool
  pub http_running : Bool
  pub client_config : ClientConfig
  pub db_config : DatabaseConfig
  pub proxy_config : ProxyConfig
  pub svr_config : ServerConfig
  pub task_mgr : TaskManager Text
  pub client_mgr : ClientManager

-- The parameters of a request, the host that it comes from, the times at which the two managers
-- read the clock, and whether the archive can be opened.
pub record Request : Type 0 where
  pub param : String → String
  pub host : String
  pub task_now : ℤ
  pub client_now : ℤ
  pub can_open : Bool

-- `root["data"]` and `root["status"]` of a reply with the code `NO_ERROR`; `posted` is a document
-- that stands in `root` itself.
pub data Payload : Type 0 where
  nothing : Payload
  status : Bool → Payload
  connected : ClientConfig → DatabaseConfig → Payload
  joined : ℤ → Payload
  task : Assignment → ClientConfig → ℤ → Payload
  committed : ClientConfig → ℤ → Payload
  progress : ℤ × ℤ × ℤ → Bool → Payload
  client_node : ClientNode → Payload
  database_node : DatabaseNode → Payload
  proxy_node : ProxyNode → Payload
  server_node : ServerNode → Payload
  all_nodes : RootNode → Payload
  posted : RootNode → Payload
  clients : List ClientEntry → Bool → Payload

-- `pass` goes on, `stop` returns with a code that is not `NO_ERROR`, `reply` with `NO_ERROR`.
pub data Outcome (A : Type 0) : Type 0 where
  pass : A → Outcome A
  stop : StatusCode → Outcome A
  reply : Payload → Outcome A

abbrev pub M : Type 0 → Type 0 → Type 0
M Text A = Server Text → Server Text × Outcome A

infixl 5 ◌>>=◌ ◌>>◌
abbrev pub ◌>>=◌ : {Text A B : Type 0} → M Text A → (A → M Text B) → M Text B
◌>>=◌ m f s =
    let (s', out) = m s in
    elim out [ pass a ↦ f a s' | stop code ↦ (s', stop code) | reply p ↦ (s', reply p) ]

abbrev pub ◌>>◌ : {Text B : Type 0} → M Text (Unit {0}) → M Text B → M Text B
m >> k = m >>= λ _. k

abbrev pub return_code : {Text A : Type 0} → StatusCode → M Text A
return_code code s = (s, stop code)

-- `RETURN_OK()`.
abbrev pub return_ok : {Text A : Type 0} → Payload → M Text A
return_ok p s = (s, reply p)

abbrev pub get : {Text : Type 0} → M Text (Server Text)
get s = (s, pass s)

abbrev pub modify : {Text : Type 0} → (Server Text → Server Text) → M Text (Unit {0})
modify f s = (f s, pass tt)

unfoldable pub g_start : {Text : Type 0} → Server Text → Server Text
g_start s = record s { is_running = true }

unfoldable pub g_stop : {Text : Type 0} → Server Text → Server Text
g_stop s = record s { is_running = false }

module _ {Text : Type 0} where
  -- `CHECK_STATUS()`.
  unfoldable pub check_status : M Text (Unit {0})
  check_status s = if s.is_running then (s, pass tt) else (s, stop server_stopped)

  -- A secret in a parameter, against the one of the configuration.
  unfoldable pub check_secret : String → String → M Text (Unit {0})
  check_secret given secret s =
      if is_empty given
      then (s, stop missing_param)
      else (if str_eq given secret then (s, pass tt) else (s, stop wrong_password))

  -- `CHECK_PASSWORD()`.
  unfoldable pub check_password : Request → M Text (Unit {0})
  check_password req s = check_secret (req.param "pwd") s.svr_config.admin_password s

  -- `CHECK_TOKEN()`.
  unfoldable pub check_token : Request → M Text (Unit {0})
  check_token req s = check_secret (req.param "token") s.svr_config.client_token s

  -- `CHECK_TOKEN_OR_PASSWORD()`: it returns unless both checks pass.
  unfoldable pub check_token_or_password : Request → M Text (Unit {0})
  check_token_or_password req = do check_token req; check_password req

  -- `CHECK_PARAM_STR(name)`.
  unfoldable pub check_param_str : Request → String → M Text String
  check_param_str req name s =
      if is_empty (req.param name) then (s, stop missing_param) else (s, pass (req.param name))

  abbrev pub or_invalid : Option ℤ → M Text ℤ
  or_invalid none s = (s, stop invalid_param)
  or_invalid (some n) s = (s, pass n)

  -- `CHECK_PARAM_INT(name)`.
  unfoldable pub check_param_int : Request → String → M Text ℤ
  check_param_int req name s =
      if is_empty (req.param name)
      then (s, stop missing_param)
      else or_invalid (convert (req.param name)) s

  -- `GET_PARAM_INT(name, default)`.
  unfoldable pub get_param_int : Request → String → ℤ → M Text ℤ
  get_param_int req name default s =
      if is_empty (req.param name)
      then (s, pass default)
      else or_invalid (convert (req.param name)) s
