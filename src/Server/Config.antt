-- ===== src/Server/Config.antt =====
-- The configuration of the server, BiliUserSpiderServer/src/config/config.h and .cpp: the four
-- records and what `isValid` accepts.
pub mod Nodes
pub mod File
use Prim.Native.String.{len}
use bili_user_spider.Server.Convert.{codes}
use bili_user_spider.Prelude.{
  ◌+◌, ltb, if◌then◌else◌, ℕ, List, [], ◌∷◌, Bool, true, false, not, ◌&&◌, String, ℤ, pos, leb,
  ltb_ℤ, leb_ℤ,
}

pub record ClientConfig : Type 0 where
  pub bili_api_type : ℤ
  pub main_task_step_times : ℤ
  pub sub_task_step : ℤ
  pub timeout : ℤ
  pub proxy_max_error_times : ℤ
  pub mid_max_error_times : ℤ
  pub interval_proxypool_sync : ℤ
  pub proxy_sleeptime_map : List (ℤ × ℤ)

pub record DatabaseConfig : Type 0 where
  pub port : ℤ
  pub host : String
  pub user : String
  pub password : String
  pub name : String

pub record ProxyConfig : Type 0 where
  pub order_id : String
  pub user_id : String
  pub interval_query : ℤ

pub record ServerConfig : Type 0 where
  pub ips : List String
  pub port : ℤ
  pub thread_pool_size : ℤ
  pub admin_password : String
  pub client_token : String
  pub client_live_heartbeat : ℤ
  pub interval_detect_client_live : ℤ
  pub main_task_timeout : ℤ

unfoldable pub is_empty : String → Bool
is_empty String.[] = true
is_empty (String.◌∷◌ c s) = false

-- `lo < x && x <= hi`.
unfoldable pub in_range : ℕ → ℕ → ℤ → Bool
in_range lo hi x = ltb_ℤ (pos lo) x && leb_ℤ x (pos hi)

-- `lo <= x && x <= hi`.
unfoldable pub between : ℕ → ℕ → ℤ → Bool
between lo hi x = leb_ℤ (pos lo) x && leb_ℤ x (pos hi)

unfoldable pub client_is_valid : ClientConfig → Bool
client_is_valid c =
    in_range 0 5 c.main_task_step_times
    && in_range 0 20 c.sub_task_step
    && (ltb_ℤ (pos 200) c.timeout && ltb_ℤ c.timeout (pos 20000))
    && in_range 0 100 c.proxy_max_error_times
    && in_range 0 20 c.mid_max_error_times
    && in_range 0 60 c.interval_proxypool_sync

unfoldable pub database_is_valid : DatabaseConfig → Bool
database_is_valid c =
    not (is_empty c.host)
    && not (is_empty c.user)
    && not (is_empty c.password)
    && ltb_ℤ (pos 0) c.port
    && ltb_ℤ c.port (pos 65536)
    && not (is_empty c.name)

unfoldable pub proxy_is_valid : ProxyConfig → Bool
proxy_is_valid c = not (is_empty c.order_id) && in_range 0 120 c.interval_query

-- `!IPs.empty() && !IPs[0].empty()`.
unfoldable pub has_first_ip : List String → Bool
has_first_ip [] = false
has_first_ip (ip ∷ _) = not (is_empty ip)

-- `length()` of a text: the bytes of its characters in UTF-8.
unfoldable pub utf8_size : ℕ → ℕ
utf8_size c = if ltb c 128 then 1 else if ltb c 2048 then 2 else if ltb c 65536 then 3 else 4

unfoldable pub byte_length : List ℕ → ℕ
byte_length [] = 0
byte_length (c ∷ cs) = utf8_size c + byte_length cs

unfoldable pub server_is_valid : ServerConfig → Bool
server_is_valid c =
    has_first_ip c.ips
    && ltb_ℤ (pos 0) c.port
    && ltb_ℤ c.port (pos 65536)
    && in_range 0 128 c.thread_pool_size
    && between 60 1800 c.client_live_heartbeat
    && in_range 0 60 c.interval_detect_client_live
    && between 60 1800 c.main_task_timeout
    && leb 8 (byte_length (codes c.admin_password))
    && leb 8 (byte_length (codes c.client_token))
