-- ===== src/Server/ClientManager/Info.antt =====
-- What the administrator is told of the clients: `ClientManager::getClientsInfo` of
-- BiliUserSpiderServer/src/manager/client_manager.cpp. The arithmetic on `double` is not modelled:
-- `scaled n d` is `Json::Int(static_cast<double>(n) / d * 1000)`, an argument.
use bili_user_spider.Prelude.{List, map, none, some, String, ℤ, pos, ◌+ℤ◌, ◌-ℤ◌}
use bili_user_spider.Server.ClientManager.{ClientInfo, ClientManager, count, speed}

-- An element of the array `data`, with the names of its members.
pub record ClientEntry : Type 0 where
  pub id : ℤ
  pub os : String
  pub host : String
  pub join_time : ℤ
  pub heartbeat : ℤ
  pub threads : ℤ
  pub count : ℤ
  pub avg : ℤ
  pub avg_3m : ℤ
  pub avg_5m : ℤ
  pub avg_10m : ℤ
  pub avg_30m : ℤ

module _ (scaled : ℤ → ℤ → ℤ) (now : ℤ) where
  unfoldable pub scaled_speed : ℤ → ClientInfo → ℤ
  scaled_speed last_seconds client = elim (speed now last_seconds client) [
    | none ↦ pos 1
    | some (n, d) ↦ scaled n d +ℤ pos 1
  ]

  unfoldable pub client_entry : ℤ × ClientInfo → ClientEntry
  client_entry (id, client) = record {
    id = id;
    os = client.os;
    host = client.host;
    join_time = client.join_time;
    heartbeat = client.last_heartbeat;
    threads = client.threads;
    count = count client;
    avg = scaled_speed (pos 0 -ℤ pos 1) client;
    avg_3m = scaled_speed (pos 180) client;
    avg_5m = scaled_speed (pos 300) client;
    avg_10m = scaled_speed (pos 600) client;
    avg_30m = scaled_speed (pos 1800) client;
  }

  -- The empty list stands for a `data` that stays null.
  unfoldable pub get_clients_info : ClientManager → List ClientEntry
  get_clients_info mgr = map client_entry mgr.clients
