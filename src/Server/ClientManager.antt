-- ===== src/Server/ClientManager.antt =====
-- The server's client manager, BiliUserSpiderServer/src/manager/client_manager.h and .cpp. Every
-- method but `start` and every round of the background thread holds the mutex, so each is one
-- function on the state; `now` is `time(NULL)`. `ClientInfo::id` is never written or read, and has no field here.
pub mod Laws
pub mod Info
use bili_user_spider.Prelude.{
  ℕ, List, [], ◌∷◌, ◌++◌, Option, none, some, Bool, true, false, if◌then◌else◌, String, ℤ, pos,
  ◌+ℤ◌, ◌-ℤ◌, abs, ltb_ℤ, ◌==ℤ◌,
}
use bili_user_spider.Prelude.OrdMap.{OrdMap, find, emplace, erase, assign, erase_if}

-- When, and how many users were crawled by then.
abbrev pub Snapshot : Type 0
Snapshot = ℤ × ℤ

pub record ClientInfo : Type 0 where
  pub threads : ℤ
  pub join_time : ℤ
  pub last_heartbeat : ℤ
  pub host : String
  pub os : String
  pub count_snapshot : List Snapshot
  pub should_quit : ℤ

pub record ClientManager : Type 0 where
  pub current_client_id : ℤ
  pub bg_thread_quit : Bool
  pub clients : OrdMap ClientInfo

unfoldable pub last_snapshot : Snapshot → List Snapshot → Snapshot
last_snapshot s [] = s
last_snapshot s (s' ∷ ss) = last_snapshot s' ss

-- `ClientInfo::count`.
unfoldable pub count : ClientInfo → ℤ
count client = elim client.count_snapshot [ [] ↦ pos 0 | s ∷ ss ↦ (last_snapshot s ss).1 ]

-- The loop of `speed` from the last but one snapshot down to the second: the youngest that is more
-- than `last_seconds` old, else `first`. The list is in the order of the deque.
unfoldable pub base_snapshot : ℤ → ℤ → Snapshot → List Snapshot → Snapshot
base_snapshot now last_seconds found [] = found
base_snapshot now last_seconds found (s ∷ []) = found
base_snapshot now last_seconds found (s ∷ s' ∷ ss) =
    base_snapshot now last_seconds (if ltb_ℤ last_seconds (now -ℤ s.0) then s else found) (s' ∷ ss)

-- `ClientInfo::speed`, as the two integers that it divides; `none` where it returns 0.
unfoldable pub speed : ℤ → ℤ → ClientInfo → Option (ℤ × ℤ)
speed now last_seconds client = elim client.count_snapshot [
  | [] ↦ none
  | first ∷ rest ↦
      let last = last_snapshot first rest in
      let base = base_snapshot now last_seconds first rest in
      if last_seconds ==ℤ (pos 0 -ℤ pos 1)
      then some (last.1, now -ℤ client.join_time)
      else elim rest [ [] ↦ none | _ ∷ _ ↦ some (last.1 -ℤ base.1, last.0 -ℤ base.0) ]
]

unfoldable pub join : ℤ → String → String → ℤ → ClientManager → ClientManager × ℤ
join now host os threads mgr =
    let client : ClientInfo = record {
      threads = threads;
      join_time = now;
      last_heartbeat = now;
      host = host;
      os = os;
      count_snapshot = [];
      should_quit = pos 0;
    } in
    (
      record mgr {
        clients = emplace mgr.current_client_id client mgr.clients;
        current_client_id = mgr.current_client_id +ℤ pos 1;
      },
      mgr.current_client_id,
    )

unfoldable pub quit : ℤ → ClientManager → ClientManager
quit client_id mgr = elim (find client_id mgr.clients) [
  | none ↦ mgr
  | some _ ↦ record mgr { clients = erase client_id mgr.clients }
]

-- The loop that drops the snapshots of more than thirty minutes ago.
unfoldable pub recent : ℤ → List Snapshot → List Snapshot
recent now [] = []
recent now (s ∷ ss) = if ltb_ℤ (pos 1800) (now -ℤ s.0) then recent now ss else s ∷ recent now ss

unfoldable pub beat : ℤ → ℤ → ClientInfo → ClientInfo
beat now count client = record client {
  last_heartbeat = now;
  count_snapshot = recent now (client.count_snapshot ++ (now, count) ∷ []);
}

-- `some q` for the result true with `*shouldQuit = q`, `none` for false.
unfoldable pub heartbeat : ℤ → ℤ → ℤ → ClientManager → ClientManager × Option ℤ
heartbeat now client_id count mgr = elim (find client_id mgr.clients) [
  | none ↦ (mgr, none)
  | some client ↦ (
    record mgr { clients = assign client_id (beat now count client) mgr.clients },
    some client.should_quit,
  )
]

unfoldable pub notify_client_to_quit : ℤ → Bool → ClientManager → ClientManager
notify_client_to_quit client_id is_force_stop mgr = elim (find client_id mgr.clients) [
  | none ↦ mgr
  | some client ↦ record mgr {
    clients =
        assign client_id (record client { should_quit = if is_force_stop then pos 2 else pos 1 })
          mgr.clients;
  }
]

-- Whether the background thread throws a client out.
unfoldable pub is_dead : ℤ → ℤ → ClientInfo → Bool
is_dead now client_live_heartbeat client =
    ltb_ℤ client_live_heartbeat (abs (now -ℤ client.last_heartbeat))

-- One round of `backgroundThread` under the lock.
unfoldable pub detect_dead : ℤ → ℤ → ClientManager → ClientManager
detect_dead now client_live_heartbeat mgr = record mgr {
  clients = erase_if (is_dead now client_live_heartbeat) mgr.clients;
}

-- `start`: the new state, and whether a background thread is started.
unfoldable pub start : ClientManager → ClientManager × Bool
start mgr =
    if mgr.bg_thread_quit then (record mgr { bg_thread_quit = false }, true) else (mgr, false)

-- The end of `backgroundThread` behind its loop; the `stop` that it calls then is `g_stop`.
unfoldable pub leave : ClientManager → ClientManager
leave mgr = record mgr { bg_thread_quit = true }
