-- ===== src/Server/ClientTests.antt =====
-- The theorems on the client manager at concrete inputs.
use bili_user_spider.Prelude.{◌≡◌, refl, [], ◌∷◌, none, some, false, arith, pos, ◌-ℤ◌, abs}
use bili_user_spider.Prelude.OrdMap.{find}
use bili_user_spider.Server.ClientManager.{
  ClientInfo, ClientManager, join, recent, beat, heartbeat, detect_dead,
}
use bili_user_spider.Server.ClientManager.Laws.{
  IsValid, join-IsValid, detect_dead-find, detect_dead-heartbeat, AllRecent, recent-AllRecent,
}

-- Its last heartbeat was at 100.
abbrev spider : ClientInfo
spider = record {
  threads = pos 50;
  join_time = pos 10;
  last_heartbeat = pos 100;
  host = "10.0.0.1";
  os = "linux";
  count_snapshot = (pos 100, pos 30) ∷ [];
  should_quit = pos 0;
}

abbrev one_client : ClientManager
one_client = record {
  current_client_id = pos 1;
  bg_thread_quit = false;
  clients = (pos 0, spider) ∷ [];
}

one_client-IsValid : IsValid one_client
one_client-IsValid = record { ordered = (tt, tt); fresh = (omega arith, tt) }

join-IsValid_example : IsValid (join (pos 200) "10.0.0.2" "mac" (pos 4) one_client).0
join-IsValid_example = join-IsValid (pos 200) "10.0.0.2" "mac" (pos 4) one_client one_client-IsValid

detect_dead-find_example : find (pos 0) (detect_dead (pos 300) (pos 120) one_client).clients ≡ none
unfolding find ◌-ℤ◌ abs
detect_dead-find_example =
    detect_dead-find (pos 300) (pos 120) (pos 0) one_client one_client-IsValid

detect_dead-heartbeat_example :
    find
      (pos 0)
      (detect_dead (pos 250) (pos 120) (heartbeat (pos 160) (pos 0) (pos 40) one_client).0).clients
    ≡ some (beat (pos 160) (pos 40) spider)
unfolding find ◌-ℤ◌ abs
detect_dead-heartbeat_example =
    detect_dead-heartbeat (pos 160) (pos 120) (pos 250) (pos 0) (pos 40) spider one_client
      one_client-IsValid refl (omega arith)

recent-AllRecent_example :
    AllRecent (pos 2000) (recent (pos 2000) ((pos 100, pos 30) ∷ (pos 1900, pos 50) ∷ []))
recent-AllRecent_example = recent-AllRecent (pos 2000) ((pos 100, pos 30) ∷ (pos 1900, pos 50) ∷ [])
