-- ===== src/Server/ClientManager/Laws.antt =====
-- What the client manager promises: fresh ids, heartbeats, and who is thrown out when.
use bili_user_spider.Prelude.{
  ◌≡◌, refl, ap, inl, inr, Option-cases, ==ℤ_iff, List, [], ◌∷◌, ◌++◌, none, some, Bool, arith,
  if◌then◌else◌, String, ℤ, pos, ◌+ℤ◌, ◌-ℤ◌, ==ℤ_refl, abs, ltb_ℤ, ◌<ℤ◌, ◌≤ℤ◌, +ℤ_parts, -ℤ_parts,
  ◌==ℤ◌,
}
use bili_user_spider.Prelude.OrdMap.{find, AllBelow, IsOrdered}
use bili_user_spider.Prelude.OrdMap.Laws.{
  find-AllBelow, find-emplace, find-erase_if, find-assign, emplace-IsOrdered, emplace-AllBelow,
  erase-IsOrdered, erase-AllBelow, erase_if-IsOrdered, erase_if-AllBelow, assign-IsOrdered,
  assign-AllBelow, AllBelow-mono,
}
use bili_user_spider.Server.ClientManager.{
  Snapshot, ClientInfo, ClientManager, last_snapshot, count, join, quit, recent, beat, heartbeat,
  notify_client_to_quit, is_dead, detect_dead,
}

-- The ids of the clients ascend and lie below the next id.
pub record IsValid (mgr : ClientManager) : Type 0 where
  pub ordered : IsOrdered mgr.clients
  pub fresh : AllBelow mgr.current_client_id mgr.clients

-- A client that joins leaves the ids distinct and below the next one.
pub join-IsValid :
    (now : ℤ) (host os : String) (threads : ℤ) (mgr : ClientManager)
    → IsValid mgr
    → IsValid (join now host os threads mgr).0
unfolding join
join-IsValid now host os threads mgr v =
    let next = mgr.current_client_id +ℤ pos 1 in
    let up : mgr.current_client_id <ℤ next =
      omega (arith, +ℤ_parts mgr.current_client_id (pos 1)) in
    record {
      ordered = emplace-IsOrdered mgr.current_client_id _ mgr.clients v.ordered;
      fresh =
          emplace-AllBelow next mgr.current_client_id _ mgr.clients up
            (AllBelow-mono mgr.current_client_id next mgr.clients (omega arith) v.fresh);
    }

pub quit-IsValid :
    (client_id : ℤ) (mgr : ClientManager) → IsValid mgr → IsValid (quit client_id mgr)
unfolding quit
quit-IsValid client_id mgr v = ground (
  arith,
  erase-IsOrdered client_id mgr.clients v.ordered,
  erase-AllBelow mgr.current_client_id client_id mgr.clients v.fresh,
)

pub heartbeat-IsValid :
    (now client_id n : ℤ) (mgr : ClientManager)
    → IsValid mgr
    → IsValid (heartbeat now client_id n mgr).0
unfolding heartbeat
heartbeat-IsValid now client_id n mgr v = elim (Option-cases (find client_id mgr.clients)) [
  | inl e ↦ rw (e, heartbeat) v
  | inr (client, e) ↦
      rw (e, heartbeat)
        (record {
          ordered = assign-IsOrdered client_id (beat now n client) mgr.clients v.ordered;
          fresh =
              assign-AllBelow mgr.current_client_id client_id (beat now n client) mgr.clients
                v.fresh;
        })
]

pub detect_dead-IsValid :
    (now limit : ℤ) (mgr : ClientManager) → IsValid mgr → IsValid (detect_dead now limit mgr)
unfolding detect_dead
detect_dead-IsValid now limit mgr v = record {
  ordered = erase_if-IsOrdered (is_dead now limit) mgr.clients v.ordered;
  fresh = erase_if-AllBelow (is_dead now limit) mgr.current_client_id mgr.clients v.fresh;
}

-- A client that joins gets an id that nobody has, and is found under it; every other client stays.
join-find :
    (now : ℤ) (host os : String) (threads : ℤ) (mgr : ClientManager) (k : ℤ)
    → IsValid mgr
    → let (after, id) = join now host os threads mgr in
      (find id mgr.clients ≡ none)
      × (find k after.clients ≡ (
          if k ==ℤ id
          then some (record {
            threads = threads;
            join_time = now;
            last_heartbeat = now;
            host = host;
            os = os;
            count_snapshot = [];
            should_quit = pos 0;
          })
          else find k mgr.clients))
unfolding join
join-find now host os threads mgr k v =
    let id = mgr.current_client_id in
    let absent = find-AllBelow id id mgr.clients (omega arith) v.fresh in
    (absent, rw (find-emplace id k _ mgr.clients v.ordered) (ground (arith, absent)))

-- A heartbeat of an unknown client is refused and changes nothing. One of a known client answers
-- with what `notifyClientToQuit` left for it, and touches no other client.
heartbeat-find :
    (now client_id n k : ℤ) (mgr : ClientManager)
    → let (after, answer) = heartbeat now client_id n mgr in
      (answer
        ≡ elim (find client_id mgr.clients) [ none ↦ none | some client ↦ some client.should_quit ])
      × (find k after.clients ≡ elim (find k mgr.clients) [
        | none ↦ none
        | some client ↦ some (if k ==ℤ client_id then beat now n client else client)
      ])
unfolding heartbeat
heartbeat-find now client_id n k mgr = elim (Option-cases (find client_id mgr.clients)) [
  | inl e ↦ ground (arith, ==ℤ_iff k client_id)
  | inr (client, e) ↦
      ground (arith, find-assign client_id k (beat now n client) mgr.clients, ==ℤ_iff k client_id)
]

-- A round of the background thread throws out exactly the clients whose last heartbeat is more
-- than the limit away.
pub detect_dead-find :
    (now limit k : ℤ) (mgr : ClientManager)
    → IsValid mgr
    → find k (detect_dead now limit mgr).clients ≡ elim (find k mgr.clients) [
      | none ↦ none
      | some client ↦ if ltb_ℤ limit (abs (now -ℤ client.last_heartbeat)) then none else some client
    ]
unfolding detect_dead is_dead
detect_dead-find now limit k mgr v = find-erase_if (is_dead now limit) k mgr.clients v.ordered

-- A client that is thrown out is refused at its next heartbeat, whenever that is.
heartbeat-detect_dead :
    (now limit later client_id n : ℤ) (client : ClientInfo) (mgr : ClientManager)
    → IsValid mgr
    → find client_id mgr.clients ≡ some client
    → limit <ℤ abs (now -ℤ client.last_heartbeat)
    → (heartbeat later client_id n (detect_dead now limit mgr)).1 ≡ none
unfolding heartbeat
heartbeat-detect_dead now limit later client_id n client mgr v e dead =
    ground (arith, detect_dead-find now limit client_id mgr v)

-- A client that sends a heartbeat stays as long as the limit allows.
pub detect_dead-heartbeat :
    (now limit later client_id n : ℤ) (client : ClientInfo) (mgr : ClientManager)
    → IsValid mgr
    → find client_id mgr.clients ≡ some client
    → abs (later -ℤ now) ≤ℤ limit
    → find client_id (detect_dead later limit (heartbeat now client_id n mgr).0).clients
      ≡ some (beat now n client)
unfolding heartbeat beat
detect_dead-heartbeat now limit later client_id n client mgr v e soon = ground (
  arith,
  detect_dead-find later limit client_id (heartbeat now client_id n mgr).0
      (heartbeat-IsValid now client_id n mgr v),
  find-assign client_id client_id (beat now n client) mgr.clients,
  ==ℤ_refl client_id,
)

last_snapshot-append : (s x : Snapshot) (ss : List Snapshot) → last_snapshot s (ss ++ x ∷ []) ≡ x
unfolding last_snapshot
last_snapshot-append s x [] = refl
last_snapshot-append s x (s' ∷ ss) = last_snapshot-append s' x ss

recent-append :
    (now n : ℤ) (ss : List Snapshot)
    → recent now (ss ++ (now, n) ∷ []) ≡ recent now ss ++ (now, n) ∷ []
unfolding recent
recent-append now n [] = ground (arith, -ℤ_parts now now)
recent-append now n (s ∷ ss) = ground (arith, recent-append now n ss)

count_of_append :
    (client : ClientInfo) (x : Snapshot) (ss : List Snapshot)
    → client.count_snapshot ≡ ss ++ x ∷ []
    → count client ≡ x.1
unfolding count last_snapshot
count_of_append client x [] e = rw (e, count)
count_of_append client x (s ∷ ss) e =
    rw (e, count) (ap (λ (y : Snapshot). y.1) (last_snapshot-append s x ss))

-- After a heartbeat the count of the client is the number that it reported.
pub count-beat : (now n : ℤ) (client : ClientInfo) → count (beat now n client) ≡ n
unfolding beat
count-beat now n client =
    count_of_append (beat now n client) (now, n) (recent now client.count_snapshot)
      (recent-append now n client.count_snapshot)

-- Every snapshot in a list is at most thirty minutes old.
abbrev pub AllRecent : ℤ → List Snapshot → Type 0
AllRecent now [] = Unit {0}
AllRecent now (s ∷ ss) = (now -ℤ s.0 ≤ℤ pos 1800) × AllRecent now ss

-- A heartbeat leaves no snapshot that is more than thirty minutes old.
pub recent-AllRecent : (now : ℤ) (ss : List Snapshot) → AllRecent now (recent now ss)
unfolding recent
recent-AllRecent now [] = tt
recent-AllRecent now (s ∷ ss) = ground (arith, recent-AllRecent now ss)

-- The administrator's wish reaches the client with its next heartbeat.
pub heartbeat-notify_client_to_quit :
    (now client_id n : ℤ) (force : Bool) (client : ClientInfo) (mgr : ClientManager)
    → find client_id mgr.clients ≡ some client
    → (heartbeat now client_id n (notify_client_to_quit client_id force mgr)).1
      ≡ some (if force then pos 2 else pos 1)
unfolding heartbeat notify_client_to_quit
heartbeat-notify_client_to_quit now client_id n force client mgr e =
    let quitting = record client { should_quit = if force then pos 2 else pos 1 } in
    ground (arith, find-assign client_id client_id quitting mgr.clients, ==ℤ_refl client_id)
