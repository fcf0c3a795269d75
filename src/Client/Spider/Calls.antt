-- ===== src/Client/Spider/Calls.antt =====
-- How the client gets to the server and leaves it: `readConfig`, `connectToServer`, `clientJoin` and
-- `clientQuit` of BiliUserSpiderClient/src/biliuser_spider.cpp. `perform` gives the response to
-- each attempt in turn.
use bili_user_spider.Prelude.{
  ℕ, zero, suc, ◌+◌, ◌≤◌, ◌<◌, ◌≡◌, ◌≢◌, refl, ◌⊎◌, inl, inr, Option, none, some, Bool, true, false,
  ◌||◌, if◌then◌else◌, arith, String, ℤ, pos, ltb_ℤ, ◌==ℤ◌, ==ℤ_iff, Bool-cases, Option-cases,
}
use bili_user_spider.Server.Config.{ClientConfig, DatabaseConfig}
use bili_user_spider.Client.Api.{
  Response, Got, ConnectData, JoinData, get_data, got, broke, api_connect_to_server,
  api_client_join, api_client_quit,
}

-- The members of config/spider.json that are read.
pub record SpiderNode : Type 0 where
  pub server_addr : Option String
  pub threads : Option ℤ
  pub token : Option String

pub record SpiderConfig : Type 0 where
  pub svr_addr : String
  pub num_threads : ℤ
  pub client_token : String

-- The globals afterwards, and the result. `none` is a file that does not open or parse.
unfoldable pub read_config : Option SpiderNode → SpiderConfig → SpiderConfig × Bool
read_config none old = (old, false)
read_config (some n) old = elim n.server_addr [
  | none ↦ (old, false)
  | some addr ↦ elim n.threads [
    | none ↦ (old, false)
    | some threads ↦ elim n.token [
      | none ↦ (old, false)
      | some token ↦ (
        record { svr_addr = addr; num_threads = threads; client_token = token },
        if ltb_ℤ threads (pos 1) || ltb_ℤ (pos 90) threads then false else true,
      )
    ]
  ]
]

-- `left` attempts from number `i` on.
unfoldable pub connect_to_server :
    (ℕ → Response ConnectData)
    → ℕ
    → ℕ
    → ClientConfig
    → DatabaseConfig
    → ClientConfig × DatabaseConfig × Bool
connect_to_server perform zero i client db = (client, db, false)
connect_to_server perform (suc left) i client db =
    let (ret, client', db') = api_connect_to_server (perform i) client db in
    let again = connect_to_server perform left (i + 1) client' db' in
    if ret ==ℤ pos 0 then (client', db', true) else again

-- A server that is stopped is not asked again.
unfoldable pub client_join : (ℕ → Response JoinData) → ℕ → ℕ → ℤ → ℤ × Bool
client_join perform zero i id = (id, false)
client_join perform (suc left) i id =
    let (ret, id') = api_client_join (perform i) id in
    let again = client_join perform left (i + 1) id' in
    if ret ==ℤ pos 0 then (id', true) else if ret ==ℤ pos 2 then (id', false) else again

unfoldable pub client_quit : (ℕ → Response (Unit {0})) → ℕ → ℕ → Bool
client_quit perform zero i = false
client_quit perform (suc left) i =
    let again = client_quit perform left (i + 1) in
    if api_client_quit (perform i) ==ℤ pos 0 then true else again

Got-cases :
    {Data : Type 0} (g : Got Data) → ((ret : ℤ) × (g ≡ broke ret)) ⊎ ((d : Data) × (g ≡ got d))
Got-cases (broke ret) = inl (ret, refl)
Got-cases (got d) = inr (d, refl)

-- `api_client_join` gives the server's id, or an error and the old id.
api_client_join-id :
    (r : Response JoinData) (id : ℤ)
    → (api_client_join r id).0 ≢ pos 0
    → (api_client_join r id).1 ≡ id
unfolding api_client_join
api_client_join-id r id h = elim (Got-cases (get_data r)) [
  | inl (ret, e) ↦ ground (arith, e)
  | inr (d, e) ↦ elim (Option-cases d.id) [
    | inl k ↦ ground (arith, e, k)
    | inr (n, k) ↦ absurd (ground (arith, e, k, h))
  ]
]

-- A client that joins has the id that the server gave it in one of its attempts, and one that does not
-- join keeps the id that it had.
pub client_join_lem :
    (perform : ℕ → Response JoinData) (left i : ℕ) (id : ℤ)
    → let joined = client_join perform left i id in
      (joined ≡ (id, false))
      ⊎ ((joined.1 ≡ true)
          × ((j : ℕ) × (i ≤ j)
              × (j < i + left)
              × (api_client_join (perform j) id ≡ (pos 0, joined.0))))
unfolding client_join
client_join_lem perform zero i id = inl refl
client_join_lem perform (suc left) i id =
    let (ret, id') = api_client_join (perform i) id in
    elim (Bool-cases (ret ==ℤ pos 0)) [
      | inl e ↦
          let zero_ret : ret ≡ pos 0 = (==ℤ_iff ret (pos 0)).0 e in
          inr (ground (arith, e), (i, omega arith, omega arith, ground (arith, e, zero_ret)))
      | inr e ↦
          let same : id' ≡ id =
            api_client_join-id (perform i) id (ground (arith, e, (==ℤ_iff ret (pos 0)).1)) in
          elim (Bool-cases (ret ==ℤ pos 2)) [
            | inl k ↦ inl (ground (arith, e, k, same))
            | inr k ↦ elim (client_join_lem perform left (i + 1) id) [
              | inl fails ↦ inl (ground (arith, e, k, same, fails))
              | inr (joins, (j, lower, upper, answer)) ↦ inr (
                ground (arith, e, k, same, joins),
                (j, omega arith, omega arith, ground (arith, e, k, same, answer)),
              )
            ]
          ]
    ]
