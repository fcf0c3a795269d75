-- ===== src/Client/Spider/Process.antt =====
-- The client from its start to its end: `start`, `init` and `startAllThreads` of
-- BiliUserSpiderClient/src/biliuser_spider.cpp. What the threads do is in `Threads`; the wait for
-- them is left out.
use bili_user_spider.Prelude.{
  ℕ, zero, suc, ◌+◌, ◌≤◌, ◌≡◌, refl, List, [], Option, none, some, Bool, true, false, arith,
  if◌then◌else◌, String, ℤ, pos, pos_part, ◌≤ℤ◌, ◌==◌,
}
use bili_user_spider.Server.Config.{ClientConfig, DatabaseConfig}
use bili_user_spider.Server.MysqlPool.{Connection, init as connect_all}
use bili_user_spider.Client.Api.{Response, ConnectData, JoinData}
use bili_user_spider.Client.UserAgents.{read_config as read_agents}
use bili_user_spider.Client.Spider.Calls.{
  SpiderNode, SpiderConfig, read_config, connect_to_server, client_join, client_quit,
}

-- What the client meets: its two files, the responses of the server, the attempts to open a
-- connection, and `g_shouldStop` before each thread.
pub record Meets : Type 0 where
  pub spider_file : Option SpiderNode
  pub agents_file : Option (List String)
  pub connecting : ℕ → Response ConnectData
  pub opens : List Bool
  pub joining : ℕ → Response JoinData
  pub should_stop : ℕ → Bool
  pub quitting : ℕ → Response (Unit {0})

-- The globals and the members that are set on the way.
pub record BiliUserSpider : Type 0 where
  pub config : SpiderConfig
  pub client_config : ClientConfig
  pub db_config : DatabaseConfig
  pub agents : List String
  pub pool : List Connection
  pub has_managers : Bool
  pub client_id : ℤ

abbrev pub pool_size : ℕ
pool_size = 3

-- The managers are made when the user agents and the connections are there.
unfoldable pub init : Meets → BiliUserSpider → BiliUserSpider × Bool
init w c =
    let (agents, read) = read_agents w.agents_file [] in
    let (pool, count) = connect_all pool_size w.opens [] in
    if read
    then (if count == pool_size
        then (record c { agents = agents; pool = pool; has_managers = true }, true)
        else (record c { agents = agents; pool = pool }, false))
    else (record c { agents = agents }, false)

-- The loop of `startAllThreads` for `left` more threads from number `i` on: how many it starts.
unfoldable pub threads_from : (ℕ → Bool) → ℕ → ℕ → ℕ
threads_from should_stop zero i = 0
threads_from should_stop (suc left) i =
    let more = threads_from should_stop left (i + 1) in if should_stop i then 0 else suc more

unfoldable pub start_all_threads : Meets → BiliUserSpider → ℕ
start_all_threads w c =
    if c.has_managers then threads_from w.should_stop (pos_part c.config.num_threads) 0 else 0

-- The exit code 1, or 0 with the number of threads that ran and whether the server knows of the end.
pub data Ending : Type 0 where
  failed : BiliUserSpider → Ending
  finished : BiliUserSpider → ℕ → Bool → Ending

-- From the join to the end.
unfoldable pub join_and_run : Meets → BiliUserSpider → Ending
join_and_run w c =
    let (id, joined) = client_join w.joining 5 0 c.client_id in
    let c' : BiliUserSpider = record c { client_id = id } in
    if joined then finished c' (start_all_threads w c') (client_quit w.quitting 5 0) else failed c'

unfoldable pub init_and_run : Meets → BiliUserSpider → Ending
init_and_run w c = let (c', ready) = init w c in if ready then join_and_run w c' else failed c'

unfoldable pub connect_and_run : Meets → BiliUserSpider → Ending
connect_and_run w c =
    let (client, db, connected) = connect_to_server w.connecting 5 0 c.client_config c.db_config in
    let c' : BiliUserSpider = record c { client_config = client; db_config = db } in
    if connected then init_and_run w c' else failed c'

unfoldable pub start : Meets → BiliUserSpider → Ending
start w c =
    let (config, read) = read_config w.spider_file c.config in
    let c' : BiliUserSpider = record c { config = config } in
    if read then connect_and_run w c' else failed c'

threads_from_few : (should_stop : ℕ → Bool) (left i : ℕ) → threads_from should_stop left i ≤ left
unfolding threads_from
threads_from_few should_stop zero i = omega arith
threads_from_few should_stop (suc left) i =
    ground (arith, threads_from_few should_stop left (i + 1))

-- What a client has that joins: between 1 and 90 threads to start, a full pool of connections, and no
-- more threads than it was told.
pub record IsReady (c : BiliUserSpider) (threads : ℕ) : Type 0 where
  pub some_threads : pos 1 ≤ℤ c.config.num_threads
  pub few_threads : c.config.num_threads ≤ℤ pos 90
  pub managers : c.has_managers ≡ true
  pub threads_started : threads ≤ pos_part c.config.num_threads

read_config-bounds :
    (file : Option SpiderNode) (old : SpiderConfig)
    → (read_config file old).1 ≡ true
    → (pos 1 ≤ℤ (read_config file old).0.num_threads)
      × ((read_config file old).0.num_threads ≤ℤ pos 90)
unfolding read_config
read_config-bounds none old h = absurd (ground arith)
read_config-bounds (some n) old h = ground arith

module _ (w : Meets) (c' : BiliUserSpider) (n : ℕ) (told : Bool) where
  abbrev HasBounds : BiliUserSpider → Type 0
  HasBounds c = (pos 1 ≤ℤ c.config.num_threads) × (c.config.num_threads ≤ℤ pos 90)

  join_and_run-IsReady :
      (c : BiliUserSpider)
      → HasBounds c
      → c.has_managers ≡ true
      → join_and_run w c ≡ finished c' n told
      → IsReady c' n
  unfolding join_and_run start_all_threads
  join_and_run-IsReady c b m h =
      let few = threads_from_few w.should_stop (pos_part c.config.num_threads) 0 in
      ground (arith, few)

  init_and_run-IsReady :
      (c : BiliUserSpider) → HasBounds c → init_and_run w c ≡ finished c' n told → IsReady c' n
  unfolding init_and_run init
  init_and_run-IsReady c b h =
      let (agents, read) = read_agents w.agents_file [] in
      let (pool, count) = connect_all pool_size w.opens [] in
      let ready : BiliUserSpider = record c { agents = agents; pool = pool; has_managers = true } in
      ground (arith, join_and_run-IsReady ready b refl)

  connect_and_run-IsReady :
      (c : BiliUserSpider) → HasBounds c → connect_and_run w c ≡ finished c' n told → IsReady c' n
  unfolding connect_and_run
  connect_and_run-IsReady c b h =
      let (client, db, connected) =
        connect_to_server w.connecting 5 0 c.client_config c.db_config in
      let next : BiliUserSpider = record c { client_config = client; db_config = db } in
      ground (arith, init_and_run-IsReady next b)

  -- A client that ends with 0 was told of 1 to 90 threads, had its managers, and started no more
  -- threads than that.
  pub start-IsReady : (c : BiliUserSpider) → start w c ≡ finished c' n told → IsReady c' n
  unfolding start
  start-IsReady c h =
      let (config, read) = read_config w.spider_file c.config in
      let next : BiliUserSpider = record c { config = config } in
      ground (arith, read_config-bounds w.spider_file c.config, connect_and_run-IsReady next)
