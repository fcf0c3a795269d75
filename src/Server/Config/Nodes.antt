-- ===== src/Server/Config/Nodes.antt =====
-- `ClientConfig::parseFromJson` and `toJson` of BiliUserSpiderServer/src/config/config.cpp. The
-- members have the kind that is read from them; `none` is a member that is missing or null.
use bili_user_spider.Prelude.{
  ◌≡◌, refl, List, [], ◌∷◌, map, Option, none, some, Bool, true, false, arith, ℤ, ==ℤ_iff,
}
use bili_user_spider.Prelude.OrdMap.{OrdMap, find, emplace, IsOrdered}
use bili_user_spider.Prelude.OrdMap.Laws.{find-emplace, emplace-IsOrdered}
use bili_user_spider.Server.Config.{ClientConfig}

-- `proxy_sleeptime_map` is an array of arrays.
pub record ClientNode : Type 0 where
  pub bili_api_type : Option ℤ
  pub main_task_step_times : Option ℤ
  pub sub_task_step : Option ℤ
  pub timeout : Option ℤ
  pub proxy_max_error_times : Option ℤ
  pub mid_max_error_times : Option ℤ
  pub interval_proxypool_sync : Option ℤ
  pub proxy_sleeptime_map : Option (List (List ℤ))

-- The loop over the pairs; an entry that is not a pair ends it.
unfoldable pub read_pairs : List (List ℤ) → OrdMap ℤ → OrdMap ℤ × Bool
read_pairs [] m = (m, true)
read_pairs ([] ∷ ps) m = (m, false)
read_pairs ((a ∷ []) ∷ ps) m = (m, false)
read_pairs ((a ∷ b ∷ []) ∷ ps) m = read_pairs ps (emplace a b m)
read_pairs ((a ∷ b ∷ _ ∷ _) ∷ ps) m = (m, false)

-- Once no member is null.
unfoldable pub read_members :
    Option ℤ
    → Option ℤ
    → Option ℤ
    → Option ℤ
    → Option ℤ
    → Option ℤ
    → Option ℤ
    → Option (List (List ℤ))
    → ClientConfig
    → ClientConfig × Bool
read_members (some api) (some times) (some step) (some time) (some proxy) (some mid) (some sync)
      (some pairs) old =
    let (sleeptimes, done) = read_pairs pairs old.proxy_sleeptime_map in
    (
      record {
        bili_api_type = api;
        main_task_step_times = times;
        sub_task_step = step;
        timeout = time;
        proxy_max_error_times = proxy;
        mid_max_error_times = mid;
        interval_proxypool_sync = sync;
        proxy_sleeptime_map = sleeptimes;
      },
      done,
    )
read_members _ _ _ _ _ _ _ _ old = (old, false)

unfoldable pub parse_from_json : ClientNode → ClientConfig → ClientConfig × Bool
parse_from_json n old =
    read_members n.bili_api_type n.main_task_step_times n.sub_task_step n.timeout
      n.proxy_max_error_times n.mid_max_error_times n.interval_proxypool_sync n.proxy_sleeptime_map
      old

abbrev pub pair_node : ℤ × ℤ → List ℤ
pair_node (count, time) = count ∷ time ∷ []

-- A Json::Value to which nothing is appended stays null.
unfoldable pub pairs_node : OrdMap ℤ → Option (List (List ℤ))
pairs_node [] = none
pairs_node (p ∷ ps) = some (map pair_node (p ∷ ps))

unfoldable pub to_json : ClientConfig → ClientNode
to_json c = record {
  bili_api_type = some c.bili_api_type;
  main_task_step_times = some c.main_task_step_times;
  sub_task_step = some c.sub_task_step;
  timeout = some c.timeout;
  proxy_max_error_times = some c.proxy_max_error_times;
  mid_max_error_times = some c.mid_max_error_times;
  interval_proxypool_sync = some c.interval_proxypool_sync;
  proxy_sleeptime_map = pairs_node c.proxy_sleeptime_map;
}

read_pairs-find :
    (k : ℤ) (ps m : OrdMap ℤ)
    → IsOrdered m
    → ((read_pairs (map pair_node ps) m).1 ≡ true)
      × (find k (read_pairs (map pair_node ps) m).0
          ≡ elim (find k m) [ some v ↦ some v | none ↦ find k ps ])
unfolding read_pairs find
read_pairs-find k [] m o = ground arith
read_pairs-find k ((a, b) ∷ ps) m o = ground (
  arith,
  read_pairs-find k ps (emplace a b m) (emplace-IsOrdered a b m o),
  find-emplace a k b m o,
  ==ℤ_iff k a,
)

-- A configuration that is written and read over an old one, if it has a sleep time: every number is
-- the new one, but a sleep time that the old one has stays.
pub parse_from_json-to_json :
    (k : ℤ) (c old : ClientConfig) (p : ℤ × ℤ) (ps : OrdMap ℤ)
    → c.proxy_sleeptime_map ≡ p ∷ ps
    → IsOrdered old.proxy_sleeptime_map
    → let (new, done) = parse_from_json (to_json c) old in
      (done ≡ true)
      × (record new { proxy_sleeptime_map = [] } ≡ record c { proxy_sleeptime_map = [] })
      × (find k new.proxy_sleeptime_map
          ≡ elim (find k old.proxy_sleeptime_map) [ some v ↦ some v | none ↦ find k (p ∷ ps) ])
unfolding parse_from_json to_json read_members pairs_node
parse_from_json-to_json k c old p ps e o =
    let pairs = read_pairs-find k (p ∷ ps) old.proxy_sleeptime_map o in
    rw e (pairs.0, refl, pairs.1)

-- A configuration without sleep times is written in a form that is refused, and changes nothing.
pub parse_from_json-empty :
    (c old : ClientConfig)
    → c.proxy_sleeptime_map ≡ []
    → parse_from_json (to_json c) old ≡ (old, false)
unfolding parse_from_json to_json read_members pairs_node
parse_from_json-empty c old e = rw e
