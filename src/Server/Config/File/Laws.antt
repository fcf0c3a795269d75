-- ===== src/Server/Config/File/Laws.antt =====
-- What of the configuration comes back from its file.
use bili_user_spider.Prelude.{
  Bool, ◌≡◌, ◌≢◌, refl, ap, ◌∙◌, [], ◌∷◌, ◌++◌, map, Option, some, true, false, arith, List-cases,
  inl, inr, ℤ, ◌<ℤ◌,
}
use bili_user_spider.Prelude.OrdMap.{OrdMap, emplace, AllBelow, AllAbove, IsOrdered}
use bili_user_spider.Server.Config.{ClientConfig, ServerConfig, has_first_ip, server_is_valid}
use bili_user_spider.Server.Config.Nodes.{
  read_pairs, read_members, pair_node, pairs_node, parse_from_json, to_json,
}
use bili_user_spider.Server.Config.File.{
  Configs, RootNode, ConfigText, are_valid, temporaries, parse_members, g_parse_from_json, root_of,
  install, g_reload_config, g_write_config, parse_database, parse_proxy, parse_server,
  database_to_json, proxy_to_json, server_to_json,
}

-- What is installed is valid.
pub install-valid :
    (root : RootNode) (old : Configs) → are_valid old ≡ true → are_valid (install root old).0 ≡ true
unfolding install g_parse_from_json parse_members
install-valid root old h = ground arith

emplace-last : (k v : ℤ) (m : OrdMap ℤ) → AllBelow k m → emplace k v m ≡ m ++ (k, v) ∷ []
unfolding emplace
emplace-last k v [] below = refl
emplace-last k v ((j, w) ∷ m) below = ground (arith, emplace-last k v m below.1)

append-nil : (m : OrdMap ℤ) → m ++ [] ≡ m
append-nil [] = refl
append-nil (x ∷ m) = ap (λ ys. x ∷ ys) (append-nil m)

append-snoc : (m : OrdMap ℤ) (x : ℤ × ℤ) (ps : OrdMap ℤ) → (m ++ x ∷ []) ++ ps ≡ m ++ x ∷ ps
append-snoc [] x ps = refl
append-snoc (y ∷ m) x ps = ap (λ ys. y ∷ ys) (append-snoc m x ps)

append-AllAbove : (lo k v : ℤ) (m ps : OrdMap ℤ) → AllAbove lo (m ++ (k, v) ∷ ps) → lo <ℤ k
append-AllAbove lo k v [] ps o = o.0
append-AllAbove lo k v (x ∷ m) ps o = append-AllAbove lo k v m ps o.1

append-AllBelow : (k v : ℤ) (m ps : OrdMap ℤ) → IsOrdered (m ++ (k, v) ∷ ps) → AllBelow k m
append-AllBelow k v [] ps o = tt
append-AllBelow k v ((j, w) ∷ m) ps o =
    (append-AllAbove j k v m ps o.0, append-AllBelow k v m ps o.1)

-- Pairs in ascending order are read as they are.
read_pairs-ordered :
    (ps m : OrdMap ℤ) → IsOrdered (m ++ ps) → read_pairs (map pair_node ps) m ≡ (m ++ ps, true)
unfolding read_pairs
read_pairs-ordered [] m o = rw (append-nil m) refl
read_pairs-ordered ((k, v) ∷ ps) m o =
    let last = emplace-last k v m (append-AllBelow k v m ps o) in
    let same = append-snoc m (k, v) ps in
    rw last (read_pairs-ordered ps (m ++ (k, v) ∷ []) (rw same o) ∙ ap (λ ys. (ys, true)) same)

-- The four configurations as they are, of which the sleep times are not empty.
parse_from_json-same :
    (c : ClientConfig)
    → c.proxy_sleeptime_map ≢ []
    → IsOrdered c.proxy_sleeptime_map
    → parse_from_json (to_json c) temporaries.client ≡ (c, true)
unfolding parse_from_json to_json read_members pairs_node
parse_from_json-same c some_time o = elim (List-cases c.proxy_sleeptime_map) [
  | inl e ↦ absurd (some_time e)
  | inr (p, ps, e) ↦
      let pairs = read_pairs-ordered c.proxy_sleeptime_map [] o in ground (arith, e, pairs)
]

parse_server-same :
    (c : ServerConfig)
    → server_is_valid c ≡ true
    → parse_server (server_to_json c) temporaries.server ≡ (c, true)
unfolding parse_server server_to_json server_is_valid has_first_ip
parse_server-same c valid = ground arith

-- What valid configurations with a sleep time are written as is read back.
pub g_parse_from_json-root_of :
    (c : Configs) (check_valid : Bool)
    → are_valid c ≡ true
    → c.client.proxy_sleeptime_map ≢ []
    → IsOrdered c.client.proxy_sleeptime_map
    → g_parse_from_json (root_of c) check_valid temporaries ≡ (c, true)
unfolding g_parse_from_json parse_members root_of are_valid parse_database database_to_json
    parse_proxy proxy_to_json
g_parse_from_json-root_of c check_valid valid some_time o =
    let client = parse_from_json-same c.client some_time o in
    let server_valid : server_is_valid c.server ≡ true = ground arith in
    let server = parse_server-same c.server server_valid in ground (arith, client, server)

module _ (json : ConfigText) where
  open json use {Text, parse, to_styled_string}

  -- Valid configurations that are written to the file come back from it, whatever the globals have
  -- become, if there is a sleep time and a text is parsed to what it was made of.
  pub g_reload_config-g_write_config :
      (c old : Configs) (file : Option Text)
      → ((root : RootNode) → parse (to_styled_string root) ≡ some root)
      → are_valid c ≡ true
      → c.client.proxy_sleeptime_map ≢ []
      → IsOrdered c.client.proxy_sleeptime_map
      → g_reload_config json (g_write_config json true c file).0 old ≡ (c, true)
  unfolding g_reload_config g_write_config install g_parse_from_json parse_members root_of are_valid
      parse_database database_to_json parse_proxy proxy_to_json
  g_reload_config-g_write_config c old file parses valid some_time o =
      let client = parse_from_json-same c.client some_time o in
      let server_valid : server_is_valid c.server ≡ true = ground arith in
      let server = parse_server-same c.server server_valid in
      ground (arith, client, server, parses (root_of c))

  -- Without a sleep time the file that is written is refused, and a server does not start with it.
  g_reload_config-no_sleeptime :
      (c old : Configs) (file : Option Text)
      → ((root : RootNode) → parse (to_styled_string root) ≡ some root)
      → c.client.proxy_sleeptime_map ≡ []
      → g_reload_config json (g_write_config json true c file).0 old ≡ (old, false)
  unfolding g_reload_config g_write_config install g_parse_from_json parse_members root_of
      parse_from_json to_json read_members pairs_node
  g_reload_config-no_sleeptime c old file parses e = ground (arith, e, parses (root_of c))
