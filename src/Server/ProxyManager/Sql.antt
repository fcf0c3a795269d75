-- ===== src/Server/ProxyManager/Sql.antt =====
-- The texts that `addProxies` and `removeProxies` of
-- BiliUserSpiderServer/src/manager/proxy_manager.cpp put into their buffers, and the sizes of these.
pub mod Fits
use bili_user_spider.Prelude.{ℕ, ◌+◌, ◌*◌, List, [], ◌∷◌, ◌++◌, map, length, ℤ}
use bili_user_spider.Sql.{codes, show_u, show_d, statement}
use bili_user_spider.Server.ProxyManager.{ProxyData}

unfoldable pub proxy_row : ProxyData → List ℕ
proxy_row p = codes "('" ++ (codes p.host ++ (codes "'," ++ (show_u p.port ++ codes "),")))

unfoldable pub add_proxies_sql : List ProxyData → List ℕ
add_proxies_sql ps =
    statement (codes "INSERT IGNORE INTO proxy (`host`,`port`) VALUE") (map proxy_row ps)

unfoldable pub add_proxies_size : List ProxyData → ℕ
add_proxies_size ps = 64 + 32 * length ps

unfoldable pub remove_proxies_sql : ℤ → List ℕ
remove_proxies_sql proxy_max_error_times =
    codes "DELETE FROM proxy WHERE `error_count`>"
    ++ (show_d proxy_max_error_times ++ (codes ";" ++ 0 ∷ []))

abbrev pub remove_proxies_size : ℕ
remove_proxies_size = 64
