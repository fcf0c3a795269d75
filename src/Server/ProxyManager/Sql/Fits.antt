-- ===== src/Server/ProxyManager/Sql/Fits.antt =====
-- The texts of the two statements fit into their buffers.
use bili_user_spider.Prelude.{
  ◌+◌, ◌≤◌, List, [], ◌∷◌, ◌++◌, map, arith, ℤ, length, length-append, length-map,
}
use bili_user_spider.Sql.{codes, show_u, show_d}
use bili_user_spider.Sql.Laws.{AllAtMost, length-show_u, length-show_d, length-statement}
use bili_user_spider.Server.ProxyManager.{ProxyData}
use bili_user_spider.Server.ProxyManager.Sql.{
  proxy_row, add_proxies_sql, add_proxies_size, remove_proxies_sql, remove_proxies_size,
}

-- Hosts of at most 16 bytes, as an IPv4 address has.
abbrev pub HaveShortHosts : List ProxyData → Type 0
HaveShortHosts [] = Unit {0}
HaveShortHosts (p ∷ ps) = (length (codes p.host) ≤ 16) × HaveShortHosts ps

length-proxy_row : (p : ProxyData) → length (proxy_row p) ≤ length (codes p.host) + 16
unfolding proxy_row codes
length-proxy_row p = omega (
  arith,
  length-append (codes p.host) (codes "'," ++ (show_u p.port ++ codes "),")),
  length-append (show_u p.port) (codes "),"),
  length-show_u p.port,
)

rows-AllAtMost : (ps : List ProxyData) → HaveShortHosts ps → AllAtMost 32 (map proxy_row ps)
rows-AllAtMost [] h = tt
rows-AllAtMost (p ∷ ps) h = (omega (arith, length-proxy_row p, h.0), rows-AllAtMost ps h.1)

-- However many proxies there are, the text of addProxies fits into its buffer with its last byte,
-- if no host has more than 16 bytes; that of removeProxies always does.
pub add_proxies_sql-fits :
    (ps : List ProxyData) (max_errors : ℤ)
    → HaveShortHosts ps
    → (length (add_proxies_sql ps) ≤ add_proxies_size ps)
      × (length (remove_proxies_sql max_errors) ≤ remove_proxies_size)
unfolding add_proxies_sql add_proxies_size remove_proxies_sql codes
add_proxies_sql-fits ps max_errors h = (
  omega (
    arith,
    length-statement 32 (codes "INSERT IGNORE INTO proxy (`host`,`port`) VALUE") (map proxy_row ps)
        (omega arith) (rows-AllAtMost ps h),
    length-map proxy_row ps,
  ),
  omega (arith, length-append (show_d max_errors) (codes ";" ++ 0 ∷ []), length-show_d max_errors),
)
