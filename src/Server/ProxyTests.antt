-- ===== src/Server/ProxyTests.antt =====
-- The theorems on the server's proxies, its database pool and its texts at concrete inputs.
use bili_user_spider.Prelude.{
  ◌≤◌, ◌<◌, ◌≡◌, refl, List, [], ◌∷◌, ◌++◌, none, some, Bool, true, false, arith, String, pos,
  length,
}
use bili_user_spider.Server.ProxyManager.{Entry, Reply, ProxyData, Outside}
use bili_user_spider.Server.ProxyManager.Sql.{
  proxy_row, add_proxies_sql, add_proxies_size, remove_proxies_sql, remove_proxies_size,
}
use bili_user_spider.Server.ProxyManager.Sql.Fits.{add_proxies_sql-fits}
use bili_user_spider.Sql.{codes, show_u, digits, concat, close, statement}
use bili_user_spider.Server.ProxyManager.Lifecycle.{
  ProxyManager, initially, start, here, then_step, starts, g_stops, Steps-one_thread,
}
use bili_user_spider.Server.MysqlPool.{Pool, wait, here as no_move, then_move}
use bili_user_spider.Server.MysqlPool.Laws.{Moves-stuck}
use bili_user_spider.Server.Util.UrlCode.{url_encode, url_decode}
use bili_user_spider.Server.Util.UrlCode.Laws.{url_decode-url_encode}

-- A database that takes everything, and ports that all read as 80.
abbrev outside : Outside
outside = record {
  World = Bool;
  atoi = λ s. pos 80;
  get_connection = λ w. (w, false);
  mysql_query = λ sql w. (w, true);
  proxy_max_error_times = λ w. pos 10;
}

abbrev no_answer : Reply String
no_answer = record { is_ok = false; json = none }

abbrev two_no_answers : List (Reply String)
two_no_answers = no_answer ∷ no_answer ∷ []

abbrev entry : Entry
entry = record { ip = some "10.0.0.1"; port = some "80" }

abbrev listing : Reply String
listing = record { is_ok = true; json = some (some "0", some (entry ∷ [])) }

abbrev listed : List ProxyData
listed = (record { host = "10.0.0.1"; port = pos 80 }) ∷ []

-- Started, stopped and started again while its thread still runs.
abbrev restarted : ProxyManager
restarted = record {
  is_running = true;
  has_pool = true;
  bg_thread_quit = false;
  looping = 1;
  ending = 0;
}

Steps-one_thread_example : (restarted.looping ≤ 1) × (restarted.looping ≡ 1)
unfolding start
Steps-one_thread_example =
    let stopped = record restarted { is_running = false } in
    Steps-one_thread {m = restarted} (
      then_step initially stopped restarted
        (then_step initially restarted stopped
          (then_step initially initially restarted (here initially) (starts initially))
          (g_stops restarted))
        (starts stopped))

abbrev waiting : Pool
waiting = record { queue = []; holder = some 3 }

Moves-stuck_example : (waiting.holder ≡ some 3) × (waiting.queue ≡ [])
Moves-stuck_example =
    Moves-stuck {p = waiting} {q = waiting} 3
      (then_move waiting waiting waiting (no_move waiting) (wait 3 waiting refl refl)) refl refl

-- `a /`.
url_decode-url_encode_example :
    url_decode (url_encode (97 ∷ 32 ∷ 47 ∷ [])) ≡ some (97 ∷ 32 ∷ 47 ∷ [])
url_decode-url_encode_example =
    url_decode-url_encode (97 ∷ 32 ∷ 47 ∷ []) (omega arith, (omega arith, (omega arith, tt)))

add_proxies_sql-fits_example :
    (length (add_proxies_sql listed) ≤ add_proxies_size listed)
    × (length (remove_proxies_sql (pos 10)) ≤ remove_proxies_size)
unfolding codes
add_proxies_sql-fits_example = add_proxies_sql-fits listed (pos 10) (omega arith, tt)

the_statement :
    add_proxies_sql listed
    ≡ codes "INSERT IGNORE INTO proxy (`host`,`port`) VALUE('10.0.0.1',80);" ++ 0 ∷ []
unfolding add_proxies_sql proxy_row codes show_u digits concat close statement
the_statement = refl

-- One host of 43 bytes takes more than the buffer has.
abbrev long_host : List ProxyData
long_host = (record { host = "p0123456789.residential.proxies.example.org"; port = pos 65535 }) ∷ []

too_long : add_proxies_size long_host < length (add_proxies_sql long_host)
unfolding add_proxies_size add_proxies_sql proxy_row codes show_u digits concat close statement
too_long = omega arith
