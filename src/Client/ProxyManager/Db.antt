-- ===== src/Client/ProxyManager/Db.antt =====
-- The exchange of the proxies with the database: `removeProxy`, the helpers of the background thread
-- and one round of it, with the statements of api/api_proxy.cpp.
use bili_user_spider.Prelude.{
  ℕ, zero, suc, List, [], ◌∷◌, ◌++◌, Bool, true, false, if◌then◌else◌, ℤ, pos, leb_ℤ,
}
use bili_user_spider.Client.ProxyManager.Proxies.{ProxyData, Pool, emplace}
use bili_user_spider.Client.ProxyManager.{drop_proxy}

-- UPDATE, DELETE and the two SELECTs.
pub data ProxyStatement : Type 0 where
  add_errors : ProxyData → ℤ → ProxyStatement
  delete : ProxyData → ProxyStatement
  select_up_to : ℤ → ProxyStatement

-- The database and what other threads change: the rows of the last SELECT, `g_forceStop` and
-- `g_clientConfig.proxy_max_error_times`.
pub record ProxyDb : Type 1 where
  pub World : Type 0
  pub mysql_is_bad : World → Bool
  pub mysql_query : ProxyStatement → World → World × Bool
  pub rows : World → List ProxyData
  pub force_stop : World → Bool
  pub proxy_max_error_times : World → ℤ

abbrev pub is_nil {ℓ} : {A : Type ℓ} → List A → Bool
is_nil [] = true
is_nil (x ∷ xs) = false

unfoldable pub fill : List ProxyData → Pool → Pool
fill [] m = m
fill (p ∷ ps) m = fill ps (emplace p (pos 0) m)

module _ (db : ProxyDb) where
  open db use {World, mysql_is_bad, mysql_query, rows, force_stop, proxy_max_error_times}

  -- True for the result 0.
  unfoldable pub api_error_proxy : ProxyData → ℤ → World → World × Bool
  api_error_proxy p count w =
      if leb_ℤ (pos 1) count
      then (if mysql_is_bad w then (w, false) else mysql_query (add_errors p count) w)
      else (w, true)

  unfoldable pub api_remove_proxy : ProxyData → World → World × Bool
  api_remove_proxy p w = if mysql_is_bad w then (w, false) else mysql_query (delete p) w

  -- The rows are put at the end of the vector; no row is an error.
  unfoldable pub api_get_all_proxies : ℤ → List ProxyData → World → World × List ProxyData × Bool
  api_get_all_proxies max_error_count acc w =
      let (w', done) = mysql_query (select_up_to max_error_count) w in
      if mysql_is_bad w
      then (w, acc, false)
      else (if done
          then (if is_nil (rows w') then (w', acc, false) else (w', acc ++ rows w', true))
          else (w', acc, false))

  unfoldable pub remove_proxy : ProxyData → Pool → World → Pool × World
  remove_proxy p m w = (drop_proxy p m, (api_remove_proxy p w).0)

  -- At most `tries` reports of one proxy.
  unfoldable pub report : ℕ → ProxyData → ℤ → World → World × Bool
  report zero p n w = (w, false)
  report (suc tries) p n w =
      let (w', done) = api_error_proxy p n w in
      let again = report tries p n w' in if done then (w', true) else again

  unfoldable pub report_all_error_proxies_to_db : Pool → World → World × Bool
  report_all_error_proxies_to_db [] w = (w, true)
  report_all_error_proxies_to_db ((p, n) ∷ m) w =
      let (w', done) = report 10 p n w in
      let rest = report_all_error_proxies_to_db m w' in if done then rest else (w', false)

  unfoldable pub get_all_proxies_from_db :
      ℕ → List ProxyData → World → World × List ProxyData × Bool
  get_all_proxies_from_db zero acc w = (w, acc, false)
  get_all_proxies_from_db (suc tries) acc w =
      let (w', acc', done) = api_get_all_proxies (proxy_max_error_times w) acc w in
      let again = get_all_proxies_from_db tries acc' w' in if done then (w', acc', true) else again

  -- The loop of the background thread that waits for proxies.
  unfoldable pub wait_for_proxies : ℕ → List ProxyData → World → World × List ProxyData
  wait_for_proxies zero acc w = (w, acc)
  wait_for_proxies (suc tries) acc w =
      let (w', acc', done) = get_all_proxies_from_db 10 acc w in
      let again = wait_for_proxies tries acc' w' in
      if force_stop w
      then (w, acc)
      else (if done then (if is_nil acc' then again else (w', acc')) else again)

  -- The part of a round of `backgroundThread` under the lock. The result is false where the loop
  -- ends, which stops the client at once.
  unfoldable pub sync_round : Pool → World → Pool × World × Bool
  sync_round m w =
      let (w1, reported) = report_all_error_proxies_to_db m w in
      let (w2, ps) = wait_for_proxies 10 [] w1 in
      if force_stop w
      then (m, w, false)
      else (if reported
          then (if is_nil ps then ([], w2, false) else (fill ps [], w2, true))
          else (m, w1, false))
