-- ===== src/Client/ProxyManager/Laws.antt =====
-- What the pool of proxies promises.
use bili_user_spider.Prelude.{
  ℕ, zero, suc, ◌%◌, ◌<◌, ◌≡◌, refl, ◌≢◌, ◌↔◌, ◌⊎◌, List, [], ◌∷◌, none, some, Bool, true, false,
  ◌||◌, arith, if◌then◌else◌, length, ℤ, pos, ◌+ℤ◌, Option-cases, Bool-cases, inl, inr,
}
use bili_user_spider.Client.ProxyManager.Proxies.{
  ProxyData, Pool, equivalent, equivalent_iff, find, emplace, find-emplace, find-assign,
}
use bili_user_spider.Client.ProxyManager.{advance, get_random_proxy, error_proxy}
use bili_user_spider.Client.ProxyManager.Db.{
  ProxyDb, api_get_all_proxies, get_all_proxies_from_db, fill, wait_for_proxies,
  report_all_error_proxies_to_db, sync_round,
}

-- An error counts one more for the proxy, which comes back into the pool if it was not there, and
-- nothing for any other.
pub find-error_proxy :
    (p q : ProxyData) (m : Pool)
    → find q (error_proxy p m) ≡ (
        if equivalent q p
        then elim (find p m) [ none ↦ some (pos 1) | some n ↦ some (n +ℤ pos 1) ]
        else find q m)
unfolding error_proxy
find-error_proxy p q m = elim (Option-cases (find p m)) [
  | inl e ↦ ground (arith, find-emplace p q (pos 1) m, equivalent_iff q p)
  | inr (n, e) ↦ ground (arith, find-assign p q (n +ℤ pos 1) m, equivalent_iff q p)
]

advance-some : (i : ℕ) (m : Pool) → i < length m → advance i m ≢ none
unfolding advance
advance-some i [] h = absurd (omega arith)
advance-some zero ((p, n) ∷ m) h = ground arith
advance-some (suc i) ((p, n) ∷ m) h = advance-some i m (omega arith)

-- A pool without a proxy is the only one that gives none out, whatever the random number is.
pub get_random_proxy-none : (r : ℕ) (m : Pool) → (get_random_proxy r m ≡ none) ↔ (m ≡ [])
unfolding get_random_proxy
get_random_proxy-none r [] = ground arith
get_random_proxy-none r ((p, n) ∷ m) =
    let i = r % length ((p, n) ∷ m) in
    let within : i < length ((p, n) ∷ m) = grind arith in
    ground (arith, advance-some i ((p, n) ∷ m) within)

unfoldable pub contains : ProxyData → List ProxyData → Bool
contains q [] = false
contains q (p ∷ ps) = equivalent q p || contains q ps

pub fill-find :
    (q : ProxyData) (ps : List ProxyData) (m : Pool)
    → find q (fill ps m)
      ≡ elim (find q m) [ some k ↦ some k | none ↦ if contains q ps then some (pos 0) else none ]
unfolding fill contains
fill-find q [] m = ground arith
fill-find q (p ∷ ps) m =
    ground
      (arith, fill-find q ps (emplace p (pos 0) m), find-emplace p q (pos 0) m, equivalent_iff q p)

module _ (db : ProxyDb) where
  open db use {World, rows}

  api_get_all_proxies-rows :
      (max_error_count : ℤ) (w : World)
      → let (w', ps, done) = api_get_all_proxies db max_error_count [] w in
        ps ≡ (if done then rows w' else [])
  unfolding api_get_all_proxies
  api_get_all_proxies-rows max_error_count w = ground arith

  get_all_proxies_from_db-rows :
      (tries : ℕ) (w : World)
      → let (w', ps, done) = get_all_proxies_from_db db tries [] w in
        ps ≡ (if done then rows w' else [])
  unfolding get_all_proxies_from_db
  get_all_proxies_from_db-rows zero w = refl
  get_all_proxies_from_db-rows (suc tries) w =
      let first = api_get_all_proxies db (db.proxy_max_error_times w) [] w in
      elim (Bool-cases first.2) [
        | inl e ↦ ground (arith, e, api_get_all_proxies-rows (db.proxy_max_error_times w) w)
        | inr e ↦
            let empty : first.1 ≡ [] =
              ground (arith, e, api_get_all_proxies-rows (db.proxy_max_error_times w) w) in
            rw (e, empty) (get_all_proxies_from_db-rows tries first.0)
      ]

  wait_for_proxies-rows :
      (tries : ℕ) (acc : List ProxyData) (w : World)
      → acc ≡ []
      → let (w', ps) = wait_for_proxies db tries acc w in (ps ≡ []) ⊎ (ps ≡ rows w')
  unfolding wait_for_proxies
  wait_for_proxies-rows zero acc w empty = inl empty
  wait_for_proxies-rows (suc tries) acc w empty =
      let (w', ps, done) = get_all_proxies_from_db db 10 acc w in
      let fetched : ps ≡ (if done then rows w' else []) =
        rw empty (get_all_proxies_from_db-rows 10 w) in
      ground (arith, fetched, wait_for_proxies-rows tries ps w')

  -- A round that goes on leaves the proxies of the last SELECT in the pool, each with no error, and
  -- there is at least one.
  sync_round-find :
      (q : ProxyData) (m : Pool) (w : World)
      → (sync_round db m w).2 ≡ true
      → let (m', w', _) = sync_round db m w in
        (rows w' ≢ []) × (find q m' ≡ (if contains q (rows w') then some (pos 0) else none))
  unfolding sync_round find
  sync_round-find q m w on =
      let (w1, reported) = report_all_error_proxies_to_db db m w in
      let (w2, ps) = wait_for_proxies db 10 [] w1 in
      ground (arith, wait_for_proxies-rows 10 [] w1 refl, fill-find q ps [])
