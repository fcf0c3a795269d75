-- ===== src/Client/ProxyManager.antt =====
-- The client's proxy manager, BiliUserSpiderClient/src/manager/proxy_manager.h and .cpp, with the
-- statements of api/api_proxy.cpp. Every method and the part of a round of the background thread
-- that is modelled hold the mutex.
pub mod Proxies
pub mod Db
pub mod Laws
pub mod Refine
use bili_user_spider.Prelude.{
  ℕ, zero, suc, ◌+◌, ◌%◌, List, [], ◌∷◌, Option, none, some, Bool, true, false, if◌then◌else◌,
  length, ltb, ℤ, pos, negsuc, ◌+ℤ◌,
}
use bili_user_spider.Prelude.OrdMap.{OrdMap}
use bili_user_spider.Client.ProxyManager.Proxies.{ProxyData, Pool, find, emplace, erase, assign}

-- `size < pair.first` compares as unsigned numbers.
unfoldable pub is_below : ℕ → ℤ → Bool
is_below size (pos n) = ltb size n
is_below size (negsuc n) = true

-- The seconds that `getRandomProxy` sleeps before it takes a proxy.
unfoldable pub sleeptime : ℕ → OrdMap ℤ → ℤ
sleeptime size [] = pos 0
sleeptime size ((count, seconds) ∷ m) = if is_below size count then seconds else sleeptime size m

unfoldable pub advance : ℕ → Pool → Option ProxyData
advance i [] = none
advance zero ((p, n) ∷ m) = some p
advance (suc i) ((p, n) ∷ m) = advance i m

-- `getRandomProxy` after the sleep, for the number that `rand` gives; `none` is the division by zero
-- that an empty pool ends in.
unfoldable pub get_random_proxy : ℕ → Pool → Option ProxyData
get_random_proxy r m = if ltb 0 (length m) then advance (r % length m) m else none

unfoldable pub error_proxy : ProxyData → Pool → Pool
error_proxy p m = elim (find p m) [ none ↦ emplace p (pos 1) m | some n ↦ assign p (n +ℤ pos 1) m ]

-- The first part of `removeProxy`; the statement is in `Db`.
unfoldable pub drop_proxy : ProxyData → Pool → Pool
drop_proxy p m = elim (find p m) [ none ↦ m | some _ ↦ erase p m ]
