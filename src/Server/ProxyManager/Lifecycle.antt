-- ===== src/Server/ProxyManager/Lifecycle.antt =====
-- `start` and `stop` of the server's proxy manager and the end of its thread, with AiErYun as the
-- provider, BiliUserSpiderServer/src/manager/proxy_manager.cpp. `start` and the deletion of the pool
-- hold the mutex; the thread sets its flag without it, so other calls can come before its `stop`.
use bili_user_spider.Prelude.{ℕ, suc, ◌+◌, ◌≤◌, ◌≡◌, refl, Bool, true, false, if◌then◌else◌, arith}

-- `looping` counts the threads in their loop, `ending` those behind it that have not called `stop`.
-- `is_running` is the global flag.
pub record ProxyManager : Type 0 where
  pub is_running : Bool
  pub has_pool : Bool
  pub bg_thread_quit : Bool
  pub looping : ℕ
  pub ending : ℕ

unfoldable pub start : ProxyManager → ProxyManager
start m =
    if m.has_pool
    then m
    else if m.bg_thread_quit
    then record m { has_pool = true; bg_thread_quit = false; looping = m.looping + 1 }
    else record m { has_pool = true }

unfoldable pub stop : ProxyManager → ProxyManager
stop m = record m { is_running = false; has_pool = false }

-- What happens to the manager: `server_start` with `g_start` first, `g_stop`, a stop by a signal, and
-- the two parts of the end of a thread.
pub data Step : ProxyManager → ProxyManager → Type 0 where
  starts : (m : ProxyManager) → Step m (start (record m { is_running = true }))
  g_stops : (m : ProxyManager) → Step m (record m { is_running = false })
  interrupted : (m : ProxyManager) → Step m (stop m)
  leaves :
      (m : ProxyManager) (n : ℕ)
      → m.looping ≡ suc n
      → Step m (record m { bg_thread_quit = true; looping = n; ending = m.ending + 1 })
  ends : (m : ProxyManager) (n : ℕ) → m.ending ≡ suc n → Step m (record (stop m) { ending = n })

pub data Steps : ProxyManager → ProxyManager → Type 0 where
  here : (m : ProxyManager) → Steps m m
  then_step : (m n o : ProxyManager) → Steps m n → Step n o → Steps m o

abbrev pub initially : ProxyManager
initially = record {
  is_running = false;
  has_pool = false;
  bg_thread_quit = true;
  looping = 0;
  ending = 0;
}

-- The flag says whether a thread is in its loop.
abbrev IsCounted : ProxyManager → Type 0
IsCounted m = m.looping ≡ (if m.bg_thread_quit then 0 else 1)

Step-IsCounted : {m n : ProxyManager} → Step m n → IsCounted m → IsCounted n
unfolding start stop
Step-IsCounted (starts m) h = ground arith
Step-IsCounted (g_stops m) h = h
Step-IsCounted (interrupted m) h = h
Step-IsCounted (leaves m n e) h = ground arith
Step-IsCounted (ends m n e) h = h

Steps-IsCounted : {m n : ProxyManager} → Steps m n → IsCounted m → IsCounted n
Steps-IsCounted (here m) h = h
Steps-IsCounted (then_step m n o before step) h = Step-IsCounted step (Steps-IsCounted before h)

-- However often the server is started and stopped, and whenever a thread ends: there is never more
-- than one thread in its loop, and the flag is false exactly while there is one.
pub Steps-one_thread :
    {m : ProxyManager}
    → Steps initially m
    → (m.looping ≤ 1) × (m.looping ≡ (if m.bg_thread_quit then 0 else 1))
Steps-one_thread steps =
    let counted = Steps-IsCounted steps refl in (ground (arith, counted), counted)
