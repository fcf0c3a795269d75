-- ===== src/Admin/Window/Consistent.antt =====
-- What the buttons of the window say after each slot.
use bili_user_spider.Prelude.{
  ℕ, List, ◌≡◌, refl, Option, none, some, Bool, true, false, not, ◌&&◌, if◌then◌else◌, ℤ, arith,
  Bool-cases, Option-cases, inl, inr,
}
use bili_user_spider.Server.Config.{ServerConfig}
use bili_user_spider.Server.Config.File.{Configs}
use bili_user_spider.Admin.Table.{SpiderClientInfo, Table}
use bili_user_spider.Admin.Forms.{Qt}
use bili_user_spider.Admin.Window.{
  Thread, absent, looping, leaving, Window, first_of, on_server_connected, on_server_disconnected,
  on_server_started, on_server_stopped, on_server_shutdown, start_thread, update_all_config,
  on_connect, on_set_client_config, on_set_db_config, on_set_proxy_config, on_set_server_config,
  on_disconnect, on_start, on_stop, on_shutdown, on_update_clients_info, on_update_progress,
  on_update_proxy_pool_size, on_empty_proxy_pool, close_event, leave, end_thread,
}

abbrev is_absent : Thread → Bool
is_absent absent = true
is_absent looping = false
is_absent leaving = false

-- Connect and the address are enabled, or Disconnect and Shutdown, and with these one of Start and
-- Stop, by whether the server runs as far as the window knows. While Stop is enabled, the first and
-- the current id cannot be edited. A window that is connected has Disconnect and all boxes enabled.
-- The flag of the thread is set exactly if there is none.
pub record IsConsistent (w : Window) : Type 0 where
  pub addr : w.edit_server_addr ≡ w.btn_connect
  pub disconnect : w.btn_disconnect ≡ not w.btn_connect
  pub shutdown : w.btn_shutdown ≡ not w.btn_connect
  pub start : w.btn_start ≡ (not w.btn_connect && not w.is_svr_running)
  pub stop : w.btn_stop ≡ (not w.btn_connect && w.is_svr_running)
  pub start_locked : (w.btn_stop && w.edit_mid_start) ≡ false
  pub current_locked : (w.btn_stop && w.edit_mid_current) ≡ false
  pub connected : (w.is_svr_connected && w.btn_connect) ≡ false
  pub client_box : (w.is_svr_connected && not w.client_config_box) ≡ false
  pub db_box : (w.is_svr_connected && not w.db_config_box) ≡ false
  pub proxy_box : (w.is_svr_connected && not w.proxy_config_box) ≡ false
  pub svr_box : (w.is_svr_connected && not w.svr_config_box) ≡ false
  pub range_box : (w.is_svr_connected && not w.task_range_box) ≡ false
  pub quit : w.is_bg_thread_quit ≡ is_absent w.thread

pub on_server_disconnected-IsConsistent :
    (w : Window)
    → w.is_bg_thread_quit ≡ is_absent w.thread
    → IsConsistent (on_server_disconnected w)
unfolding on_server_disconnected
on_server_disconnected-IsConsistent w q = ground arith

pub on_server_stopped-IsConsistent :
    (w : Window) → IsConsistent w → IsConsistent (on_server_stopped w)
unfolding on_server_stopped
on_server_stopped-IsConsistent w v = ground arith

pub on_server_started-IsConsistent :
    (w : Window) → IsConsistent w → IsConsistent (on_server_started w)
unfolding on_server_started
on_server_started-IsConsistent w v = ground arith

pub connected-IsConsistent :
    (w : Window)
    → w.is_bg_thread_quit ≡ is_absent w.thread
    → IsConsistent (start_thread (on_server_connected w))
unfolding start_thread on_server_connected
connected-IsConsistent w q = elim (Bool-cases w.is_bg_thread_quit) [
  | inl e ↦ ground arith
  | inr e ↦ ground arith
]

pub table-IsConsistent :
    (w : Window) (t : Table) → IsConsistent w → IsConsistent (record w { table = t })
table-IsConsistent w t v = ground arith

-- An event that changes the window only where it can happen.
pub if-IsConsistent :
    (b : Bool) (w' w : Window)
    → (b ≡ true → IsConsistent w')
    → IsConsistent w
    → IsConsistent (if b then w' else w)
if-IsConsistent true w' w yes' v = yes' refl
if-IsConsistent false w' w yes' v = v

module _ (qt : Qt) where
  pub on_connect-IsConsistent :
      (has_addr : Bool) (running : Option Bool) (configs : ℕ → Option Configs) (db_ok : Bool)
      (w : Window)
      → w.btn_connect ≡ true
      → IsConsistent w
      → IsConsistent (on_connect qt has_addr running configs db_ok w)
  unfolding on_connect update_all_config
  on_connect-IsConsistent false running configs db_ok w b v = v
  on_connect-IsConsistent true none configs db_ok w b v = v
  on_connect-IsConsistent true (some status) configs db_ok w b v =
      elim (Option-cases (first_of 3 0 configs)) [
        | inl e ↦ rw e (ground arith)
        | inr (c, e) ↦ rw e (connected-IsConsistent _ v.quit)
      ]

  pub on_set_client_config-IsConsistent :
      (answers : ℕ → Bool) (w : Window)
      → IsConsistent w
      → IsConsistent (on_set_client_config qt answers w)
  unfolding on_set_client_config
  on_set_client_config-IsConsistent answers w v = ground arith

  pub on_set_db_config-IsConsistent :
      (answers : ℕ → Bool) (db_ok : Bool) (w : Window)
      → IsConsistent w
      → IsConsistent (on_set_db_config qt answers db_ok w)
  unfolding on_set_db_config
  on_set_db_config-IsConsistent answers db_ok w v = ground arith

  pub on_set_proxy_config-IsConsistent :
      (answers : ℕ → Bool) (w : Window)
      → IsConsistent w
      → IsConsistent (on_set_proxy_config qt answers w)
  unfolding on_set_proxy_config
  on_set_proxy_config-IsConsistent answers w v = ground arith

  pub on_set_server_config-IsConsistent :
      (fresh : ServerConfig) (answers : ℕ → Bool) (w : Window)
      → IsConsistent w
      → IsConsistent (on_set_server_config qt fresh answers w)
  unfolding on_set_server_config
  on_set_server_config-IsConsistent fresh answers w v = ground arith

pub on_update_clients_info-IsConsistent :
    (now : ℤ) (answers : ℕ → Option (Bool × List SpiderClientInfo)) (w : Window)
    → IsConsistent w
    → IsConsistent (on_update_clients_info now answers w)
unfolding on_update_clients_info on_disconnect
on_update_clients_info-IsConsistent now answers w v =
    elim (Option-cases (first_of (if w.is_svr_connected then 3 else 0) 0 answers)) [
      | inl e ↦ rw (e, on_update_clients_info) (on_server_disconnected-IsConsistent _ v.quit)
      | inr ((true, infos), e) ↦ ground (arith, e)
      | inr ((false, infos), e) ↦
          rw (e, on_update_clients_info)
            (table-IsConsistent _ _ (on_server_stopped-IsConsistent _ (table-IsConsistent w _ v)))
    ]

pub on_update_progress-IsConsistent :
    (answers : ℕ → Option (Bool × (ℤ × ℤ × ℤ))) (w : Window)
    → IsConsistent w
    → IsConsistent (on_update_progress answers w)
unfolding on_update_progress on_disconnect
on_update_progress-IsConsistent answers w v = elim (Option-cases (first_of 3 0 answers)) [
  | inl e ↦ rw (e, on_update_progress) (on_server_disconnected-IsConsistent w v.quit)
  | inr ((true, mids), e) ↦ ground (arith, e)
  | inr ((false, mids), e) ↦ ground (arith, e, on_server_stopped-IsConsistent w v)
]

pub on_start-IsConsistent :
    (answers : ℕ → Bool) (w : Window) → IsConsistent w → IsConsistent (on_start answers w)
unfolding on_start
on_start-IsConsistent answers w v = ground (arith, on_server_started-IsConsistent w v)

pub on_stop-IsConsistent :
    (confirmed : Bool) (answers : ℕ → Bool) (w : Window)
    → IsConsistent w
    → IsConsistent (on_stop confirmed answers w)
unfolding on_stop
on_stop-IsConsistent confirmed answers w v = ground (arith, on_server_stopped-IsConsistent w v)

pub on_shutdown-IsConsistent :
    (confirmed : Bool) (answers : ℕ → Bool) (w : Window)
    → IsConsistent w
    → IsConsistent (on_shutdown confirmed answers w)
unfolding on_shutdown on_server_shutdown
on_shutdown-IsConsistent confirmed answers w v =
    ground (arith, on_server_disconnected-IsConsistent (record w { is_svr_running = false }) v.quit)

pub on_update_proxy_pool_size-IsConsistent :
    (instance_ok : Bool) (answers : ℕ → Option ℤ) (w : Window)
    → IsConsistent w
    → IsConsistent (on_update_proxy_pool_size instance_ok answers w)
unfolding on_update_proxy_pool_size
on_update_proxy_pool_size-IsConsistent instance_ok answers w v = ground arith

pub on_empty_proxy_pool-IsConsistent :
    (confirmed instance_ok : Bool) (answers : ℕ → Bool) (w : Window)
    → IsConsistent w
    → IsConsistent (on_empty_proxy_pool confirmed instance_ok answers w)
unfolding on_empty_proxy_pool
on_empty_proxy_pool-IsConsistent confirmed instance_ok answers w v = ground arith

pub close_event-IsConsistent : (w : Window) → IsConsistent w → IsConsistent (close_event w)
unfolding close_event
close_event-IsConsistent w v = ground arith

pub leave-IsConsistent : (w : Window) → IsConsistent w → IsConsistent (leave w)
unfolding leave
leave-IsConsistent w v = ground arith

pub end_thread-IsConsistent : (w : Window) → IsConsistent w → IsConsistent (end_thread w)
unfolding end_thread
end_thread-IsConsistent w v = ground arith
