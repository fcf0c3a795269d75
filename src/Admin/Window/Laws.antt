-- ===== src/Admin/Window/Laws.antt =====
-- What the buttons of the window say after any events.
use bili_user_spider.Prelude.{ℕ, List, [], ◌∷◌, ◌≡◌, Option, some, Bool, true, false, ℤ, arith}
use bili_user_spider.Server.Config.File.{Configs}
use bili_user_spider.Admin.Forms.{Qt}
use bili_user_spider.Admin.Window.{
  absent, looping, leaving, Window, first_of, on_server_connected, on_server_disconnected,
  on_server_stopped, start_thread, update_all_config, on_connect, on_disconnect, on_update_progress,
  Event, connects, disconnects, starts, stops, shuts_down, sets_client, sets_proxy, sets_database,
  sets_server, updates_clients_info, updates_progress, updates_pool_size, empties_pool, clicks,
  double_clicks, opens_menu, closes_menu, closes, thread_leaves, thread_ends, lock, leave,
  end_thread, handle, run,
}
use bili_user_spider.Admin.Window.Consistent.{
  IsConsistent, on_server_disconnected-IsConsistent, if-IsConsistent, on_connect-IsConsistent,
  on_set_client_config-IsConsistent, on_set_db_config-IsConsistent,
  on_set_proxy_config-IsConsistent, on_set_server_config-IsConsistent,
  on_update_clients_info-IsConsistent, on_update_progress-IsConsistent, on_start-IsConsistent,
  on_stop-IsConsistent, on_shutdown-IsConsistent, on_update_proxy_pool_size-IsConsistent,
  on_empty_proxy_pool-IsConsistent, close_event-IsConsistent, leave-IsConsistent,
  end_thread-IsConsistent,
}

module _ (qt : Qt) where
  handle-IsConsistent : (e : Event) (w : Window) → IsConsistent w → IsConsistent (handle qt e w)
  unfolding handle lock on_disconnect
  handle-IsConsistent (connects has_addr running configs db_ok) w v =
      if-IsConsistent w.btn_connect _ w
        (λ b. on_connect-IsConsistent qt has_addr running configs db_ok w b v) v
  handle-IsConsistent disconnects w v =
      if-IsConsistent w.btn_disconnect _ w (λ b. on_server_disconnected-IsConsistent w v.quit) v
  handle-IsConsistent (starts answers) w v =
      if-IsConsistent w.btn_start _ w (λ b. on_start-IsConsistent answers w v) v
  handle-IsConsistent (stops confirmed answers) w v = on_stop-IsConsistent confirmed answers w v
  handle-IsConsistent (shuts_down confirmed answers) w v =
      on_shutdown-IsConsistent confirmed answers w v
  handle-IsConsistent (sets_client answers) w v = on_set_client_config-IsConsistent qt answers w v
  handle-IsConsistent (sets_proxy answers) w v = on_set_proxy_config-IsConsistent qt answers w v
  handle-IsConsistent (sets_database answers db_ok) w v =
      on_set_db_config-IsConsistent qt answers db_ok w v
  handle-IsConsistent (sets_server fresh answers) w v =
      on_set_server_config-IsConsistent qt fresh answers w v
  handle-IsConsistent (updates_clients_info now answers) w v =
      on_update_clients_info-IsConsistent now answers w v
  handle-IsConsistent (updates_progress answers) w v = on_update_progress-IsConsistent answers w v
  handle-IsConsistent (updates_pool_size instance_ok answers) w v =
      on_update_proxy_pool_size-IsConsistent instance_ok answers w v
  handle-IsConsistent (empties_pool confirmed instance_ok answers) w v =
      on_empty_proxy_pool-IsConsistent confirmed instance_ok answers w v
  handle-IsConsistent (clicks col now) w v = ground arith
  handle-IsConsistent (double_clicks col) w v = ground arith
  handle-IsConsistent opens_menu w v = ground arith
  handle-IsConsistent closes_menu w v = ground arith
  handle-IsConsistent closes w v = close_event-IsConsistent w v
  handle-IsConsistent thread_leaves w v = leave-IsConsistent w v
  handle-IsConsistent thread_ends w v = end_thread-IsConsistent w v

  -- Whatever happens to the window, in whatever order and whatever the server answers, its buttons
  -- stay consistent: Connect with the address, or Disconnect with Shutdown and one of Start and Stop.
  pub run-IsConsistent :
      (es : List Event) (w : Window) → IsConsistent w → IsConsistent (run qt es w)
  unfolding run
  run-IsConsistent [] w v = v
  run-IsConsistent (e ∷ es) w v = run-IsConsistent es (handle qt e w) (handle-IsConsistent e w v)

  -- After the window is disconnected, an answer to a request for the progress that is still waiting,
  -- from a server that does not run, enables Disconnect and Start, while the window is not connected
  -- and the next round of its thread is the last.
  pub run-stale :
      (answers : ℕ → Option (Bool × (ℤ × ℤ × ℤ))) (mids : ℤ × ℤ × ℤ) (w : Window)
      → IsConsistent w
      → w.btn_disconnect ≡ true
      → w.thread ≡ looping
      → answers 0 ≡ some (false, mids)
      → let w' = run qt (disconnects ∷ updates_progress answers ∷ thread_leaves ∷ []) w in
        (w'.btn_connect ≡ false)
        × (w'.btn_disconnect ≡ true)
        × (w'.btn_start ≡ true)
        × (w'.is_svr_connected ≡ false)
        × (w'.thread ≡ leaving)
  unfolding run handle on_disconnect on_server_disconnected on_update_progress on_server_stopped
      first_of leave
  run-stale answers mids w v can_disconnect alive answer = ground arith

  -- A window that is connected while its thread is behind its loop is left without a thread.
  pub run-no_thread :
      (has_addr : Bool) (status : Bool) (c : Configs) (configs : ℕ → Option Configs) (db_ok : Bool)
      (w : Window)
      → IsConsistent w
      → w.btn_connect ≡ true
      → w.thread ≡ leaving
      → configs 0 ≡ some c
      → let w' = run qt (connects true (some status) configs db_ok ∷ thread_ends ∷ []) w in
        (w'.is_svr_connected ≡ true) × (w'.thread ≡ absent)
  unfolding run handle on_connect update_all_config on_server_connected start_thread first_of
      end_thread
  run-no_thread has_addr status c configs db_ok w v can_connect behind read = ground arith
