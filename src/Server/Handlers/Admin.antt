-- ===== src/Server/Handlers/Admin.antt =====
-- The handlers that the administrator calls: uri/server.cpp.
use bili_user_spider.Prelude.{false, not, if◌then◌else◌, ℤ, pos, ◌==ℤ◌}
use bili_user_spider.Server.Status.{general_error}
use bili_user_spider.Server.Config.{is_empty}
use bili_user_spider.Server.TaskManager.{get_progress, set_range}
use bili_user_spider.Server.ClientManager.{start, notify_client_to_quit}
use bili_user_spider.Server.ClientManager.Info.{get_clients_info}
use bili_user_spider.Server.Handlers.Monad.{
  Request, Payload, nothing, status, progress, clients, pass, stop, reply, M, ◌>>=◌, ◌>>◌,
  return_ok, get, modify, g_start, g_stop, check_password, check_param_int,
}

-- The handlers that change something, by their URIs.
pub data AdminCall : Type 0 where
  starts stops shuts_down quits_client sets_task_range : AdminCall

module _ {Text : Type 0} where
  unfoldable pub server_connect : Request → M Text Payload
  server_connect req = do check_password req; s ← get; return_ok (status s.is_running)

  unfoldable pub server_status : Request → M Text Payload
  server_status req = do check_password req; s ← get; return_ok (status s.is_running)

  -- The two early returns of `server_start`.
  unfoldable pub check_startable : M Text (Unit {0})
  check_startable s =
      if is_empty s.proxy_config.order_id
      then (s, stop general_error)
      else (if s.is_running then (s, reply nothing) else (s, pass tt))

  -- The proxy manager's thread is not part of this state.
  unfoldable pub server_start : Request → M Text Payload
  server_start req = do
    check_password req
    check_startable
    modify g_start
    modify (λ s. record s { client_mgr = (start s.client_mgr).0 })
    return_ok nothing

  unfoldable pub server_stop : Request → M Text Payload
  server_stop req = do check_password req; modify g_stop; return_ok nothing

  unfoldable pub server_shutdown : Request → M Text Payload
  server_shutdown req = do
    check_password req
    modify g_stop
    modify (λ s. record s { http_running = false })
    return_ok nothing

  -- `static_cast<bool>(force)` is true of every number but 0.
  unfoldable pub server_quit_client : Request → M Text Payload
  server_quit_client req = do
    check_password req
    id ← check_param_int req "id"
    force ← check_param_int req "force"
    modify (λ s. record s {
      client_mgr = notify_client_to_quit id (not (force ==ℤ pos 0)) s.client_mgr;
    })
    return_ok nothing

  -- `scaled` is as in `Server.ClientManager.Info`.
  unfoldable pub server_get_clients_info : (ℤ → ℤ → ℤ) → Request → M Text Payload
  server_get_clients_info scaled req = do
    check_password req
    s ← get
    return_ok (clients (get_clients_info scaled req.client_now s.client_mgr) s.is_running)

  unfoldable pub server_get_task_progress : Request → M Text Payload
  server_get_task_progress req = do
    check_password req
    s ← get
    return_ok (progress (get_progress s.task_mgr) s.is_running)

  unfoldable pub server_set_task_range : Request → M Text Payload
  server_set_task_range req = do
    check_password req
    start ← check_param_int req "start"
    end ← check_param_int req "end"
    current ← check_param_int req "current"
    modify (λ s. record s { task_mgr = set_range s.is_running start end current s.task_mgr })
    return_ok nothing

  unfoldable pub admin : AdminCall → Request → M Text Payload
  admin starts = server_start
  admin stops = server_stop
  admin shuts_down = server_shutdown
  admin quits_client = server_quit_client
  admin sets_task_range = server_set_task_range
