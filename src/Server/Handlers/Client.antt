-- ===== src/Server/Handlers/Client.antt =====
-- The handlers that the spider clients call: uri/client.cpp and uri/task.cpp.
use bili_user_spider.Prelude.{none, some, if◌then◌else◌, ℤ, pos, ltb_ℤ}
use bili_user_spider.Server.Json.{JsonText}
use bili_user_spider.Server.Status.{client_disconnect}
use bili_user_spider.Server.TaskManager.{Env, Assignment, refused, assigned, get_task, commit}
use bili_user_spider.Server.ClientManager.{join, quit, heartbeat}
use bili_user_spider.Server.Handlers.Monad.{
  Server, Request, Payload, nothing, connected, joined, task, committed, pass, stop, reply, M,
  ◌>>=◌, ◌>>◌, return_ok, get, modify, check_status, check_token, check_param_str, check_param_int,
  get_param_int,
}

-- MIN_MIDS_COUNT is the default of `count`; nothing keeps a smaller one out.
abbrev pub min_mids_count : ℤ
min_mids_count = pos 200

abbrev pub max_mids_count : ℤ
max_mids_count = pos 1000

unfoldable pub env_of : {Text : Type 0} → Request → Server Text → Env
env_of req s = record {
  now = req.task_now;
  is_running = s.is_running;
  main_task_timeout = s.svr_config.main_task_timeout;
  can_open = req.can_open;
}

module _ {Text : Type 0} where
  unfoldable pub client_connect : Request → M Text Payload
  client_connect req = do
    check_token req
    check_status
    s ← get
    return_ok (connected s.client_config s.db_config)

  unfoldable pub client_join : Request → M Text Payload
  client_join req = do
    check_token req
    check_status
    os ← check_param_str req "os"
    threads ← check_param_int req "threads"
    s ← get
    let (mgr, id) = join req.client_now req.host os threads s.client_mgr
    modify (λ s. record s { client_mgr = mgr })
    return_ok (joined id)

  unfoldable pub quit_client : ℤ → M Text Payload
  quit_client id s = (record s { client_mgr = quit id s.client_mgr }, reply nothing)

  unfoldable pub client_quit : Request → M Text Payload
  client_quit req = do check_token req; id ← check_param_int req "id"; quit_client id

  -- `heartbeat` of the client manager; an unknown client ends the request.
  unfoldable pub heartbeat_or_disconnect : Request → ℤ → ℤ → M Text ℤ
  heartbeat_or_disconnect req client_id commit_all s =
      let (mgr, answer) = heartbeat req.client_now client_id commit_all s.client_mgr in
      elim answer [
        | none ↦ (record s { client_mgr = mgr }, stop client_disconnect)
        | some should_quit ↦ (record s { client_mgr = mgr }, pass should_quit)
      ]

unfoldable pub clamp : ℤ → ℤ
clamp count = if ltb_ℤ max_mids_count count then max_mids_count else count

module _ (json : JsonText) where
  -- `getTask` of the task manager; any code but `NO_ERROR` ends the request.
  unfoldable pub get_task_or_return : Request → ℤ → ℤ → M json.Text Assignment
  get_task_or_return req client_id count s =
      let (mgr, answer) = get_task json (env_of req s) client_id count s.task_mgr in
      elim answer [
        | refused code ↦ (record s { task_mgr = mgr }, stop code)
        | assigned a ↦ (record s { task_mgr = mgr }, pass a)
      ]

  -- `task_get` with its parameters in order: a task first, then the heartbeat.
  unfoldable pub hand_out : Request → ℤ → ℤ → ℤ → M json.Text Payload
  hand_out req client_id commit_all count = do
    a ← get_task_or_return req client_id (clamp count)
    should_quit ← heartbeat_or_disconnect req client_id commit_all
    s ← get
    return_ok (task a s.client_config should_quit)

  unfoldable pub task_get : Request → M json.Text Payload
  task_get req = do
    check_status
    client_id ← check_param_int req "client_id"
    commit_all ← check_param_int req "commit_all"
    count ← get_param_int req "count" min_mids_count
    hand_out req client_id commit_all count

  -- `task_commit` with its parameters in order: the commit, then the heartbeat, then the status.
  unfoldable pub take_in : Request → ℤ → ℤ → ℤ → M json.Text Payload
  take_in req client_id task_id commit_all = do
    modify (λ s. record s { task_mgr = commit json (env_of req s) client_id task_id s.task_mgr })
    should_quit ← heartbeat_or_disconnect req client_id commit_all
    check_status
    s ← get
    return_ok (committed s.client_config should_quit)

  unfoldable pub task_commit : Request → M json.Text Payload
  task_commit req = do
    client_id ← check_param_int req "client_id"
    task_id ← check_param_int req "task_id"
    commit_all ← check_param_int req "commit_all"
    take_in req client_id task_id commit_all
