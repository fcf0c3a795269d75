-- ===== src/Server/Handlers/Serve/Kept.antt =====
-- What each request of the clients and of the administrator keeps of the state.
use bili_user_spider.Prelude.{true, false, not, ℤ, String, pos, ◌==ℤ◌, arith}
use bili_user_spider.Server.Json.{JsonText}
use bili_user_spider.Server.TaskManager.{commit, set_range}
use bili_user_spider.Server.TaskManager.Commit.{commit-IsValid}
use bili_user_spider.Server.ClientManager.{join, start, notify_client_to_quit}
use bili_user_spider.Server.ClientManager.Laws.{join-IsValid}
use bili_user_spider.Server.Handlers.Monad.{
  Server, Request, Payload, nothing, joined, task, committed, return_ok, ◌>>=◌, ◌>>◌, get, modify,
  g_start, g_stop, check_status, check_password, check_token, check_param_str, check_param_int,
  get_param_int,
}
use bili_user_spider.Server.Handlers.Client.{
  client_join, client_quit, task_get, task_commit, hand_out, take_in, get_task_or_return,
  heartbeat_or_disconnect, clamp, env_of, min_mids_count,
}
use bili_user_spider.Server.Handlers.Admin.{
  AdminCall, starts, stops, shuts_down, quits_client, sets_task_range, admin, check_startable,
  server_start, server_stop, server_shutdown, server_quit_client, server_set_task_range,
}
use bili_user_spider.Server.Handlers.Serve.Safe.{
  IsServing, Safe, >>=-Safe, same-Safe, check_status-Safe, check_password-Safe, check_token-Safe,
  check_param_str-Safe, check_param_int-Safe, get_param_int-Safe, modify-Safe, clients-IsServing,
  tasks-IsServing, running-IsServing, heartbeat-Safe, quit_client-Safe, notify-IsValid,
  start-IsValid, set_range-IsValid, get_task-Safe,
}

module _ {Text : Type 0} where
  -- The last step of most handlers.
  finish-Safe :
      (f : Server Text → Server Text) (p : Payload)
      → ((s : Server Text) → IsServing s → IsServing (f s))
      → Safe {A = Payload} (modify f >> return_ok p)
  finish-Safe f p h = record { keeps = h }

  -- A reply made from the state.
  answer-Safe :
      (f : Server Text → Payload) → Safe {A = Payload} (get {Text = Text} >>= λ s. return_ok (f s))
  answer-Safe f = record { keeps = λ s v. v }

  -- The last step of `client_join`.
  enroll-Safe :
      (req : Request) (os : String) (threads : ℤ)
      → Safe {A = Payload} (
          get {Text = Text} >>= λ u.
          modify (λ s. record s {
            client_mgr = (join req.client_now req.host os threads u.client_mgr).0;
          })
          >> return_ok (joined (join req.client_now req.host os threads u.client_mgr).1))
  enroll-Safe req os threads = record {
    keeps = λ s v.
        clients-IsServing s _ v
          (join-IsValid req.client_now req.host os threads s.client_mgr v.clients);
  }

  pub client_join-Safe : (req : Request) → Safe (client_join {Text = Text} req)
  unfolding client_join
  client_join-Safe req = >>=-Safe (check_token req) _ (check_token-Safe req) (λ _.
      >>=-Safe check_status _ check_status-Safe (λ _.
        >>=-Safe (check_param_str req "os") _ (check_param_str-Safe req "os") (λ os.
          >>=-Safe (check_param_int req "threads") _ (check_param_int-Safe req "threads")
            (λ threads. enroll-Safe req os threads))))

  pub client_quit-Safe : (req : Request) → Safe (client_quit {Text = Text} req)
  unfolding client_quit
  client_quit-Safe req =
      >>=-Safe (check_token req) _ (check_token-Safe req) (λ _.
        >>=-Safe (check_param_int req "id") _ (check_param_int-Safe req "id") quit_client-Safe)

  g_start-IsServing : (s : Server Text) → IsServing s → IsServing (g_start s)
  unfolding g_start
  g_start-IsServing s v = running-IsServing s true s.http_running v

  pub g_stop-IsServing : (s : Server Text) → IsServing s → IsServing (g_stop s)
  unfolding g_stop
  g_stop-IsServing s v = running-IsServing s false s.http_running v

  check_startable-Safe : Safe (check_startable {Text = Text})
  unfolding check_startable
  check_startable-Safe = same-Safe check_startable (λ s. ground arith)

  pub admin-Safe : (call : AdminCall) (req : Request) → Safe (admin {Text = Text} call req)
  unfolding admin server_start server_stop server_shutdown server_quit_client server_set_task_range
  admin-Safe starts req = >>=-Safe (check_password req) _ (check_password-Safe req) (λ _.
      >>=-Safe check_startable _ check_startable-Safe (λ _.
        >>=-Safe (modify g_start) _ (modify-Safe g_start g_start-IsServing) (λ _.
          finish-Safe (λ s. record s { client_mgr = (start s.client_mgr).0 }) nothing
            (λ s v. clients-IsServing s _ v (start-IsValid s.client_mgr v.clients)))))
  admin-Safe stops req =
      >>=-Safe (check_password req) _ (check_password-Safe req)
        (λ _. finish-Safe g_stop nothing g_stop-IsServing)
  admin-Safe shuts_down req = >>=-Safe (check_password req) _ (check_password-Safe req) (λ _.
      >>=-Safe (modify g_stop) _ (modify-Safe g_stop g_stop-IsServing) (λ _.
        finish-Safe (λ s. record s { http_running = false }) nothing
          (λ s v. running-IsServing s s.is_running false v)))
  admin-Safe quits_client req = >>=-Safe (check_password req) _ (check_password-Safe req) (λ _.
      >>=-Safe (check_param_int req "id") _ (check_param_int-Safe req "id") (λ id.
        >>=-Safe (check_param_int req "force") _ (check_param_int-Safe req "force") (λ force.
          finish-Safe
            (λ s. record s {
              client_mgr = notify_client_to_quit id (not (force ==ℤ pos 0)) s.client_mgr;
            })
            nothing
            (λ s v.
              clients-IsServing s _ v
                (notify-IsValid id (not (force ==ℤ pos 0)) s.client_mgr v.clients)))))
  admin-Safe sets_task_range req = >>=-Safe (check_password req) _ (check_password-Safe req) (λ _.
      >>=-Safe (check_param_int req "start") _ (check_param_int-Safe req "start") (λ start.
        >>=-Safe (check_param_int req "end") _ (check_param_int-Safe req "end") (λ end.
          >>=-Safe (check_param_int req "current") _ (check_param_int-Safe req "current")
            (λ current.
              finish-Safe
                (λ s. record s { task_mgr = set_range s.is_running start end current s.task_mgr })
                nothing
                (λ s v.
                  tasks-IsServing s _ v
                    (set_range-IsValid s.is_running start end current s.task_mgr v.tasks))))))

module _ (json : JsonText) where
  pub task_get-Safe : (req : Request) → Safe (task_get json req)
  unfolding task_get hand_out
  task_get-Safe req = >>=-Safe check_status _ check_status-Safe (λ _.
      >>=-Safe (check_param_int req "client_id") _ (check_param_int-Safe req "client_id") (λ id.
        >>=-Safe (check_param_int req "commit_all") _ (check_param_int-Safe req "commit_all")
          (λ all.
            >>=-Safe (get_param_int req "count" min_mids_count) _
              (get_param_int-Safe req "count" min_mids_count)
              (λ count.
                >>=-Safe (get_task_or_return json req id (clamp count)) _
                  (get_task-Safe json req id (clamp count))
                  (λ a.
                    >>=-Safe (heartbeat_or_disconnect req id all) _ (heartbeat-Safe req id all)
                      (λ should_quit. answer-Safe (λ s. task a s.client_config should_quit)))))))

  pub task_commit-Safe : (req : Request) → Safe (task_commit json req)
  unfolding task_commit take_in
  task_commit-Safe req =
      >>=-Safe (check_param_int req "client_id") _ (check_param_int-Safe req "client_id") (λ id.
        >>=-Safe (check_param_int req "task_id") _ (check_param_int-Safe req "task_id") (λ task_id.
          >>=-Safe (check_param_int req "commit_all") _ (check_param_int-Safe req "commit_all")
            (λ all.
              >>=-Safe
                (modify
                  (λ s. record s { task_mgr = commit json (env_of req s) id task_id s.task_mgr }))
                _
                (modify-Safe _ (λ s v.
                  tasks-IsServing s _ v
                    (commit-IsValid json (env_of req s) id task_id s.task_mgr v.tasks)))
                (λ _.
                  >>=-Safe (heartbeat_or_disconnect req id all) _ (heartbeat-Safe req id all)
                    (λ should_quit.
                      >>=-Safe check_status _ check_status-Safe
                        (λ _. answer-Safe (λ s. committed s.client_config should_quit)))))))
