-- ===== src/Server/Handlers/Serve/Safe.antt =====
-- What each handler keeps of the state: the two managers and the configurations in order.
use bili_user_spider.Prelude.{
  ◌≡◌, refl, Bool, true, arith, String, ℤ, Option-cases, Bool-cases, inl, inr,
}
use bili_user_spider.Prelude.OrdMap.{find}
use bili_user_spider.Prelude.OrdMap.Laws.{assign-IsOrdered, assign-AllBelow}
use bili_user_spider.Server.Json.{JsonText}
use bili_user_spider.Server.Config.File.{are_valid}
use bili_user_spider.Server.TaskManager.{TaskManager, get_task, set_range}
use bili_user_spider.Server.TaskManager.Valid.{IsValid as TasksValid}
use bili_user_spider.Server.TaskManager.Handout.{get_task-IsValid}
use bili_user_spider.Server.ClientManager.{
  heartbeat, start, leave, notify_client_to_quit, ClientManager,
}
use bili_user_spider.Server.ClientManager.Laws.{
  IsValid as ClientsValid, quit-IsValid, heartbeat-IsValid,
}
use bili_user_spider.Server.Handlers.Monad.{
  Server, Request, Payload, return_ok, get, modify, Outcome, pass, stop, reply, M, ◌>>=◌,
  check_status, check_password, check_token, check_param_str, check_param_int, get_param_int,
}
use bili_user_spider.Server.Handlers.Config.{configs_of}
use bili_user_spider.Server.Handlers.Config.Laws.{check_password-same, check_param_str-same}
use bili_user_spider.Server.Handlers.Laws.{or_invalid-same, check_token-same, check_param_int-same}
use bili_user_spider.Server.Config.{is_empty}
use bili_user_spider.Server.Convert.{convert}
use bili_user_spider.Server.Handlers.Client.{
  heartbeat_or_disconnect, get_task_or_return, quit_client, env_of,
}

-- The ids of the tasks and of the clients ascend and lie below the next ones, and the configurations
-- are valid.
pub record IsServing {Text : Type 0} (s : Server Text) : Type 0 where
  pub tasks : TasksValid s.task_mgr
  pub clients : ClientsValid s.client_mgr
  pub configs : are_valid (configs_of s) ≡ true

-- However a computation ends, it keeps that.
pub record Safe {Text A : Type 0} (m : M Text A) : Type 0 where
  pub keeps : (s : Server Text) → IsServing s → IsServing (m s).0

module _ {Text : Type 0} where
  rest-IsServing :
      {A B : Type 0} (k : A → M Text B) (u : Server Text) (out : Outcome A)
      → IsServing u
      → ((a : A) → Safe (k a))
      → IsServing
          (elim out as (λ _. Server Text × Outcome B) [
            | pass a ↦ k a u
            | stop code ↦ (u, stop code)
            | reply p ↦ (u, reply p)
          ]).0
  rest-IsServing k u (pass a) v h = (h a).keeps u v
  rest-IsServing k u (stop code) v h = v
  rest-IsServing k u (reply p) v h = v

  pub >>=-Safe :
      {A B : Type 0} (m : M Text A) (k : A → M Text B)
      → Safe m
      → ((a : A) → Safe (k a))
      → Safe (m >>= k)
  >>=-Safe m k first next = record {
    keeps = λ s v. rest-IsServing k (m s).0 (m s).1 (first.keeps s v) next;
  }

  -- A computation that changes nothing.
  pub same-Safe : {A : Type 0} (m : M Text A) → ((s : Server Text) → (m s).0 ≡ s) → Safe m
  same-Safe m same = record { keeps = λ s v. rw (same s) v }

  pub check_status-Safe : Safe (check_status {Text = Text})
  unfolding check_status
  check_status-Safe = same-Safe check_status (λ s. ground arith)

  pub check_password-Safe : (req : Request) → Safe (check_password {Text = Text} req)
  check_password-Safe req = same-Safe (check_password req) (check_password-same req)

  pub check_token-Safe : (req : Request) → Safe (check_token {Text = Text} req)
  check_token-Safe req = same-Safe (check_token req) (check_token-same req)

  pub check_param_str-Safe :
      (req : Request) (name : String) → Safe (check_param_str {Text = Text} req name)
  check_param_str-Safe req name =
      same-Safe (check_param_str req name) (check_param_str-same req name)

  pub check_param_int-Safe :
      (req : Request) (name : String) → Safe (check_param_int {Text = Text} req name)
  check_param_int-Safe req name =
      same-Safe (check_param_int req name) (check_param_int-same req name)

  get_param_int-same :
      (req : Request) (name : String) (default : ℤ) (s : Server Text)
      → (get_param_int req name default s).0 ≡ s
  unfolding get_param_int
  get_param_int-same req name default s = elim (Bool-cases (is_empty (req.param name))) [
    | inl e ↦ rw e
    | inr e ↦ rw e (or_invalid-same (convert (req.param name)) s)
  ]

  pub get_param_int-Safe :
      (req : Request) (name : String) (default : ℤ)
      → Safe (get_param_int {Text = Text} req name default)
  get_param_int-Safe req name default =
      same-Safe (get_param_int req name default) (get_param_int-same req name default)

  pub return_ok-Safe : (p : Payload) → Safe {A = Payload} (return_ok {Text = Text} p)
  return_ok-Safe p = same-Safe (return_ok p) (λ s. refl)

  pub get-Safe : Safe (get {Text = Text})
  get-Safe = same-Safe get (λ s. refl)

  -- A change of the client manager, or of nothing that matters.
  pub modify-Safe :
      (f : Server Text → Server Text)
      → ((s : Server Text) → IsServing s → IsServing (f s))
      → Safe (modify f)
  modify-Safe f h = record { keeps = h }

  pub clients-IsServing :
      (s : Server Text) (mgr : ClientManager)
      → IsServing s
      → ClientsValid mgr
      → IsServing (record s { client_mgr = mgr })
  unfolding configs_of
  clients-IsServing s mgr v ok = record { tasks = v.tasks; clients = ok; configs = v.configs }

  pub tasks-IsServing :
      (s : Server Text) (mgr : TaskManager Text)
      → IsServing s
      → TasksValid mgr
      → IsServing (record s { task_mgr = mgr })
  unfolding configs_of
  tasks-IsServing s mgr v ok = record { tasks = ok; clients = v.clients; configs = v.configs }

  pub running-IsServing :
      (s : Server Text) (running http : Bool)
      → IsServing s
      → IsServing (record s { is_running = running; http_running = http })
  unfolding configs_of
  running-IsServing s running http v = record {
    tasks = v.tasks;
    clients = v.clients;
    configs = v.configs;
  }

  heartbeat_lem :
      (req : Request) (client_id n : ℤ) (s : Server Text)
      → (heartbeat_or_disconnect req client_id n s).0
        ≡ record s { client_mgr = (heartbeat req.client_now client_id n s.client_mgr).0 }
  unfolding heartbeat_or_disconnect
  heartbeat_lem req client_id n s = ground arith

  pub heartbeat-Safe :
      (req : Request) (client_id n : ℤ)
      → Safe (heartbeat_or_disconnect {Text = Text} req client_id n)
  heartbeat-Safe req client_id n = record {
    keeps = λ s v. rw (heartbeat_lem req client_id n s) (
        clients-IsServing s _ v
          (heartbeat-IsValid req.client_now client_id n s.client_mgr v.clients));
  }

  pub quit_client-Safe : (id : ℤ) → Safe (quit_client {Text = Text} id)
  unfolding quit_client
  quit_client-Safe id = record {
    keeps = λ s v. clients-IsServing s _ v (quit-IsValid id s.client_mgr v.clients);
  }

pub notify-IsValid :
    (client_id : ℤ) (force : Bool) (mgr : ClientManager)
    → ClientsValid mgr
    → ClientsValid (notify_client_to_quit client_id force mgr)
unfolding notify_client_to_quit
notify-IsValid client_id force mgr v = elim (Option-cases (find client_id mgr.clients)) [
  | inl e ↦ rw (e, notify_client_to_quit) v
  | inr (client, e) ↦
      rw (e, notify_client_to_quit)
        (record {
          ordered = assign-IsOrdered client_id _ mgr.clients v.ordered;
          fresh = assign-AllBelow mgr.current_client_id client_id _ mgr.clients v.fresh;
        })
]

pub start-IsValid : (mgr : ClientManager) → ClientsValid mgr → ClientsValid (start mgr).0
unfolding start
start-IsValid mgr v = ground arith

pub leave-IsValid : (mgr : ClientManager) → ClientsValid mgr → ClientsValid (leave mgr)
unfolding leave
leave-IsValid mgr v = record { ordered = v.ordered; fresh = v.fresh }

pub set_range-IsValid :
    {Text : Type 0} (running : Bool) (a b c : ℤ) (t : TaskManager Text)
    → TasksValid t
    → TasksValid (set_range running a b c t)
unfolding set_range
set_range-IsValid running a b c t v = ground arith

module _ (json : JsonText) where
  get_task_lem :
      (req : Request) (client_id n : ℤ) (s : Server json.Text)
      → (get_task_or_return json req client_id n s).0
        ≡ record s { task_mgr = (get_task json (env_of req s) client_id n s.task_mgr).0 }
  unfolding get_task_or_return
  get_task_lem req client_id n s = ground arith

  pub get_task-Safe :
      (req : Request) (client_id n : ℤ) → Safe (get_task_or_return json req client_id n)
  get_task-Safe req client_id n = record {
    keeps = λ s v. rw (get_task_lem req client_id n s) (
        tasks-IsServing s _ v
          (get_task-IsValid json (env_of req s) client_id n s.task_mgr v.tasks));
  }
