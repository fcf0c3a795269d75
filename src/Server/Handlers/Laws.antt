-- ===== src/Server/Handlers/Laws.antt =====
-- What a request does to the server: who may change it, in which order the managers are called.
use text.Mathlib.TextEquality.{eq_iff}
use bili_user_spider.Prelude.{
  ◌≡◌, refl, ap, ◌∙◌, ◌≢◌, ◌⊎◌, inl, inr, Option, none, some, true, false, arith, String, ℤ,
  Bool-cases,
}
use bili_user_spider.Prelude.OrdMap.{find}
use bili_user_spider.Server.Json.{JsonText}
use bili_user_spider.Server.Status.{missing_param, wrong_password, client_disconnect}
use bili_user_spider.Server.Config.{is_empty}
use bili_user_spider.Server.Convert.{convert}
use bili_user_spider.Server.TaskManager.{
  TaskManager, Range, Env, Assignment, new_task, get_task, assigned, commit,
}
use bili_user_spider.Server.TaskManager.Handout.{get_task-reply}
use bili_user_spider.Server.TaskManager.Valid.{IsValid}
use bili_user_spider.Server.ClientManager.{heartbeat}
use bili_user_spider.Server.Handlers.Monad.{
  Server, Request, Outcome, pass, stop, reply, M, ◌>>=◌, check_secret, check_password, check_token,
  check_status, check_param_int, get_param_int, or_invalid,
}
use bili_user_spider.Server.Handlers.Client.{
  client_quit, quit_client, hand_out, take_in, heartbeat_or_disconnect, get_task_or_return,
  task_get, task_commit, env_of, clamp, min_mids_count,
}
use bili_user_spider.Server.Handlers.Admin.{
  AdminCall, starts, stops, shuts_down, quits_client, sets_task_range, admin, server_start,
  server_stop, server_shutdown, server_quit_client, server_set_task_range,
}

module _ {Text : Type 0} where
  pub or_invalid-same : (o : Option ℤ) (s : Server Text) → (or_invalid o s).0 ≡ s
  or_invalid-same none s = refl
  or_invalid-same (some n) s = refl

  pub check_secret_refuses :
      (given secret : String) (s : Server Text)
      → given ≢ secret
      → (check_secret given secret s ≡ (s, stop missing_param))
        ⊎ (check_secret given secret s ≡ (s, stop wrong_password))
  unfolding check_secret
  check_secret_refuses given secret s wrong = ground (arith, eq_iff given secret)

  -- A request of the administrator without the right password changes nothing, and is answered
  -- with `MISSING_PARAM` or `WRONG_PASSWORD`.
  pub admin_refused :
      (call : AdminCall) (req : Request) (s : Server Text)
      → req.param "pwd" ≢ s.svr_config.admin_password
      → (admin call req s ≡ (s, stop missing_param)) ⊎ (admin call req s ≡ (s, stop wrong_password))
  unfolding admin server_start server_stop server_shutdown server_quit_client server_set_task_range
      check_password
  admin_refused starts req s wrong =
      ground (arith, check_secret_refuses (req.param "pwd") s.svr_config.admin_password s wrong)
  admin_refused stops req s wrong =
      ground (arith, check_secret_refuses (req.param "pwd") s.svr_config.admin_password s wrong)
  admin_refused shuts_down req s wrong =
      ground (arith, check_secret_refuses (req.param "pwd") s.svr_config.admin_password s wrong)
  admin_refused quits_client req s wrong =
      ground (arith, check_secret_refuses (req.param "pwd") s.svr_config.admin_password s wrong)
  admin_refused sets_task_range req s wrong =
      ground (arith, check_secret_refuses (req.param "pwd") s.svr_config.admin_password s wrong)

  -- The call leaves a part of the state as it is, however it ends.
  abbrev Keeps : {A X : Type 0} → (Server Text → X) → M Text A → Type 0
  Keeps part m = (s : Server Text) → part (m s).0 ≡ part s

  rest-Keeps :
      {A B X : Type 0} (part : Server Text → X) (k : A → M Text B) (s : Server Text)
      (out : Outcome A)
      → ((a : A) → Keeps part (k a))
      → part
          (elim out as (λ _. Server Text × Outcome B) [
            | pass a ↦ k a s
            | stop code ↦ (s, stop code)
            | reply p ↦ (s, reply p)
          ]).0
        ≡ part s
  rest-Keeps part k s (pass a) h = h a s
  rest-Keeps part k s (stop code) h = refl
  rest-Keeps part k s (reply p) h = refl

  >>=-Keeps :
      {A B X : Type 0} (part : Server Text → X) (m : M Text A) (k : A → M Text B)
      → Keeps part m
      → ((a : A) → Keeps part (k a))
      → Keeps part (m >>= k)
  >>=-Keeps part m k hm hk s = rest-Keeps part k (m s).0 (m s).1 hk ∙ hm s

  pub check_secret-same : (given secret : String) → Keeps (λ s. s) (check_secret given secret)
  unfolding check_secret
  check_secret-same given secret s = ground arith

  pub check_token-same : (req : Request) → Keeps (λ s. s) (check_token req)
  unfolding check_token
  check_token-same req s = check_secret-same _ _ s

  pub check_param_int-same :
      (req : Request) (name : String) → Keeps (λ s. s) (check_param_int req name)
  unfolding check_param_int
  check_param_int-same req name s = elim (Bool-cases (is_empty (req.param name))) [
    | inl e ↦ rw e
    | inr e ↦ rw e (or_invalid-same (convert (req.param name)) s)
  ]

  -- A client that quits leaves the task manager as it is: its tasks are not recycled.
  client_quit-task_mgr :
      (req : Request) (s : Server Text) → (client_quit req s).0.task_mgr ≡ s.task_mgr
  unfolding client_quit quit_client
  client_quit-task_mgr req =
      >>=-Keeps (λ s. s.task_mgr) (check_token req) (λ _. check_param_int req "id" >>= quit_client)
        (λ s. ap (λ (u : Server Text). u.task_mgr) (check_token-same req s))
        (λ _.
          >>=-Keeps (λ s. s.task_mgr) (check_param_int req "id") quit_client
            (λ s. ap (λ (u : Server Text). u.task_mgr) (check_param_int-same req "id" s))
            (λ id s. refl))

-- The request carries an `int` in the parameter.
abbrev pub Gives : Request → String → ℤ → Type 0
Gives req name n = (is_empty (req.param name) ≡ false) × (convert (req.param name) ≡ some n)

module _ {Text : Type 0} where
  check_param_int-Gives :
      (req : Request) (name : String) (n : ℤ) (s : Server Text)
      → Gives req name n
      → check_param_int req name s ≡ (s, pass n)
  unfolding check_param_int
  check_param_int-Gives req name n s g = rw (g.0, g.1)

  get_param_int-Gives :
      (req : Request) (name : String) (n d : ℤ) (s : Server Text)
      → Gives req name n
      → get_param_int req name d s ≡ (s, pass n)
  unfolding get_param_int
  get_param_int-Gives req name n d s g = rw (g.0, g.1)

module _ (json : JsonText) where
  assigned-found :
      (env : Env) (client_id count : ℤ) (t : TaskManager json.Text) (a : Assignment)
      → IsValid t
      → (get_task json env client_id count t).1 ≡ assigned a
      → (find a.task_id t.tasks ≡ none)
        × ((r : Range) × (find a.task_id (get_task json env client_id count t).0.tasks
              ≡ some (new_task env client_id r)))
  assigned-found env client_id count t a v given =
      elim (get_task-reply json env client_id count t v) [
        | inl (_, _, e) ↦ cc
        | inr (inl (_, _, _, _, e)) ↦ cc
        | inr (inr (r, _, _, e, free, held)) ↦ (ground arith, (r, ground arith))
      ]

module _ (json : JsonText) (req : Request) (s : Server json.Text) (client_id commit_all count : ℤ)
    (gives_id : Gives req "client_id" client_id) (gives_all : Gives req "commit_all" commit_all)
    (gives_count : Gives req "count" count) (running : s.is_running ≡ true) where
  check_status-running : check_status s ≡ (s, pass tt)
  unfolding check_status
  check_status-running = rw running

  task_get-hand_out : task_get json req s ≡ hand_out json req client_id commit_all count s
  unfolding task_get
  task_get-hand_out = ground (
    arith,
    check_status-running,
    check_param_int-Gives req "client_id" client_id s gives_id,
    check_param_int-Gives req "commit_all" commit_all s gives_all,
    get_param_int-Gives req "count" count min_mids_count s gives_count,
  )

  hand_out-unknown :
      (a : Assignment)
      → (get_task json (env_of req s) client_id (clamp count) s.task_mgr).1 ≡ assigned a
      → find client_id s.client_mgr.clients ≡ none
      → let (u, out) = hand_out json req client_id commit_all count s in
        (out ≡ stop client_disconnect)
        × (u.task_mgr ≡ (get_task json (env_of req s) client_id (clamp count) s.task_mgr).0)
  unfolding hand_out get_task_or_return heartbeat_or_disconnect heartbeat
  hand_out-unknown a given unknown = ground arith

  -- `task_get` asks the task manager before it looks whether the client is known: a client that was
  -- thrown out is refused, and a task is recorded for it all the same.
  pub task_get_disconnected :
      (a : Assignment)
      → IsValid s.task_mgr
      → (get_task json (env_of req s) client_id (clamp count) s.task_mgr).1 ≡ assigned a
      → find client_id s.client_mgr.clients ≡ none
      → ((task_get json req s).1 ≡ stop client_disconnect)
        × (find a.task_id s.task_mgr.tasks ≡ none)
        × ((r : Range) × (find a.task_id (task_get json req s).0.task_mgr.tasks
              ≡ some (new_task (env_of req s) client_id r)))
  task_get_disconnected a valid given unknown =
      let after = hand_out-unknown a given unknown in
      let found =
        assigned-found json (env_of req s) client_id (clamp count) s.task_mgr a valid given in
      (
        rw task_get-hand_out (ground (arith, after)),
        found.0,
        (found.1.0, rw task_get-hand_out (ground (arith, after, found.1.1))),
      )

module _ (json : JsonText) (req : Request) (s : Server json.Text) (client_id task_id commit_all : ℤ)
    (gives_id : Gives req "client_id" client_id) (gives_task : Gives req "task_id" task_id)
    (gives_all : Gives req "commit_all" commit_all) where
  task_commit-take_in : task_commit json req s ≡ take_in json req client_id task_id commit_all s
  unfolding task_commit
  task_commit-take_in = ground (
    arith,
    check_param_int-Gives req "client_id" client_id s gives_id,
    check_param_int-Gives req "task_id" task_id s gives_task,
    check_param_int-Gives req "commit_all" commit_all s gives_all,
  )

  take_in-task_mgr :
      (take_in json req client_id task_id commit_all s).0.task_mgr
      ≡ commit json (env_of req s) client_id task_id s.task_mgr
  unfolding take_in heartbeat_or_disconnect check_status
  take_in-task_mgr = ground arith

  -- A commit counts whatever the answer is: also on a stopped server, and of a client that was
  -- thrown out.
  task_commit-task_mgr :
      (task_commit json req s).0.task_mgr ≡ commit json (env_of req s) client_id task_id s.task_mgr
  task_commit-task_mgr = rw task_commit-take_in take_in-task_mgr
