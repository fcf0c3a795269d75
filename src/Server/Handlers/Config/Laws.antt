-- ===== src/Server/Handlers/Config/Laws.antt =====
-- What the handlers of the configuration keep.
use bili_user_spider.Prelude.{
  ◌≡◌, refl, ap, ◌∙◌, ◌≢◌, ◌⊎◌, inl, inr, [], Option, none, some, Bool, true, false, arith, String,
  ℤ, Bool-cases,
}
use bili_user_spider.Prelude.OrdMap.{IsOrdered}
use bili_user_spider.Server.Status.{missing_param, wrong_password}
use bili_user_spider.Server.Config.{DatabaseConfig, ProxyConfig, database_is_valid, proxy_is_valid}
use bili_user_spider.Server.Config.Nodes.{ClientNode}
use bili_user_spider.Server.Config.File.{
  Configs, ConfigText, RootNode, are_valid, install, g_reload_config, g_write_config,
}
use bili_user_spider.Server.Config.File.Laws.{install-valid, g_reload_config-g_write_config}
use bili_user_spider.Server.Handlers.Monad.{
  Server, Request, Payload, Outcome, pass, stop, reply, M, ◌>>=◌, check_password, check_param_str,
  check_param_int,
}
use bili_user_spider.Server.Handlers.Admin.{AdminCall, admin}
use bili_user_spider.Server.Handlers.Laws.{
  admin_refused, check_secret_refuses, check_secret-same, check_param_int-same,
}
use bili_user_spider.Server.Handlers.Config.{
  configs_of, set_configs, if_valid, set_client, set_database, set_proxy, set_server, set_all,
  config_client_set, config_database_set, config_proxy_set, config_server_set, config_advance_set,
  ConfigCall, sets_client, sets_database, sets_proxy, sets_server, sets_all, config_call, save,
  configure,
}

-- The configurations that an outcome passes on are valid.
abbrev PassesValid : Outcome (Configs × Payload) → Type 0
PassesValid (pass (c, p)) = are_valid c ≡ true
PassesValid (stop code) = Unit {0}
PassesValid (reply p) = Unit {0}

module _ {Text : Type 0} where
  -- In a state with valid configurations, the call changes nothing yet and what it passes on is
  -- valid.
  record Offers (m : M Text (Configs × Payload)) : Type 0 where
    offered :
        (s : Server Text) → are_valid (configs_of s) ≡ true → ((m s).0 ≡ s) × PassesValid (m s).1

  rest-Offers :
      {A : Type 0} (k : A → M Text (Configs × Payload)) (s u : Server Text) (out : Outcome A)
      → u ≡ s
      → are_valid (configs_of s) ≡ true
      → ((a : A) → Offers (k a))
      → let r = elim out as (λ _. Server Text × Outcome (Configs × Payload)) [
        | pass a ↦ k a u
        | stop code ↦ (u, stop code)
        | reply p ↦ (u, reply p)
      ] in
        (r.0 ≡ s) × PassesValid r.1
  rest-Offers k s u (pass a) same valid h = rw same ((h a).offered s valid)
  rest-Offers k s u (stop code) same valid h = (same, tt)
  rest-Offers k s u (reply p) same valid h = (same, tt)

  >>=-Offers :
      {A : Type 0} (m : M Text A) (k : A → M Text (Configs × Payload))
      → ((s : Server Text) → (m s).0 ≡ s)
      → ((a : A) → Offers (k a))
      → Offers (m >>= k)
  >>=-Offers m k same h = record {
    offered = λ s valid. rest-Offers k s (m s).0 (m s).1 (same s) valid h;
  }

  if_valid-Offers :
      (b : Bool) (c : Configs) (s : Server Text)
      → (b ≡ true → are_valid c ≡ true)
      → ((if_valid b c s).0 ≡ s) × PassesValid (if_valid b c s).1
  if_valid-Offers true c s h = (refl, h refl)
  if_valid-Offers false c s h = (refl, tt)

  pub check_password-same : (req : Request) (s : Server Text) → (check_password req s).0 ≡ s
  unfolding check_password
  check_password-same req s = check_secret-same _ _ s

  pub check_param_str-same :
      (req : Request) (name : String) (s : Server Text) → (check_param_str req name s).0 ≡ s
  unfolding check_param_str
  check_param_str-same req name s = ground arith

  set_database-Offers : (c : DatabaseConfig) → Offers (set_database c)
  unfolding set_database configs_of are_valid
  set_database-Offers c = record {
    offered = λ s valid. if_valid-Offers (database_is_valid c) _ s (λ h. ground arith);
  }

  set_proxy-Offers : (c : ProxyConfig) → Offers (set_proxy c)
  unfolding set_proxy configs_of are_valid
  set_proxy-Offers c = record {
    offered = λ s valid. if_valid-Offers (proxy_is_valid c) _ s (λ h. ground arith);
  }

  set_server-Offers :
      (heartbeat interval timeout : ℤ) → Offers (set_server heartbeat interval timeout)
  unfolding set_server configs_of are_valid
  set_server-Offers heartbeat interval timeout = record {
    offered = λ s valid. if_valid-Offers _ _ s (λ h. ground arith);
  }

  set_client-Offers : (body : Option ClientNode) → Offers (set_client body)
  unfolding set_client configs_of are_valid
  set_client-Offers none = record { offered = λ s valid. (refl, tt) }
  set_client-Offers (some node) = record {
    offered = λ s valid. if_valid-Offers _ _ s (λ h. ground arith);
  }

  set_all-valid :
      (root : RootNode) (s : Server Text)
      → are_valid (configs_of s) ≡ true
      → ((set_all (some root) s).0 ≡ s) × PassesValid (set_all (some root) s).1
  unfolding set_all
  set_all-valid root s valid =
      let after = install-valid root (configs_of s) valid in
      elim (Bool-cases (install root (configs_of s)).1) [
        | inl e ↦ rw e (refl, after)
        | inr e ↦ rw e (refl, tt)
      ]

  set_all-Offers : (body : Option RootNode) → Offers (set_all body)
  unfolding set_all
  set_all-Offers none = record { offered = λ s valid. (refl, tt) }
  set_all-Offers (some root) = record { offered = set_all-valid root }

  config_call-Offers : (call : ConfigCall) (req : Request) → Offers (config_call call req)
  unfolding config_call config_client_set config_database_set config_proxy_set config_server_set
      config_advance_set
  config_call-Offers (sets_client body) req =
      >>=-Offers (check_password req) _ (check_password-same req) (λ _. set_client-Offers body)
  config_call-Offers sets_database req =
      >>=-Offers (check_password req) _ (check_password-same req) (λ _.
        >>=-Offers (check_param_str req "host") _ (check_param_str-same req "host") (λ host.
          >>=-Offers (check_param_int req "port") _ (check_param_int-same req "port") (λ port.
            >>=-Offers (check_param_str req "user") _ (check_param_str-same req "user") (λ user.
              >>=-Offers (check_param_str req "password") _ (check_param_str-same req "password")
                (λ password.
                  >>=-Offers (check_param_str req "name") _ (check_param_str-same req "name")
                    (λ name. set_database-Offers _))))))
  config_call-Offers sets_proxy req =
      >>=-Offers (check_password req) _ (check_password-same req) (λ _.
        >>=-Offers (check_param_str req "order_id") _ (check_param_str-same req "order_id")
          (λ order_id.
            >>=-Offers (check_param_int req "interval_query") _
              (check_param_int-same req "interval_query") (λ interval. set_proxy-Offers _)))
  config_call-Offers sets_server req =
      >>=-Offers (check_password req) _ (check_password-same req) (λ _.
        >>=-Offers (check_param_int req "client_live_heartbeat") _
          (check_param_int-same req "client_live_heartbeat")
          (λ heartbeat.
            >>=-Offers (check_param_int req "interval_detect_client_live") _
              (check_param_int-same req "interval_detect_client_live")
              (λ interval.
                >>=-Offers (check_param_int req "main_task_timeout") _
                  (check_param_int-same req "main_task_timeout")
                  (λ timeout. set_server-Offers heartbeat interval timeout))))
  config_call-Offers (sets_all body) req =
      >>=-Offers (check_password req) _ (check_password-same req) (λ _. set_all-Offers body)

  -- Before its end a handler of these changes nothing.
  pub config_call-same :
      (call : ConfigCall) (req : Request) (s : Server Text)
      → are_valid (configs_of s) ≡ true
      → (config_call call req s).0 ≡ s
  config_call-same call req s valid = ((config_call-Offers call req).offered s valid).0

module _ (json : ConfigText) {Text : Type 0} where
  open json use {Text as FileText, parse, to_styled_string}

  save-valid :
      (can_open : Bool) (file : Option FileText) (r : Server Text × Outcome (Configs × Payload))
      → are_valid (configs_of r.0) ≡ true
      → PassesValid r.1
      → are_valid (configs_of (save json can_open file r).0) ≡ true
  unfolding save set_configs configs_of
  save-valid can_open file (s, pass (c, p)) valid h = h
  save-valid can_open file (s, stop code) valid h = valid
  save-valid can_open file (s, reply p) valid h = valid

  -- Whatever is asked for, a server with four valid configurations keeps four valid ones.
  pub configure-valid :
      (call : ConfigCall) (req : Request) (can_open : Bool) (file : Option FileText)
      (s : Server Text)
      → are_valid (configs_of s) ≡ true
      → are_valid (configs_of (configure json call req can_open file s).0) ≡ true
  unfolding configure
  configure-valid call req can_open file s valid =
      let (same, offered) = (config_call-Offers call req).offered s valid in
      save-valid can_open file (config_call call req s)
        (ap (λ (u : Server Text). are_valid (configs_of u)) same ∙ valid) offered

  save-file :
      (file : Option FileText) (r : Server Text × Outcome (Configs × Payload))
      → let (u, written, _) = save json true file r in
        (written ≡ (g_write_config json true (configs_of u) file).0)
        ⊎ ((u ≡ r.0) × (written ≡ file))
  unfolding save set_configs configs_of
  save-file file (s, pass (c, p)) = inl refl
  save-file file (s, stop code) = inr (refl, refl)
  save-file file (s, reply p) = inr (refl, refl)

  -- The file keeps up with the globals: if the server would come back from it with the configurations
  -- that it has, it still would after any request, where the file can be written, the configurations
  -- are valid and there is a sleep time.
  pub configure-saved :
      (call : ConfigCall) (req : Request) (file : Option FileText) (s : Server Text) (old : Configs)
      → ((root : RootNode) → parse (to_styled_string root) ≡ some root)
      → are_valid (configs_of s) ≡ true
      → g_reload_config json file old ≡ (configs_of s, true)
      → let (u, written, _) = configure json call req true file s in
        u.client_config.proxy_sleeptime_map ≢ []
        → IsOrdered u.client_config.proxy_sleeptime_map
        → g_reload_config json written old ≡ (configs_of u, true)
  unfolding configure configs_of save
  configure-saved call req file s old parses valid saved some_time o =
      let r = config_call call req s in
      let same : r.0 ≡ s = ((config_call-Offers call req).offered s valid).0 in
      let u = (save json true file r).0 in
      let still : are_valid (configs_of u) ≡ true = configure-valid call req true file s valid in
      elim (save-file file r) [
        | inl written ↦
            rw written
              (g_reload_config-g_write_config json (configs_of u) old file parses still some_time o)
        | inr (unchanged, kept) ↦ rw (kept, unchanged, same) saved
      ]

  -- A request without the right password changes neither the configurations nor the file, and is
  -- answered with `MISSING_PARAM` or `WRONG_PASSWORD`.
  configure_refused :
      (call : ConfigCall) (req : Request) (can_open : Bool) (file : Option FileText)
      (s : Server Text)
      → req.param "pwd" ≢ s.svr_config.admin_password
      → (configure json call req can_open file s ≡ (s, file, stop missing_param))
        ⊎ (configure json call req can_open file s ≡ (s, file, stop wrong_password))
  unfolding configure save config_call config_client_set config_database_set config_proxy_set
      config_server_set config_advance_set check_password
  configure_refused (sets_client body) req can_open file s wrong =
      ground (arith, check_secret_refuses (req.param "pwd") s.svr_config.admin_password s wrong)
  configure_refused sets_database req can_open file s wrong =
      ground (arith, check_secret_refuses (req.param "pwd") s.svr_config.admin_password s wrong)
  configure_refused sets_proxy req can_open file s wrong =
      ground (arith, check_secret_refuses (req.param "pwd") s.svr_config.admin_password s wrong)
  configure_refused sets_server req can_open file s wrong =
      ground (arith, check_secret_refuses (req.param "pwd") s.svr_config.admin_password s wrong)
  configure_refused (sets_all body) req can_open file s wrong =
      ground (arith, check_secret_refuses (req.param "pwd") s.svr_config.admin_password s wrong)

  -- None of the ten requests of the administrator that change something, the five of uri/server.cpp
  -- and the five of uri/config.cpp, does so without the right password: the state of the server and
  -- its file of the configuration stay as they are, and the answer is MISSING_PARAM or
  -- WRONG_PASSWORD.
  pub changes_refused :
      (call : AdminCall) (other : ConfigCall) (req : Request) (can_open : Bool)
      (file : Option FileText) (s : Server Text)
      → req.param "pwd" ≢ s.svr_config.admin_password
      → ((admin call req s ≡ (s, stop missing_param))
          ⊎ (admin call req s ≡ (s, stop wrong_password)))
        × ((configure json other req can_open file s ≡ (s, file, stop missing_param))
            ⊎ (configure json other req can_open file s ≡ (s, file, stop wrong_password)))
  changes_refused call other req can_open file s wrong =
      (admin_refused call req s wrong, configure_refused other req can_open file s wrong)
