-- ===== src/Client/TaskManager/Account/Runs.antt =====
-- Any sequence of calls of the client's task manager: a main task is reported only when nothing of it
-- is left.
use bili_user_spider.Prelude.{◌+◌, ◌≡◌, List, [], ◌∷◌, some, length, ℤ, ◌≤ℤ◌}
use bili_user_spider.Prelude.OrdMap.{find}
use bili_user_spider.Client.Types.{SubTask, StopMode, Outside, UserInfo}
use bili_user_spider.Client.TaskManager.{TaskManager}
use bili_user_spider.Client.TaskManager.Write.{g_stop, flush}
use bili_user_spider.Client.TaskManager.Calls.{get_sub_task, commit_sub_task}
use bili_user_spider.Client.TaskManager.Account.{Account}
use bili_user_spider.Client.TaskManager.Account.Handed.{Gives}

-- A call of a thread, the flush at the end, or a stop that another part of the client asks for.
pub data Call : Type 0 where
  gets : Call
  commits : ℤ → List UserInfo → List ℤ → List ℤ → Call
  flushes : Call
  stops : StopMode → Call

module _ (out : Outside) where
  open out use {World}

  unfoldable pub step : TaskManager World → Call → TaskManager World
  step t gets = (get_sub_task out t).0
  step t (commits id infos none_mids error_mids) =
      commit_sub_task out id infos none_mids error_mids t
  step t flushes = flush out t
  step t (stops mode) = g_stop mode t

  unfoldable pub run : TaskManager World → List Call → TaskManager World
  run t [] = t
  run t (c ∷ cs) = run (step t c) cs

  -- A thread brings a result for each id of its sub task, and the server keeps its promise where it
  -- is asked for a main task.
  abbrev pub IsProper : TaskManager World → Call → Type 0
  IsProper t gets = t.error_mids ≡ [] → t.current_main_task.mid_end ≤ℤ t.current_mid → Gives out t
  IsProper t (commits id infos none_mids error_mids) =
      (sub : SubTask)
      → find id t.sub_tasks ≡ some sub
      → length infos + length none_mids + length error_mids ≡ length sub.mids
  IsProper t _ = Unit {0}

  abbrev pub AllProper : TaskManager World → List Call → Type 0
  AllProper t [] = Unit {0}
  AllProper t (c ∷ cs) = IsProper t c × AllProper (step t c) cs

  -- Nothing is begun.
  pub record IsFresh (t : TaskManager World) : Type 0 where
    pub main_tasks : t.main_tasks ≡ []
    pub sub_tasks : t.sub_tasks ≡ []
    pub error_mids : t.error_mids ≡ []
    pub infos_buff : t.infos_buff ≡ []
    pub none_mids_buff : t.none_mids_buff ≡ []
    pub given_out : t.current_main_task.mid_end ≤ℤ t.current_mid
