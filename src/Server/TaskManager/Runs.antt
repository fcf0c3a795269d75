-- ===== src/Server/TaskManager/Runs.antt =====
-- Any sequence of calls: what one request after another does to an id.
use bili_user_spider.Prelude.{ℕ, ◌+◌, ◌≡◌, List, [], ◌∷◌, arith, ℤ, ◌<ℤ◌, ◌≤ℤ◌}
use bili_user_spider.Server.Json.{JsonText}
use bili_user_spider.Server.TaskManager.{TaskManager, Env, get_task, commit, recycle}
use bili_user_spider.Server.TaskManager.Cover.{pending, cover}
use bili_user_spider.Prelude.Ranges.{inside}
use bili_user_spider.Server.TaskManager.Valid.{IsValid}
use bili_user_spider.Server.TaskManager.Assign.{Fits}
use bili_user_spider.Server.TaskManager.Handout.{get_task-pending, get_task-IsValid}
use bili_user_spider.Server.TaskManager.Commit.{
  credited, commit-pending, recycle-pending, commit-IsValid, recycle-IsValid,
}

-- A call of the task manager: client and count, client and task id, client.
pub data Call : Type 0 where
  gets : ℤ → ℤ → Call
  commits : ℤ → ℤ → Call
  recycles : ℤ → Call

module _ {Text : Type 0} where
  pending_start :
      (m : ℤ) (t : TaskManager Text)
      → t.tasks ≡ []
      → t.tasks_recycled ≡ []
      → t.mid_current ≤ℤ m
      → m <ℤ t.mid_end
      → pending m t ≡ 1
  unfolding pending cover inside
  pending_start m t no_tasks no_recycled lo hi = ground arith

  IsValid-start : (t : TaskManager Text) → t.tasks ≡ [] → IsValid t
  IsValid-start t no_tasks = record { ordered = rw no_tasks tt; fresh = rw no_tasks tt }

module _ (json : JsonText) where
  unfoldable pub step : TaskManager json.Text → Env × Call → TaskManager json.Text
  step t (env, gets client_id count) = (get_task json env client_id count t).0
  step t (env, commits client_id task_id) = commit json env client_id task_id t
  step t (env, recycles client_id) = recycle json env client_id t

  unfoldable pub run : TaskManager json.Text → List (Env × Call) → TaskManager json.Text
  run t [] = t
  run t (c ∷ cs) = run (step t c) cs

  -- How often the calls commit the id.
  unfoldable pub credit : ℤ → TaskManager json.Text → Env × Call → ℕ
  credit m t (env, commits client_id task_id) = credited m client_id task_id t
  credit m t _ = 0

  unfoldable pub run_credit : ℤ → TaskManager json.Text → List (Env × Call) → ℕ
  run_credit m t [] = 0
  run_credit m t (c ∷ cs) = credit m t c + run_credit m (step t c) cs

  -- Every request of the run fits.
  abbrev pub CallFits : TaskManager json.Text → Env × Call → Type 0
  CallFits t (env, gets client_id count) = Fits count t
  CallFits t _ = Unit {0}

  abbrev pub AllFit : TaskManager json.Text → List (Env × Call) → Type 0
  AllFit t [] = Unit {0}
  AllFit t (c ∷ cs) = CallFits t c × AllFit (step t c) cs

  step-IsValid : (t : TaskManager json.Text) (c : Env × Call) → IsValid t → IsValid (step t c)
  unfolding step
  step-IsValid t (env, gets client_id count) v = get_task-IsValid json env client_id count t v
  step-IsValid t (env, commits client_id task_id) v = commit-IsValid json env client_id task_id t v
  step-IsValid t (env, recycles client_id) v = recycle-IsValid json env client_id t v

  step-pending :
      (m : ℤ) (t : TaskManager json.Text) (c : Env × Call)
      → IsValid t
      → CallFits t c
      → pending m (step t c) + credit m t c ≡ pending m t
  unfolding step credit
  step-pending m t (env, gets client_id count) v f =
      omega (arith, get_task-pending json env client_id count m t v f)
  step-pending m t (env, commits client_id task_id) v f =
      commit-pending json env client_id m task_id t
  step-pending m t (env, recycles client_id) v f =
      omega (arith, recycle-pending json env client_id m t)

  -- The ids of the tasks stay distinct, and every new one is larger, whatever is called.
  pub run-IsValid :
      (t : TaskManager json.Text) (cs : List (Env × Call)) → IsValid t → IsValid (run t cs)
  unfolding run
  run-IsValid t [] v = v
  run-IsValid t (c ∷ cs) v = run-IsValid (step t c) cs (step-IsValid t c v)

  -- Over any run whose requests fit, the places where an id waits and the commits of it add up to
  -- the places where it waited before.
  pub run-pending :
      (m : ℤ) (t : TaskManager json.Text) (cs : List (Env × Call))
      → IsValid t
      → AllFit t cs
      → pending m (run t cs) + run_credit m t cs ≡ pending m t
  unfolding run run_credit
  run-pending m t [] v f = omega arith
  run-pending m t (c ∷ cs) v f =
      omega (arith, step-pending m t c v f.0, run-pending m (step t c) cs (step-IsValid t c v) f.1)

  -- From a start with nothing assigned, every id of the range is in exactly one place (with one
  -- client, recycled, or not assigned) until it is committed, and is committed at most once.
  pub run-exactly_once :
      (m : ℤ) (t : TaskManager json.Text) (cs : List (Env × Call))
      → t.tasks ≡ []
      → t.tasks_recycled ≡ []
      → t.mid_current ≤ℤ m
      → m <ℤ t.mid_end
      → AllFit t cs
      → pending m (run t cs) + run_credit m t cs ≡ 1
  run-exactly_once m t cs no_tasks no_recycled lo hi f = omega (
    arith,
    pending_start m t no_tasks no_recycled lo hi,
    run-pending m t cs (IsValid-start t no_tasks) f,
  )
