-- ===== src/Server/TaskManager/Machine.antt =====
-- The numbers of the server's task manager as the machine has them,
-- BiliUserSpiderServer/src/manager/task_manager.cpp: an `int` has 32 bits, so every sum and
-- difference that is computed has to lie between `int_min` and `int_max`.
pub mod Laws
pub mod Number
use bili_user_spider.Prelude.{
  ℕ, ◌^◌, ◌-◌, List, [], ◌∷◌, ◌++◌, none, some, if◌then◌else◌, ℤ, pos, negsuc, ◌+ℤ◌, ◌-ℤ◌, ◌≤ℤ◌,
  ltb_ℤ, leb_ℤ, ◌==ℤ◌, true, false,
}
use bili_user_spider.Prelude.OrdMap.{OrdMap}
use bili_user_spider.Server.Json.{JsonText}
use bili_user_spider.Server.TaskManager.{Range, BiliTask, TaskManager, Env, take_range}
use bili_user_spider.Server.TaskManager.Runs.{Call, gets, commits, recycles, step}

abbrev pub int_max : ℤ
int_max = pos (2 ^ 31 - 1)

abbrev pub int_min : ℤ
int_min = negsuc (2 ^ 31 - 1)

abbrev pub IsInt : ℤ → Type 0
IsInt a = (int_min ≤ℤ a) × (a ≤ℤ int_max)

abbrev pub AllInt : List ℤ → Type 0
AllInt [] = Unit {0}
AllInt (a ∷ rest) = IsInt a × AllInt rest

-- A number from 0 to the largest `int`.
abbrev pub IsNat : ℤ → Type 0
IsNat a = (pos 0 ≤ℤ a) × (a ≤ℤ int_max)

abbrev pub IntRange : Range → Type 0
IntRange r = IsNat r.0 × IsNat r.1

abbrev pub IntRanges : List Range → Type 0
IntRanges [] = Unit {0}
IntRanges (r ∷ rs) = IntRange r × IntRanges rs

module _ {Text : Type 0} where
  -- What `getTask` computes to choose a range that nobody had before.
  unfoldable pub choice_sums : ℤ → TaskManager Text → List ℤ
  choice_sums count t = elim t.tasks_recycled [
    | front ∷ rest ↦ []
    | [] ↦
        if leb_ℤ t.mid_end t.mid_current
        then []
        else if ltb_ℤ t.mid_end (t.mid_current +ℤ count)
        then (t.mid_current +ℤ count) ∷ (t.mid_end -ℤ t.mid_current) ∷ []
        else (t.mid_current +ℤ count) ∷ []
  ]

  -- The share of the range that its log line tells, and the next id.
  unfoldable pub log_sums : TaskManager Text → List ℤ
  log_sums t =
      (t.mid_current -ℤ t.mid_start)
      ∷ (t.mid_end -ℤ t.mid_start)
      ∷ (t.task_id_current +ℤ pos 1)
      ∷ []

  -- Every sum and difference of `int` that `getTask` computes.
  unfoldable pub get_task_sums : Env → ℤ → TaskManager Text → List ℤ
  get_task_sums env count t =
      if env.is_running
      then elim (take_range count t) [
        | none ↦ choice_sums count t
        | some (r, u) ↦ choice_sums count t ++ log_sums u
      ]
      else []

-- `++count` of `recycle`, for each task of the client.
unfoldable pub recycle_sums : ℤ → ℤ → OrdMap BiliTask → List ℤ
recycle_sums client_id count [] = []
recycle_sums client_id count ((k, task) ∷ m) = elim (task.client_id ==ℤ client_id) [
  | true ↦ (count +ℤ pos 1) ∷ recycle_sums client_id (count +ℤ pos 1) m
  | false ↦ recycle_sums client_id count m
]

-- A commit computes none; times are of 64 bits and not looked at here.
module _ (json : JsonText) where
  unfoldable pub call_sums : TaskManager json.Text → Env × Call → List ℤ
  call_sums t (env, gets client_id count) = get_task_sums env count t
  call_sums t (env, commits client_id task_id) = []
  call_sums t (env, recycles client_id) = recycle_sums client_id (pos 0) t.tasks

  -- Those of a run of calls.
  unfoldable pub run_sums : TaskManager json.Text → List (Env × Call) → List ℤ
  run_sums t [] = []
  run_sums t (c ∷ cs) = call_sums t c ++ run_sums (step json t c) cs
