-- ===== src/Client/Spider/Threads.antt =====
-- The crawling threads side by side: the rest of `spiderThread` of
-- BiliUserSpiderClient/src/biliuser_spider.cpp, on the task manager that they share. A call
-- of the task manager holds its mutex, so the calls of the threads come one after the other, in any
-- order.
pub mod Issued
pub mod Held
pub mod Laws
use bili_user_spider.Prelude.{
  ℕ, ◌≡◌, List, [], ◌∷◌, Option, none, some, Bool, true, false, if◌then◌else◌, ◌==◌, ℤ,
}
use bili_user_spider.Prelude.OrdMap.{OrdMap}
use bili_user_spider.Client.Types.{MainTask, StopMode, Outside}
use bili_user_spider.Client.TaskManager.{TaskManager}
use bili_user_spider.Client.TaskManager.Write.{g_stop}
use bili_user_spider.Client.TaskManager.Calls.{get_sub_task, commit_sub_task}
use bili_user_spider.Client.Spider.{Crawl, Batch, done, crawl_mids}

-- Before `getSubTask`; behind it without a sub task; with the one that it gave; behind the loop.
pub data Thread : Type 0 where
  idle : Thread
  unserved : Thread
  holding : ℤ → List ℤ → Thread
  quit : Thread

abbrev pub no_results : Batch
no_results = record { infos = []; none_mids = []; error_mids = [] }

-- A thread without a sub task ends when no main task is left or it has to, else it asks again.
unfoldable pub without_task : OrdMap MainTask → Bool → Thread
without_task [] force_stop = quit
without_task (t ∷ ts) force_stop = if force_stop then quit else idle

unfoldable pub set : ℕ → Thread → (ℕ → Thread) → (ℕ → Thread)
set i x threads j = if i == j then x else threads j

module _ (out : Outside) where
  open out use {World}

  -- The threads by number.
  pub record System : Type 0 where
    pub tasks : TaskManager World
    pub threads : ℕ → Thread

  -- What a thread is after its call of `getSubTask`.
  unfoldable pub requested : Option (ℤ × List ℤ) → Thread
  requested none = unserved
  requested (some (id, mids)) = holding id mids

  unfoldable pub request : ℕ → System → System
  request i s =
      let answer = get_sub_task out s.tasks in
      record { tasks = answer.0; threads = set i (requested answer.1) s.threads }

  -- A thread without a sub task calls `numMainTasks`, once the mutex is free again.
  unfoldable pub look : ℕ → System → System
  look i s = record {
    tasks = s.tasks;
    threads = set i (without_task s.tasks.main_tasks s.tasks.force_stop) s.threads;
  }

  unfoldable pub commit : ℕ → ℤ → Batch → System → System
  commit i id b s = record {
    tasks = commit_sub_task out id b.infos b.none_mids b.error_mids s.tasks;
    threads = set i idle s.threads;
  }

  -- A step of one thread, or a stop that another part of the client asks for.
  pub data Step (c : Crawl) : System → System → Type 1 where
    requests : (i : ℕ) (s : System) → s.threads i ≡ idle → Step c s (request i s)
    looks : (i : ℕ) (s : System) → s.threads i ≡ unserved → Step c s (look i s)
    commits :
        (i : ℕ) (s : System) (id : ℤ) (mids : List ℤ) (fuel : ℕ) (w w' : c.World) (b : Batch)
        → s.threads i ≡ holding id mids
        → crawl_mids c fuel mids no_results w ≡ done (w', b)
        → c.force_stop w' ≡ false
        → Step c s (commit i id b s)
    gives_up :
        (i : ℕ) (s : System) (id : ℤ) (mids : List ℤ)
        → s.threads i ≡ holding id mids
        → s.tasks.force_stop ≡ true
        → Step c s (record s { threads = set i quit s.threads })
    stops : (mode : StopMode) (s : System) → Step c s (record s { tasks = g_stop mode s.tasks })

  pub data Steps (c : Crawl) : System → System → Type 1 where
    here : (s : System) → Steps c s s
    then_step : (s t u : System) → Steps c s t → Step c t u → Steps c s u
