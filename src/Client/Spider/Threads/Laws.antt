-- ===== src/Client/Spider/Threads/Laws.antt =====
-- No two threads work on the same sub task, in whatever order their calls come.
use bili_user_spider.Prelude.{ℕ, ◌≡◌, refl, ◌⊎◌, List, [], Option, none, some, arith, inl, inr, ℤ}
use bili_user_spider.Prelude.OrdMap.{find, erase}
use bili_user_spider.Client.Types.{Outside, smooth, force}
use bili_user_spider.Client.TaskManager.{TaskManager}
use bili_user_spider.Client.TaskManager.Write.{g_stop}
use bili_user_spider.Client.TaskManager.Calls.{get_sub_task, commit_sub_task}
use bili_user_spider.Client.Spider.{Crawl}
use bili_user_spider.Client.Spider.Threads.{
  Thread, idle, unserved, look, looks, holding, quit, set, System, requested, request, commit, Step,
  requests, commits, gives_up, stops, Steps, here, then_step, without_task,
}
use bili_user_spider.Client.Spider.Threads.Issued.{
  Issued, get_sub_task-Issued, commit_sub_task-sub_tasks,
}
use bili_user_spider.Client.Spider.Threads.Held.{
  IsHeld, without_task-holding, release-IsHeld, take-IsHeld, return-IsHeld,
}

module _ (out : Outside) where
  open out use {World}

  requested-IsHeld :
      (t : TaskManager World) (threads : ℕ → Thread) (i : ℕ)
      (r : TaskManager World × Option (ℤ × List ℤ))
      → Issued t r
      → IsHeld t threads
      → IsHeld r.0 (set i (requested out r.1) threads)
  unfolding requested
  requested-IsHeld t threads i (u, none) (subs, next) held =
      release-IsHeld t u threads i unserved (λ k ks. ground arith) subs next held
  requested-IsHeld t threads i (u, some (id, mids)) issued held =
      take-IsHeld t u threads i id mids issued held

  returned-IsHeld :
      (t u : TaskManager World) (threads : ℕ → Thread) (i : ℕ) (id : ℤ) (mids : List ℤ)
      → threads i ≡ holding id mids
      → (u.sub_tasks ≡ t.sub_tasks) ⊎ (u.sub_tasks ≡ erase id t.sub_tasks)
      → u.current_sub_task_id ≡ t.current_sub_task_id
      → IsHeld t threads
      → IsHeld u (set i idle threads)
  returned-IsHeld t u threads i id mids mine (inl same) next held =
      release-IsHeld t u threads i idle (λ k ks. ground arith) same next held
  returned-IsHeld t u threads i id mids mine (inr gone) next held =
      return-IsHeld t u threads i id mids mine gone next held

  Step-IsHeld :
      {c : Crawl} {s t : System out}
      → Step out c s t
      → IsHeld s.tasks s.threads
      → IsHeld t.tasks t.threads
  unfolding request look commit g_stop
  Step-IsHeld (requests i s e) held =
      requested-IsHeld s.tasks s.threads i (get_sub_task out s.tasks)
        (get_sub_task-Issued out s.tasks) held
  Step-IsHeld (looks i s e) held =
      release-IsHeld s.tasks s.tasks s.threads i
        (without_task s.tasks.main_tasks s.tasks.force_stop)
        (without_task-holding s.tasks.main_tasks s.tasks.force_stop) refl refl held
  Step-IsHeld (commits i s id mids fuel w w' b e _ _) held =
      let u = commit_sub_task out id b.infos b.none_mids b.error_mids s.tasks in
      let (subs, next) =
        commit_sub_task-sub_tasks out id b.infos b.none_mids b.error_mids s.tasks in
      returned-IsHeld s.tasks u s.threads i id mids e subs next held
  Step-IsHeld (gives_up i s id mids e _) held =
      release-IsHeld s.tasks s.tasks s.threads i quit (λ k ks. ground arith) refl refl held
  Step-IsHeld (stops smooth s) held = record {
    below = held.below;
    ordered = held.ordered;
    recorded = held.recorded;
    alone = held.alone;
  }
  Step-IsHeld (stops force s) held = record {
    below = held.below;
    ordered = held.ordered;
    recorded = held.recorded;
    alone = held.alone;
  }

  Steps-IsHeld :
      {c : Crawl} {s t : System out}
      → Steps out c s t
      → IsHeld s.tasks s.threads
      → IsHeld t.tasks t.threads
  Steps-IsHeld (here s) held = held
  Steps-IsHeld (then_step s t u before step) held = Step-IsHeld step (Steps-IsHeld before held)

  start-IsHeld :
      (s : System out)
      → s.tasks.sub_tasks ≡ []
      → ((i : ℕ) → s.threads i ≡ idle)
      → IsHeld s.tasks s.threads
  start-IsHeld s empty rest = record {
    below = rw empty tt;
    ordered = rw empty tt;
    recorded = λ i id mids h. absurd (ground (arith, rest i, h));
    alone = λ i j id mids mids' h h'. absurd (ground (arith, rest i, h));
  }

  -- From the start, where no thread has anything, whatever calls the threads make in whatever order
  -- and whoever stops the client: what a thread works on is recorded with exactly its users, and no
  -- other thread works on it.
  pub Steps-alone :
      {c : Crawl} {s t : System out}
      → Steps out c s t
      → s.tasks.sub_tasks ≡ []
      → ((i : ℕ) → s.threads i ≡ idle)
      → (i : ℕ) (id : ℤ) (mids : List ℤ) → t.threads i ≡ holding id mids
      → ((main_task_id : ℤ) × (find id t.tasks.sub_tasks
            ≡ some (record { main_task_id = main_task_id; mids = mids })))
        × ((j : ℕ) (mids' : List ℤ) → t.threads j ≡ holding id mids' → i ≡ j)
  Steps-alone {s} steps empty rest i id mids h =
      let held = Steps-IsHeld steps (start-IsHeld s empty rest) in
      (held.recorded i id mids h, λ j mids' h'. held.alone i j id mids mids' h h')
