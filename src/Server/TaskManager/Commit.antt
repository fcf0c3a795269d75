-- ===== src/Server/TaskManager/Commit.antt =====
-- `commit` and `recycle`: which tasks go, and where their ids are afterwards.
use bili_user_spider.Prelude.{
  ℕ, ◌+◌, ◌≡◌, none, some, ◌&&◌, ◌||◌, arith, if◌then◌else◌, ℤ, ltb_ℤ, ◌==ℤ◌, ==ℤ_iff, Option-cases,
  inl, inr,
}
use bili_user_spider.Prelude.OrdMap.{find}
use bili_user_spider.Prelude.OrdMap.Laws.{find-erase, find-erase_if}
use bili_user_spider.Server.Json.{JsonText}
use bili_user_spider.Server.TaskManager.{
  BiliTask, range, TaskManager, Env, clear_task, recycle_all, commit, recycle,
}
use bili_user_spider.Server.TaskManager.Cover.{pending, cover-erase, pending-recycle_all}
use bili_user_spider.Prelude.Ranges.{inside}
use bili_user_spider.Server.TaskManager.Valid.{
  IsValid, write_if_due-SameTasks, SameTasks-pending, SameTasks-IsValid, recycle_all-IsValid,
  clear_task-IsValid,
}

-- 1 if a commit of this client takes the id off, as part of the task that it names, else 0.
unfoldable pub credited : {Text : Type 0} → ℤ → ℤ → ℤ → TaskManager Text → ℕ
credited m client_id task_id t = elim (find task_id t.tasks) [
  | none ↦ 0
  | some task ↦ if task.client_id ==ℤ client_id then inside m (range task) else 0
]

module _ (json : JsonText) (env : Env) (client_id : ℤ) where
  clear_task-pending :
      (m task_id : ℤ) (t : TaskManager json.Text)
      → pending m (clear_task json client_id task_id t) + credited m client_id task_id t
        ≡ pending m t
  unfolding pending clear_task credited
  clear_task-pending m task_id t = elim (Option-cases (find task_id t.tasks)) [
    | inl e ↦ ground arith
    | inr (task, e) ↦ ground (arith, cover-erase m task_id task t.tasks e)
  ]

  -- A commit takes the ids of the committed task off, if the client holds it, and no others:
  -- overdue tasks are recycled with every id.
  pub commit-pending :
      (m task_id : ℤ) (t : TaskManager json.Text)
      → pending m (commit json env client_id task_id t) + credited m client_id task_id t
        ≡ pending m t
  unfolding commit
  commit-pending m task_id t =
      let cleared = clear_task json client_id task_id t in
      let kept = recycle_all (λ task. ltb_ℤ task.ttl env.now) cleared in
      omega (
        arith,
        SameTasks-pending m (write_if_due-SameTasks json env kept),
        pending-recycle_all m (λ task. ltb_ℤ task.ttl env.now) cleared,
        clear_task-pending m task_id t,
      )

  clear_task-find :
      (task_id k : ℤ) (t : TaskManager json.Text)
      → IsValid t
      → find k (clear_task json client_id task_id t).tasks ≡ elim (find k t.tasks) [
        | none ↦ none
        | some task ↦ if (k ==ℤ task_id) && (task.client_id ==ℤ client_id) then none else some task
      ]
  unfolding clear_task
  clear_task-find task_id k t v =
      ground (arith, find-erase task_id k t.tasks v.ordered, ==ℤ_iff k task_id)

  -- After a commit the entry of an id is gone if it was committed by its client or is overdue, and
  -- else it is what it was.
  pub commit-find :
      (task_id k : ℤ) (t : TaskManager json.Text)
      → IsValid t
      → find k (commit json env client_id task_id t).tasks ≡ elim (find k t.tasks) [
        | none ↦ none
        | some task ↦
            if ((k ==ℤ task_id) && (task.client_id ==ℤ client_id)) || ltb_ℤ task.ttl env.now
            then none
            else some task
      ]
  unfolding commit recycle_all
  commit-find task_id k t v =
      let cleared = clear_task json client_id task_id t in
      let overdue = λ (task : BiliTask). ltb_ℤ task.ttl env.now in
      ground (
        arith,
        write_if_due-SameTasks json env (recycle_all overdue cleared),
        find-erase_if overdue k cleared.tasks
            (clear_task-IsValid json client_id task_id t v).ordered,
        clear_task-find task_id k t v,
      )

  -- After `recycle` the client holds no task, and the other clients' tasks are as they were.
  pub recycle-find :
      (k : ℤ) (t : TaskManager json.Text)
      → IsValid t
      → find k (recycle json env client_id t).tasks ≡ elim (find k t.tasks) [
        | none ↦ none
        | some task ↦ if task.client_id ==ℤ client_id then none else some task
      ]
  unfolding recycle recycle_all
  recycle-find k t v =
      let of_client = λ (task : BiliTask). task.client_id ==ℤ client_id in
      ground (
        arith,
        write_if_due-SameTasks json env (recycle_all of_client t),
        find-erase_if of_client k t.tasks v.ordered,
      )

  -- `recycle` loses no id and doubles none: what the client held is among the recycled ranges.
  pub recycle-pending :
      (m : ℤ) (t : TaskManager json.Text) → pending m (recycle json env client_id t) ≡ pending m t
  unfolding recycle
  recycle-pending m t =
      let kept = recycle_all (λ task. task.client_id ==ℤ client_id) t in
      omega (
        arith,
        SameTasks-pending m (write_if_due-SameTasks json env kept),
        pending-recycle_all m (λ task. task.client_id ==ℤ client_id) t,
      )

  pub commit-IsValid :
      (task_id : ℤ) (t : TaskManager json.Text)
      → IsValid t
      → IsValid (commit json env client_id task_id t)
  unfolding commit
  commit-IsValid task_id t v = SameTasks-IsValid (write_if_due-SameTasks json env _) (
      recycle_all-IsValid (λ task. ltb_ℤ task.ttl env.now)
        (clear_task-IsValid json client_id task_id t v))

  pub recycle-IsValid :
      (t : TaskManager json.Text) → IsValid t → IsValid (recycle json env client_id t)
  unfolding recycle
  recycle-IsValid t v =
      SameTasks-IsValid (write_if_due-SameTasks json env _)
        (recycle_all-IsValid (λ task. task.client_id ==ℤ client_id) v)
