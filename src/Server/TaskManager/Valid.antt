-- ===== src/Server/TaskManager/Valid.antt =====
-- The well-formedness of the task manager, and what writing the archive leaves alone.
use bili_user_spider.Prelude.{◌≡◌, Bool, arith, ℤ}
use bili_user_spider.Prelude.OrdMap.{AllBelow, IsOrdered}
use bili_user_spider.Prelude.OrdMap.Laws.{
  erase-AllBelow, erase-IsOrdered, erase_if-AllBelow, erase_if-IsOrdered,
}
use bili_user_spider.Server.Json.{JsonText}
use bili_user_spider.Server.TaskManager.{
  BiliTask, TaskManager, Env, write_data_to_file, write_if_due, recycle_all, clear_task,
}
use bili_user_spider.Server.TaskManager.Cover.{pending}

-- The ids of the tasks ascend and lie below the next id.
pub record IsValid {Text : Type 0} (t : TaskManager Text) : Type 0 where
  pub ordered : IsOrdered t.tasks
  pub fresh : AllBelow t.task_id_current t.tasks

-- The two states differ in the archive at most.
pub record SameTasks {Text : Type 0} (t u : TaskManager Text) : Type 0 where
  pub tasks : u.tasks ≡ t.tasks
  pub tasks_recycled : u.tasks_recycled ≡ t.tasks_recycled
  pub task_id_current : u.task_id_current ≡ t.task_id_current
  pub mid_start : u.mid_start ≡ t.mid_start
  pub mid_current : u.mid_current ≡ t.mid_current
  pub mid_end : u.mid_end ≡ t.mid_end

module _ {Text : Type 0} where
  pub SameTasks-IsValid : {t u : TaskManager Text} → SameTasks t u → IsValid t → IsValid u
  SameTasks-IsValid s v = ground arith

  pub SameTasks-pending :
      (m : ℤ) {t u : TaskManager Text} → SameTasks t u → pending m u ≡ pending m t
  unfolding pending
  SameTasks-pending m s = ground arith

  pub recycle_all-IsValid :
      (p : BiliTask → Bool) {t : TaskManager Text} → IsValid t → IsValid (recycle_all p t)
  unfolding recycle_all
  recycle_all-IsValid p {t} v = record {
    ordered = erase_if-IsOrdered p t.tasks v.ordered;
    fresh = erase_if-AllBelow p t.task_id_current t.tasks v.fresh;
  }

module _ (json : JsonText) where
  pub write_if_due-SameTasks :
      (env : Env) (t : TaskManager json.Text) → SameTasks t (write_if_due json env t)
  unfolding write_if_due write_data_to_file
  write_if_due-SameTasks env t = ground arith

  pub clear_task-IsValid :
      (client_id task_id : ℤ) (t : TaskManager json.Text)
      → IsValid t
      → IsValid (clear_task json client_id task_id t)
  unfolding clear_task
  clear_task-IsValid client_id task_id t v = ground (
    arith,
    erase-IsOrdered task_id t.tasks v.ordered,
    erase-AllBelow t.task_id_current task_id t.tasks v.fresh,
  )
