-- ===== src/Server/TaskManager/Machine/Number.antt =====
-- How many tasks there are, which `recycle` of BiliUserSpiderServer/src/manager/task_manager.cpp counts
-- in an `int`.
use bili_user_spider.Prelude.{
  ℕ, suc, ◌+◌, ◌≤◌, ◌≡◌, [], ◌∷◌, some, Bool, arith, ℤ, pos, ◌+ℤ◌, ◌≤ℤ◌, +ℤ_parts, Option-cases,
  Bool-cases, inl, inr, length, ◌==ℤ◌, ltb_ℤ,
}
use bili_user_spider.Prelude.OrdMap.{OrdMap, emplace, erase, erase_if}
use bili_user_spider.Server.Json.{JsonText}
use bili_user_spider.Server.TaskManager.{
  Range, BiliTask, TaskManager, Env, recycle_all, next_range, take_range, new_task, assign_range,
  get_task, clear_task, commit, recycle,
}
use bili_user_spider.Server.TaskManager.Valid.{write_if_due-SameTasks}
use bili_user_spider.Server.TaskManager.Assign.{noted}
use bili_user_spider.Server.TaskManager.Runs.{Call, gets, commits, recycles, step}
use bili_user_spider.Server.TaskManager.Machine.{int_max, AllInt, recycle_sums}

length-emplace :
    (k : ℤ) (task : BiliTask) (m : OrdMap BiliTask) → length (emplace k task m) ≤ suc (length m)
unfolding emplace
length-emplace k task [] = omega arith
length-emplace k task ((j, w) ∷ m) = ground (arith, length-emplace k task m)

length-erase : (k : ℤ) (m : OrdMap BiliTask) → length (erase k m) ≤ length m
unfolding erase
length-erase k [] = omega arith
length-erase k ((j, w) ∷ m) = ground (arith, length-erase k m)

length-erase_if : (p : BiliTask → Bool) (m : OrdMap BiliTask) → length (erase_if p m) ≤ length m
unfolding erase_if
length-erase_if p [] = omega arith
length-erase_if p ((j, w) ∷ m) = ground (arith, length-erase_if p m)

-- There is room for so many tasks more.
abbrev pub TasksFit : {Text : Type 0} → ℕ → TaskManager Text → Type 0
TasksFit k t = pos (length t.tasks + k) ≤ℤ int_max

pub recycle_sums-AllInt :
    (client_id count : ℤ) (m : OrdMap BiliTask)
    → pos 0 ≤ℤ count
    → count +ℤ pos (length m) ≤ℤ int_max
    → AllInt (recycle_sums client_id count m)
unfolding recycle_sums
recycle_sums-AllInt client_id count [] lo hi = tt
recycle_sums-AllInt client_id count ((k, task) ∷ m) lo hi =
    elim (Bool-cases (task.client_id ==ℤ client_id)) [
      | inl e ↦
          let rest =
            recycle_sums-AllInt client_id (count +ℤ pos 1) m
              (omega (arith, lo, +ℤ_parts count (pos 1)))
              (omega (
                arith,
                hi,
                +ℤ_parts count (pos 1),
                +ℤ_parts (count +ℤ pos 1) (pos (length m)),
                +ℤ_parts count (pos (suc (length m))),
              )) in
          rw (e, AllInt)
            (
              (
                omega (arith, lo, +ℤ_parts count (pos 1)),
                omega (arith, hi, +ℤ_parts count (pos 1), +ℤ_parts count (pos (suc (length m)))),
              ),
              rest,
            )
      | inr e ↦
          rw (e, AllInt)
            (recycle_sums-AllInt client_id count m lo (
              omega (
                arith,
                hi,
                +ℤ_parts count (pos (length m)),
                +ℤ_parts count (pos (suc (length m))),
              )))
    ]

take_range-tasks :
    {Text : Type 0} (count : ℤ) (t u : TaskManager Text) (r : Range)
    → take_range count t ≡ some (r, u)
    → u.tasks ≡ t.tasks
unfolding take_range next_range
take_range-tasks count t u r h = ground arith

module _ (json : JsonText) where
  length-assign_range :
      (env : Env) (client_id : ℤ) (r : Range) (t : TaskManager json.Text)
      → length (assign_range json env client_id r t).0.tasks ≤ suc (length t.tasks)
  unfolding assign_range
  length-assign_range env client_id r t =
      let written = write_if_due-SameTasks json env (noted json env client_id r t) in
      ground (arith, written, length-emplace t.task_id_current (new_task env client_id r) t.tasks)

  length-get_task :
      (env : Env) (client_id count : ℤ) (t : TaskManager json.Text)
      → length (get_task json env client_id count t).0.tasks ≤ suc (length t.tasks)
  unfolding get_task
  length-get_task env client_id count t = elim (Option-cases (take_range count t)) [
    | inl e ↦ rw (e, get_task) (ground arith)
    | inr ((r, u), e) ↦
        rw (e, get_task)
          (ground (arith, length-assign_range env client_id r u, take_range-tasks count t u r e))
  ]

  length-clear_task :
      (client_id task_id : ℤ) (t : TaskManager json.Text)
      → length (clear_task json client_id task_id t).tasks ≤ length t.tasks
  unfolding clear_task
  length-clear_task client_id task_id t = ground (arith, length-erase task_id t.tasks)

  -- A call adds at most one task.
  length-step :
      (t : TaskManager json.Text) (c : Env × Call)
      → length (step json t c).tasks ≤ suc (length t.tasks)
  unfolding step commit recycle recycle_all
  length-step t (env, gets client_id count) = length-get_task env client_id count t
  length-step t (env, commits client_id task_id) =
      let u = clear_task json client_id task_id t in
      let is_late = λ (task : BiliTask). ltb_ℤ task.ttl env.now in
      let written = write_if_due-SameTasks json env (recycle_all is_late u) in
      ground
        (arith, written, length-erase_if is_late u.tasks, length-clear_task client_id task_id t)
  length-step t (env, recycles client_id) =
      let is_of = λ (task : BiliTask). task.client_id ==ℤ client_id in
      let written = write_if_due-SameTasks json env (recycle_all is_of t) in
      ground (arith, written, length-erase_if is_of t.tasks)

  pub step-TasksFit :
      (k : ℕ) (t : TaskManager json.Text) (c : Env × Call)
      → TasksFit (suc k) t
      → TasksFit k (step json t c)
  step-TasksFit k t c h = omega (arith, h, length-step t c)
