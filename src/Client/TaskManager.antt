-- ===== src/Client/TaskManager.antt =====
-- The client's task manager, BiliUserSpiderClient/src/manager/task_manager.h and .cpp: how it cuts
-- main tasks into sub tasks and takes them back. `getSubTask` and `commitSubTask` hold the mutex for the whole body. The global
-- flags and the part of the configuration that it reads stand in the state.
pub mod Write
pub mod Calls
pub mod Places
pub mod Settle
pub mod Account
pub mod Sql
pub mod Frame
pub mod Rounds
pub mod Records
pub mod Rows
use bili_user_spider.Prelude.{
  ℕ, zero, suc, List, [], ◌∷◌, ◌++◌, Option, none, some, Bool, true, false, not, ◌&&◌, ◌||◌,
  if◌then◌else◌, length, ℤ, pos, pos_part, ◌+ℤ◌, ◌-ℤ◌, ltb_ℤ, leb_ℤ, ◌==ℤ◌,
}
use bili_user_spider.Prelude.OrdMap.{OrdMap, find, emplace, erase, assign}
use bili_user_spider.Client.Types.{UserInfo, MainTask, SubTask, Steps}

-- `error_mids_` is a map to deques, the two buffers are maps to vectors, all by main task.
pub record TaskManager (World : Type 0) : Type 0 where
  pub commit_ok : ℤ
  pub commit_none : ℤ
  pub commit_error : ℤ
  pub main_tasks : OrdMap MainTask
  pub current_main_task : MainTask
  pub sub_tasks : OrdMap SubTask
  pub current_mid : ℤ
  pub current_sub_task_id : ℤ
  pub infos_buff : OrdMap (List UserInfo)
  pub none_mids_buff : OrdMap (List ℤ)
  pub error_mids : OrdMap (List ℤ)
  pub should_stop : Bool
  pub force_stop : Bool
  pub num_threads : ℤ
  pub steps : Steps
  pub world : World

-- The loop over the failed ids of a main task: those that are taken, and those that stay. `count`
-- is tested after it is counted up, so one id is always taken.
unfoldable pub take_mids : ℤ → ℤ → List ℤ → List ℤ × List ℤ
take_mids step count [] = ([], [])
take_mids step count (mid ∷ mids) =
    let rest = take_mids step (count +ℤ pos 1) mids in
    if leb_ℤ step (count +ℤ pos 1) then (mid ∷ [], mids) else (mid ∷ rest.0, rest.1)

-- The first entry goes when all its ids are taken.
unfoldable pub kept : ℤ → List ℤ → OrdMap (List ℤ) → OrdMap (List ℤ)
kept id [] others = others
kept id (x ∷ left) others = (id, x ∷ left) ∷ others

-- The loop over the ids that are left of the current main task, `left` of them: those that are
-- taken, and the next id.
unfoldable pub next_mids : ℕ → ℤ → ℤ → ℤ → List ℤ × ℤ
next_mids zero step count mid = ([], mid)
next_mids (suc left) step count mid =
    let rest = next_mids left step (count +ℤ pos 1) (mid +ℤ pos 1) in
    if leb_ℤ step (count +ℤ pos 1) then (mid ∷ [], mid +ℤ pos 1) else (mid ∷ rest.0, rest.1)

-- `findIt == end ? emplace : insert at the end`, on one of the buffers.
unfoldable pub push_all {ℓ} : {A : Type ℓ} → ℤ → List A → OrdMap (List A) → OrdMap (List A)
push_all id xs m = elim (find id m) [ none ↦ emplace id xs m | some old ↦ assign id (old ++ xs) m ]

module _ {World : Type 0} where
  -- The sub task is recorded under the next id, which is the result.
  unfoldable pub issue : ℤ → List ℤ → TaskManager World → TaskManager World × Option (ℤ × List ℤ)
  issue main_task_id mids t =
      let sub : SubTask = record { main_task_id = main_task_id; mids = mids } in
      (
        record t {
          sub_tasks = emplace t.current_sub_task_id sub t.sub_tasks;
          current_sub_task_id = t.current_sub_task_id +ℤ pos 1;
        },
        some (t.current_sub_task_id, mids),
      )

  -- Case 1 of `getSubTask`: failed ids go first, all of one main task.
  unfoldable pub retry_errors :
      ℤ → List ℤ → OrdMap (List ℤ) → TaskManager World → TaskManager World × Option (ℤ × List ℤ)
  retry_errors id failed others t =
      let (mids, left) = take_mids t.steps.sub_task_step (pos 0) failed in
      issue id mids (record t { error_mids = kept id left others })

  -- The end of case 2: the next ids of the current main task.
  unfoldable pub issue_next : TaskManager World → TaskManager World × Option (ℤ × List ℤ)
  issue_next t =
      let left = pos_part (t.current_main_task.mid_end -ℤ t.current_mid) in
      let (mids, next) = next_mids left t.steps.sub_task_step (pos 0) t.current_mid in
      issue t.current_main_task.id mids (record t { current_mid = next })
