-- ===== src/Client/TaskManager/Account/Crawled.antt =====
-- The calls of the threads keep the account of every main task.
use bili_user_spider.Prelude.{
  ℕ, ◌+◌, ◌≡◌, refl, List, [], ◌∷◌, some, arith, length, Option-cases, inl, inr, ℤ, pos,
}
use bili_user_spider.Prelude.OrdMap.{find, erase, AllBelow}
use bili_user_spider.Prelude.OrdMap.Laws.{erase-AllBelow}
use bili_user_spider.Client.Types.{SubTask, Outside, UserInfo}
use bili_user_spider.Client.TaskManager.{TaskManager}
use bili_user_spider.Client.TaskManager.Calls.{
  buffer_infos, buffer_none, buffer_errors, write_ok_if_due, write_none_if_due, commit_sub_task,
}
use bili_user_spider.Client.TaskManager.Frame.{
  SameIds, SamePlaces, SamePlaces-trans, write_ok_if_due-SamePlaces, write_none_if_due-SamePlaces,
}
use bili_user_spider.Client.TaskManager.Rounds.{buffer_infos-SamePlaces, buffer_none-SamePlaces}
use bili_user_spider.Client.TaskManager.Account.{in_map, in_subs}
use bili_user_spider.Client.TaskManager.Account.Pushed.{
  only, in_map-push_all, push_all-AllFilled, push_all-IsOrdered, in_subs-erase, Account-move,
}
use bili_user_spider.Client.TaskManager.Account.Written.{
  Balanced, waiting, ungiven, Account-swap, write_ok_if_due-Balanced, write_none_if_due-Balanced,
}

module _ {World : Type 0} where
  -- The account depends on the main tasks and the buffers alone.
  pub Balanced-same :
      (w w' : ℤ → ℕ) (t u : TaskManager World)
      → ((k : ℤ) → w' k ≡ w k)
      → u.main_tasks ≡ t.main_tasks
      → u.infos_buff ≡ t.infos_buff
      → u.none_mids_buff ≡ t.none_mids_buff
      → Balanced w t
      → Balanced w' u
  Balanced-same w w' t u same tasks infos none_mids v = record {
    tasks_ordered = ground (arith, tasks, v.tasks_ordered);
    infos_ordered = ground (arith, infos, v.infos_ordered);
    none_ordered = ground (arith, none_mids, v.none_ordered);
    infos_filled = ground (arith, infos, v.infos_filled);
    none_filled = ground (arith, none_mids, v.none_filled);
    account = λ k. let e = same k in ground (arith, e, tasks, infos, none_mids, v.account k);
  }

  buffer_infos-Balanced :
      (w : ℤ → ℕ) (id : ℤ) (infos : List UserInfo) (t : TaskManager World)
      → Balanced (λ k. w k + only id (length infos) k) t
      → Balanced w (buffer_infos id infos t)
  unfolding buffer_infos
  buffer_infos-Balanced w id [] t v =
      Balanced-same (λ k. w k + only id 0 k) w t t (λ k. ground arith) refl refl refl v
  buffer_infos-Balanced w id (x ∷ infos) t v = record {
    tasks_ordered = v.tasks_ordered;
    infos_ordered = push_all-IsOrdered id (x ∷ infos) t.infos_buff v.infos_ordered;
    none_ordered = v.none_ordered;
    infos_filled = push_all-AllFilled id (x ∷ infos) t.infos_buff (omega arith) v.infos_filled;
    none_filled = v.none_filled;
    account = λ k.
        let moved = Account-move _ (w k) _ _ (only id (length (x ∷ infos)) k) (v.account k) in
        ground (arith, in_map-push_all k id (x ∷ infos) t.infos_buff, moved);
  }

  buffer_none-Balanced :
      (w : ℤ → ℕ) (id : ℤ) (mids : List ℤ) (t : TaskManager World)
      → Balanced (λ k. w k + only id (length mids) k) t
      → Balanced w (buffer_none id mids t)
  unfolding buffer_none
  buffer_none-Balanced w id [] t v =
      Balanced-same (λ k. w k + only id 0 k) w t t (λ k. ground arith) refl refl refl v
  buffer_none-Balanced w id (x ∷ mids) t v = record {
    tasks_ordered = v.tasks_ordered;
    infos_ordered = v.infos_ordered;
    none_ordered = push_all-IsOrdered id (x ∷ mids) t.none_mids_buff v.none_ordered;
    infos_filled = v.infos_filled;
    none_filled = push_all-AllFilled id (x ∷ mids) t.none_mids_buff (omega arith) v.none_filled;
    account = λ k.
        let moved = Account-swap _ _ _ _ (
          Account-move _ (w k) _ _ (only id (length (x ∷ mids)) k)
            (Account-swap _ _ _ _ (v.account k))) in
        ground (arith, in_map-push_all k id (x ∷ mids) t.none_mids_buff, moved);
  }

  buffer_errors-Balanced :
      (w : ℤ → ℕ) (id : ℤ) (mids : List ℤ) (t : TaskManager World)
      → Balanced w t
      → Balanced w (buffer_errors id mids t)
  unfolding buffer_errors
  buffer_errors-Balanced w id [] t v = v
  buffer_errors-Balanced w id (x ∷ mids) t v = Balanced-same w w t _ (λ k. refl) refl refl refl v

  -- What buffer_errors leaves alone, and what it adds.
  buffer_errors-waiting :
      (k id : ℤ) (mids : List ℤ) (t : TaskManager World)
      → SameIds (record (buffer_errors id mids t) { error_mids = t.error_mids }) t
        × (in_map k (buffer_errors id mids t).error_mids
            ≡ in_map k t.error_mids + only id (length mids) k)
        × ((buffer_errors id mids t).current_main_task ≡ t.current_main_task)
  unfolding buffer_errors
  buffer_errors-waiting k id [] t = (ground arith, ground arith, refl)
  buffer_errors-waiting k id (x ∷ mids) t =
      (ground arith, in_map-push_all k id (x ∷ mids) t.error_mids, refl)

module _ (out : Outside) where
  open out use {World}

  -- Every account is kept, and the next sub task has a new id.
  pub record InBalance (t : TaskManager World) : Type 0 where
    pub balanced : Balanced (λ k. waiting k t) t
    pub next_id : AllBelow t.current_sub_task_id t.sub_tasks

  module _ (sub_task_id id : ℤ) (infos : List UserInfo) (none_mids error_mids : List ℤ)
      (t : TaskManager World) where
    -- The state behind both writes of commitSubTask, and behind the whole of it.
    abbrev written : TaskManager World
    written =
        write_none_if_due out sub_task_id
          (buffer_none id none_mids (write_ok_if_due out sub_task_id (buffer_infos id infos t)))

    abbrev committed : TaskManager World
    committed =
        let t3 = buffer_errors id error_mids written in
        record t3 { sub_tasks = erase sub_task_id t3.sub_tasks }

    written-SamePlaces : SamePlaces t written
    written-SamePlaces =
        let b1 = buffer_infos id infos t in
        let t1 = write_ok_if_due out sub_task_id b1 in
        SamePlaces-trans
          (SamePlaces-trans (buffer_infos-SamePlaces id infos t)
            (write_ok_if_due-SamePlaces out sub_task_id b1))
          (SamePlaces-trans (buffer_none-SamePlaces id none_mids t1)
            (write_none_if_due-SamePlaces out sub_task_id (buffer_none id none_mids t1)))

    -- The ids that wait behind the call.
    abbrev after : ℤ → ℕ
    after k =
        in_map k t.error_mids
        + in_subs k (erase sub_task_id t.sub_tasks)
        + ungiven k t
        + only id (length error_mids) k

    committed-waiting : (k : ℤ) → waiting k committed ≡ after k
    unfolding waiting ungiven
    committed-waiting k =
        let errors = buffer_errors-waiting k id error_mids written in
        ground (arith, written-SamePlaces, errors)

    all_waiting :
        (sub : SubTask)
        → find sub_task_id t.sub_tasks ≡ some sub
        → sub.main_task_id ≡ id
        → length infos + length none_mids + length error_mids ≡ length sub.mids
        → (k : ℤ) → after k + only id (length none_mids) k + only id (length infos) k ≡ waiting k t
    unfolding waiting
    all_waiting sub e own whole k =
        ground (arith, own, whole, in_subs-erase k sub_task_id sub t.sub_tasks e)

    committed-InBalance :
        (sub : SubTask)
        → find sub_task_id t.sub_tasks ≡ some sub
        → sub.main_task_id ≡ id
        → length infos + length none_mids + length error_mids ≡ length sub.mids
        → InBalance t
        → InBalance committed
    committed-InBalance sub e own whole v =
        let crawled : ℤ → ℕ = λ k. after k + only id (length none_mids) k in
        let all : ℤ → ℕ = λ k. crawled k + only id (length infos) k in
        let before : Balanced all t =
          Balanced-same (λ k. waiting k t) all t t (all_waiting sub e own whole) refl refl refl
            v.balanced in
        let b1 = buffer_infos id infos t in
        let v1 =
          write_ok_if_due-Balanced out crawled sub_task_id b1
            (buffer_infos-Balanced crawled id infos t before) in
        let b2 = buffer_none id none_mids (write_ok_if_due out sub_task_id b1) in
        let v2 =
          write_none_if_due-Balanced out after sub_task_id b2
            (buffer_none-Balanced after id none_mids (write_ok_if_due out sub_task_id b1) v1) in
        let v3 = buffer_errors-Balanced after id error_mids written v2 in
        let errors = buffer_errors-waiting (pos 0) id error_mids written in
        record {
          balanced =
              Balanced-same after (λ k. waiting k committed) (buffer_errors id error_mids written)
                committed committed-waiting refl refl refl v3;
          next_id = ground (
            arith,
            errors.0,
            written-SamePlaces,
            erase-AllBelow t.current_sub_task_id sub_task_id t.sub_tasks v.next_id,
          );
        }

  -- commitSubTask with a result for each id of the sub task, whether or not the buffers are written
  -- and whatever that comes to.
  pub commit_sub_task-InBalance :
      (id : ℤ) (infos : List UserInfo) (none_mids error_mids : List ℤ) (t : TaskManager World)
      → ((sub : SubTask)
          → find id t.sub_tasks ≡ some sub
          → length infos + length none_mids + length error_mids ≡ length sub.mids)
      → InBalance t
      → InBalance (commit_sub_task out id infos none_mids error_mids t)
  unfolding commit_sub_task
  commit_sub_task-InBalance id infos none_mids error_mids t whole v =
      elim (Option-cases (find id t.sub_tasks)) [
        | inl e ↦ ground (arith, e, v)
        | inr (sub, e) ↦ elim (Option-cases (find sub.main_task_id t.main_tasks)) [
          | inl e' ↦ ground (arith, e, e', v)
          | inr (main, e') ↦
              let kept =
                committed-InBalance id sub.main_task_id infos none_mids error_mids t sub e refl
                  (whole sub e) v in
              ground (arith, e, e', kept)
        ]
      ]
