-- ===== src/Client/TaskManager/Account/Handed.antt =====
-- Giving out sub tasks keeps the account of every main task.
use mathlib.Core.Path.{subst, sym}
use bili_user_spider.Prelude.{
  ℕ, zero, suc, ◌≡◌, refl, [], Option, none, some, true, false, arith, Bool-cases, List-cases, inl,
  inr, ℤ, pos, ◌+ℤ◌, ◌-ℤ◌, ◌*ℤ◌, ◌≤ℤ◌, leb_ℤ, ◌==ℤ◌, ==ℤ_iff,
}
use bili_user_spider.Prelude.OrdMap.{find, emplace, AllBelow}
use bili_user_spider.Prelude.OrdMap.Laws.{find-emplace, emplace-IsOrdered}
use bili_user_spider.Client.Types.{smooth, MainTask, Outside}
use bili_user_spider.Client.TaskManager.{TaskManager}
use bili_user_spider.Client.TaskManager.Write.{get_main_task, flush, g_stop}
use bili_user_spider.Client.TaskManager.Calls.{next_main_task, get_sub_task}
use bili_user_spider.Client.TaskManager.Frame.{SameIds, flush-SamePlaces, get_main_task-SameIds}
use bili_user_spider.Client.TaskManager.Account.{in_map, Account}
use bili_user_spider.Client.TaskManager.Account.Written.{
  waiting, ungiven, SamePlaces-waiting, flush-Balanced, g_stop-Balanced,
}
use bili_user_spider.Client.TaskManager.Account.Cut.{retry_errors-InBalance, issue_next-InBalance}
use bili_user_spider.Client.TaskManager.Account.Crawled.{Balanced-same, InBalance}

module _ (out : Outside) where
  open out use {World}

  -- A request for a main task touches no main task and no buffer.
  get_main_task-tasks :
      (tries : ℕ) (t : TaskManager World)
      → ((get_main_task out tries t).0.main_tasks ≡ t.main_tasks)
        × ((get_main_task out tries t).0.infos_buff ≡ t.infos_buff)
        × ((get_main_task out tries t).0.none_mids_buff ≡ t.none_mids_buff)
  unfolding get_main_task
  get_main_task-tasks zero t = (refl, refl, refl)
  get_main_task-tasks (suc tries) t =
      let count = t.num_threads *ℤ t.steps.sub_task_step *ℤ t.steps.main_task_step_times in
      let (w, answer) =
        out.api_get_task count (t.commit_ok +ℤ t.commit_none) t.current_main_task t.steps t.world in
      let next = record t {
        world = w;
        current_main_task = answer.main_task;
        steps = answer.steps;
      } in
      ground (arith, get_main_task-tasks tries next)

  -- What the server promises: a main task that it gives is new and untouched, and without one the
  -- current main task stays.
  pub record Gives (t : TaskManager World) : Type 0 where
    pub is_new :
        (get_main_task out 10 t).1 ≡ true
        → find (get_main_task out 10 t).0.current_main_task.id t.main_tasks ≡ none
    pub untouched :
        (get_main_task out 10 t).1 ≡ true
        → (get_main_task out 10 t).0.current_main_task.completed ≡ pos 0
    pub stays :
        (get_main_task out 10 t).1 ≡ false
        → (get_main_task out 10 t).0.current_main_task ≡ t.current_main_task

  pub nothing_ungiven :
      (k : ℤ) (t : TaskManager World)
      → t.current_main_task.mid_end ≤ℤ t.current_mid
      → ungiven k t ≡ 0
  unfolding ungiven ◌-ℤ◌
  nothing_ungiven k t over = ground arith

  -- The new main task of `u`, whose other parts are those of `t`.
  abbrev taken : TaskManager World → TaskManager World
  taken u = record u {
    main_tasks = emplace u.current_main_task.id u.current_main_task u.main_tasks;
    current_mid = u.current_main_task.mid_start;
  }

  taken-Account :
      (t u : TaskManager World) (k : ℤ)
      → t.current_main_task.mid_end ≤ℤ t.current_mid
      → SameIds t u
      → u.main_tasks ≡ t.main_tasks
      → u.infos_buff ≡ t.infos_buff
      → u.none_mids_buff ≡ t.none_mids_buff
      → find u.current_main_task.id t.main_tasks ≡ none
      → u.current_main_task.completed ≡ pos 0
      → InBalance out t
      → Account
          (find k (taken u).main_tasks)
          (waiting k (taken u))
          (in_map k u.infos_buff)
          (in_map k u.none_mids_buff)
  unfolding waiting ungiven
  taken-Account t u k over ids tasks infos none_mids new untouched v =
      let id = u.current_main_task.id in
      let found = find-emplace id k u.current_main_task t.main_tasks v.balanced.tasks_ordered in
      let old = v.balanced.account k in
      elim (Bool-cases (k ==ℤ id)) [
        | inl own ↦
            let same : k ≡ id = (==ℤ_iff k id).0 own in
            let absent : find k t.main_tasks ≡ none =
              subst (λ (j : ℤ). find j t.main_tasks ≡ none) (sym same) new in
            let empty : Account none (waiting k t) (in_map k t.infos_buff)
                (in_map k t.none_mids_buff) =
              subst
                (λ (o : Option MainTask).
                  Account o (waiting k t) (in_map k t.infos_buff) (in_map k t.none_mids_buff))
                absent old in
            let filled : Account (some u.current_main_task) (waiting k (taken u))
                (in_map k u.infos_buff) (in_map k u.none_mids_buff) =
              (
                ground (arith, untouched),
                inl (ground (arith, own, ids, infos, none_mids, empty, untouched)),
              ) in
            ground (arith, own, found, new, tasks, filled)
        | inr other ↦
            ground
              (arith, other, found, tasks, ids, infos, none_mids, nothing_ungiven k t over, old)
      ]

  pub flush-InBalance : (t : TaskManager World) → InBalance out t → InBalance out (flush out t)
  flush-InBalance t v =
      let places = flush-SamePlaces out t in
      record {
        balanced =
            Balanced-same (λ k. waiting k t) (λ k. waiting k (flush out t)) (flush out t)
              (flush out t) (λ k. SamePlaces-waiting k places) refl refl refl
              (flush-Balanced out (λ k. waiting k t) t v.balanced);
        next_id = ground (arith, places, v.next_id);
      }

  stopped-waiting :
      (t u : TaskManager World)
      → SameIds t u
      → u.current_main_task ≡ t.current_main_task
      → (k : ℤ) → waiting k (g_stop smooth u) ≡ waiting k t
  unfolding waiting ungiven g_stop
  stopped-waiting t u ids stays k = ground (arith, ids, stays)

  stopped-next_id :
      (t u : TaskManager World)
      → SameIds t u
      → AllBelow t.current_sub_task_id t.sub_tasks
      → AllBelow (g_stop smooth u).current_sub_task_id (g_stop smooth u).sub_tasks
  unfolding g_stop
  stopped-next_id t u ids fresh = ground (arith, ids)

  next_main_task-InBalance :
      (t : TaskManager World)
      → t.current_main_task.mid_end ≤ℤ t.current_mid
      → Gives t
      → InBalance out t
      → InBalance out (next_main_task out t).0
  unfolding next_main_task
  next_main_task-InBalance t over gives v =
      let u = (get_main_task out 10 t).0 in
      let ids = get_main_task-SameIds out 10 t in
      let (tasks, infos, none_mids) = get_main_task-tasks 10 t in
      elim (Bool-cases t.should_stop) [
        | inl stopping ↦ ground (arith, stopping, flush-InBalance t v)
        | inr on ↦ elim (Bool-cases (get_main_task out 10 t).1) [
          | inl found ↦
              let begun : InBalance out (taken u) = record {
                balanced = record {
                  tasks_ordered =
                      emplace-IsOrdered u.current_main_task.id u.current_main_task u.main_tasks
                        (ground (arith, tasks, v.balanced.tasks_ordered));
                  infos_ordered = ground (arith, infos, v.balanced.infos_ordered);
                  none_ordered = ground (arith, none_mids, v.balanced.none_ordered);
                  infos_filled = ground (arith, infos, v.balanced.infos_filled);
                  none_filled = ground (arith, none_mids, v.balanced.none_filled);
                  account = λ k.
                      taken-Account t u k over ids tasks infos none_mids (gives.is_new found)
                        (gives.untouched found) v;
                };
                next_id = ground (arith, ids, v.next_id);
              } in
              ground (arith, on, found, issue_next-InBalance out (taken u) begun)
          | inr failed ↦
              let stays = gives.stays failed in
              let kept : InBalance out (g_stop smooth u) = record {
                balanced =
                    g_stop-Balanced out (λ k. waiting k (g_stop smooth u)) smooth u
                      (Balanced-same (λ k. waiting k t) (λ k. waiting k (g_stop smooth u)) t u
                        (stopped-waiting t u ids stays) tasks infos none_mids v.balanced);
                next_id = stopped-next_id t u ids v.next_id;
              } in
              ground (arith, on, failed, kept)
        ]
      ]

  -- getSubTask, whatever it gives out, if the server keeps its promise where it is asked.
  pub get_sub_task-InBalance :
      (t : TaskManager World)
      → (t.error_mids ≡ [] → t.current_main_task.mid_end ≤ℤ t.current_mid → Gives t)
      → InBalance out t
      → InBalance out (get_sub_task out t).0
  unfolding get_sub_task
  get_sub_task-InBalance t gives v = elim (List-cases t.error_mids) [
    | inr ((id, failed), others, e) ↦
        ground (arith, e, retry_errors-InBalance out id failed others t e v)
    | inl e ↦ elim (Bool-cases (leb_ℤ t.current_main_task.mid_end t.current_mid)) [
      | inl over ↦
          let behind : t.current_main_task.mid_end ≤ℤ t.current_mid = ground (arith, over) in
          ground (arith, e, over, next_main_task-InBalance t behind (gives e behind) v)
      | inr within ↦ ground (arith, e, within, issue_next-InBalance out t v)
    ]
  ]
