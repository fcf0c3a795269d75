-- ===== src/Client/Spider/Threads/Issued.antt =====
-- What one call of a thread does to the recorded sub tasks.
use bili_user_spider.Prelude.{
  ◌≡◌, refl, ap, ◌∙◌, ◌⊎◌, List, [], ◌∷◌, Option, none, some, Bool, true, false, if◌then◌else◌,
  arith, Option-cases, List-cases, inl, inr, ℤ, pos, ◌+ℤ◌, leb_ℤ,
}
use bili_user_spider.Prelude.OrdMap.{OrdMap, find, emplace, erase}
use bili_user_spider.Client.Types.{UserInfo, Outside}
use bili_user_spider.Client.TaskManager.{TaskManager, issue, issue_next, retry_errors}
use bili_user_spider.Client.TaskManager.Write.{g_stop, flush, get_main_task}
use bili_user_spider.Client.TaskManager.Calls.{
  next_main_task, get_sub_task, commit_sub_task, buffer_infos, buffer_none, buffer_errors,
  write_ok_if_due, write_none_if_due,
}
use bili_user_spider.Client.TaskManager.Frame.{
  flush-SamePlaces, get_main_task-SameIds, SameIds, write_ok_if_due-SamePlaces,
  write_none_if_due-SamePlaces,
}
use bili_user_spider.Client.TaskManager.Records.{get_sub_task-retry_errors, get_sub_task-no_errors}
use bili_user_spider.Client.TaskManager.Rounds.{buffer_infos-SamePlaces, buffer_none-SamePlaces}

-- What a request does to the sub tasks: nothing, or one more under the next id.
abbrev pub Issued :
    {World : Type 0} → TaskManager World → TaskManager World × Option (ℤ × List ℤ) → Type 0
Issued t (u, none) = (u.sub_tasks ≡ t.sub_tasks) × (u.current_sub_task_id ≡ t.current_sub_task_id)
Issued t (u, some (id, mids)) =
    (id ≡ t.current_sub_task_id)
    × (u.current_sub_task_id ≡ t.current_sub_task_id +ℤ pos 1)
    × ((main_task_id : ℤ) × (u.sub_tasks
          ≡ emplace id (record { main_task_id = main_task_id; mids = mids }) t.sub_tasks))

module _ {World : Type 0} where
  issue_next-Issued :
      (t u : TaskManager World)
      → u.sub_tasks ≡ t.sub_tasks
      → u.current_sub_task_id ≡ t.current_sub_task_id
      → Issued t (issue_next u)
  unfolding issue_next issue
  issue_next-Issued t u subs id =
      (id, ap (λ x. x +ℤ pos 1) id, (u.current_main_task.id, ground (arith, subs, id)))

  buffer_errors-sub_tasks :
      (id : ℤ) (mids : List ℤ) (t : TaskManager World)
      → ((buffer_errors id mids t).sub_tasks ≡ t.sub_tasks)
        × ((buffer_errors id mids t).current_sub_task_id ≡ t.current_sub_task_id)
  unfolding buffer_errors
  buffer_errors-sub_tasks id [] t = (refl, refl)
  buffer_errors-sub_tasks id (x ∷ mids) t = (refl, refl)

  retry_errors-Issued :
      (id : ℤ) (failed : List ℤ) (others : OrdMap (List ℤ)) (t : TaskManager World)
      → Issued t (retry_errors id failed others t)
  unfolding retry_errors issue
  retry_errors-Issued id failed others t = (refl, refl, (id, refl))

  if-Issued :
      (t : TaskManager World) (b : Bool) (x y : TaskManager World × Option (ℤ × List ℤ))
      → Issued t x
      → Issued t y
      → Issued t (if b then x else y)
  if-Issued t true x y hx hy = hx
  if-Issued t false x y hx hy = hy

module _ (out : Outside) where
  open out use {World}

  next_main_task-Issued : (t : TaskManager World) → Issued t (next_main_task out t)
  unfolding next_main_task g_stop
  next_main_task-Issued t =
      let u = (get_main_task out 10 t).0 in
      let same : SameIds t u = get_main_task-SameIds out 10 t in
      let flushed : SameIds t (flush out t) = (flush-SamePlaces out t).ids in
      if-Issued t t.should_stop _ _ (flushed.sub_tasks, flushed.current_sub_task_id)
        (if-Issued t (get_main_task out 10 t).1 _ _
          (issue_next-Issued t _ same.sub_tasks same.current_sub_task_id)
          (same.sub_tasks, same.current_sub_task_id))

  pub get_sub_task-Issued : (t : TaskManager World) → Issued t (get_sub_task out t)
  get_sub_task-Issued t = elim (List-cases t.error_mids) [
    | inr ((id, failed), others, e) ↦
        rw (get_sub_task-retry_errors out t id failed others e)
          (retry_errors-Issued id failed others t)
    | inl e ↦ rw (get_sub_task-no_errors out t e) (
        if-Issued t (leb_ℤ t.current_main_task.mid_end t.current_mid) _ _ (next_main_task-Issued t)
          (issue_next-Issued t t refl refl))
  ]

  -- What a commit does to them: nothing, or its own goes.
  pub commit_sub_task-sub_tasks :
      (id : ℤ) (infos : List UserInfo) (none_mids error_mids : List ℤ) (t : TaskManager World)
      → let u = commit_sub_task out id infos none_mids error_mids t in
        ((u.sub_tasks ≡ t.sub_tasks) ⊎ (u.sub_tasks ≡ erase id t.sub_tasks))
        × (u.current_sub_task_id ≡ t.current_sub_task_id)
  unfolding commit_sub_task
  commit_sub_task-sub_tasks id infos none_mids error_mids t =
      elim (Option-cases (find id t.sub_tasks)) [
        | inl e ↦ ground (arith, e)
        | inr (sub, e) ↦ elim (Option-cases (find sub.main_task_id t.main_tasks)) [
          | inl k ↦ ground (arith, e, k)
          | inr (main, k) ↦
              let b1 = buffer_infos sub.main_task_id infos t in
              let t1 = write_ok_if_due out id b1 in
              let b2 = buffer_none sub.main_task_id none_mids t1 in
              let t2 = write_none_if_due out id b2 in
              let s1 = buffer_infos-SamePlaces sub.main_task_id infos t in
              let s2 = write_ok_if_due-SamePlaces out id b1 in
              let s3 = buffer_none-SamePlaces sub.main_task_id none_mids t1 in
              let s4 = write_none_if_due-SamePlaces out id b2 in
              let s5 = buffer_errors-sub_tasks sub.main_task_id error_mids t2 in
              let subs =
                s5.0 ∙ s4.ids.sub_tasks ∙ s3.ids.sub_tasks ∙ s2.ids.sub_tasks ∙ s1.ids.sub_tasks in
              let ids =
                s5.1 ∙ s4.ids.current_sub_task_id ∙ s3.ids.current_sub_task_id
                ∙ s2.ids.current_sub_task_id ∙ s1.ids.current_sub_task_id in
              rw (e, k, commit_sub_task) (inr (ap (erase id) subs), ids)
        ]
      ]
