-- ===== src/Client/TaskManager/Rounds.antt =====
-- `getSubTask` and `commitSubTask` as a whole: which ids they hand out and take back.
use bili_user_spider.Prelude.{
  ◌+◌, ◌≡◌, refl, List, [], ◌∷◌, ◌++◌, none, some, true, false, arith, Option-cases, List-cases,
  inl, inr, ℤ, ◌<ℤ◌, ◌≤ℤ◌,
}
use bili_user_spider.Prelude.Ranges.{inside, inside_empty, occurrences, occurrences-append}
use bili_user_spider.Prelude.OrdMap.{OrdMap, find, emplace, erase, assign, AllBelow}
use bili_user_spider.Client.Types.{UserInfo, MainTask, SubTask, Outside}
use bili_user_spider.Client.TaskManager.{TaskManager, push_all, issue_next}
use bili_user_spider.Client.TaskManager.Write.{get_main_task}
use bili_user_spider.Client.TaskManager.Calls.{
  next_main_task, get_sub_task, write_ok_if_due, write_none_if_due, buffer_infos, buffer_none,
  buffer_errors, commit_sub_task,
}
use bili_user_spider.Client.TaskManager.Places.{
  in_lists, uncrawled, in_sub_tasks-erase, issue_next-uncrawled, retry_errors-uncrawled,
}
use bili_user_spider.Client.TaskManager.Frame.{
  SamePlaces, SamePlaces-trans, write_ok_if_due-SamePlaces, write_none_if_due-SamePlaces,
  get_main_task-SameIds,
}

in_lists-emplace :
    (m k : ℤ) (xs : List ℤ) (lists : OrdMap (List ℤ))
    → find k lists ≡ none
    → in_lists m (emplace k xs lists) ≡ occurrences m xs + in_lists m lists
unfolding in_lists emplace find
in_lists-emplace m k xs [] h = refl
in_lists-emplace m k xs ((j, ys) ∷ lists) h = ground (arith, in_lists-emplace m k xs lists)

in_lists-assign :
    (m k : ℤ) (old xs : List ℤ) (lists : OrdMap (List ℤ))
    → find k lists ≡ some old
    → in_lists m (assign k (old ++ xs) lists) ≡ occurrences m xs + in_lists m lists
unfolding in_lists assign find
in_lists-assign m k old xs [] h = absurd (ground arith)
in_lists-assign m k old xs ((j, ys) ∷ lists) h =
    ground (arith, in_lists-assign m k old xs lists, occurrences-append m old xs)

in_lists-push_all :
    (m k : ℤ) (xs : List ℤ) (lists : OrdMap (List ℤ))
    → in_lists m (push_all k xs lists) ≡ occurrences m xs + in_lists m lists
unfolding push_all
in_lists-push_all m k xs lists = elim (Option-cases (find k lists)) [
  | inl e ↦ ground (arith, e, in_lists-emplace m k xs lists e)
  | inr (old, e) ↦ ground (arith, e, in_lists-assign m k old xs lists e)
]

module _ {World : Type 0} where
  SamePlaces-uncrawled :
      (m : ℤ) {t u : TaskManager World} → SamePlaces t u → uncrawled m u ≡ uncrawled m t
  unfolding uncrawled
  SamePlaces-uncrawled m s = ground arith

  pub buffer_infos-SamePlaces :
      (id : ℤ) (infos : List UserInfo) (t : TaskManager World)
      → SamePlaces t (buffer_infos id infos t)
  unfolding buffer_infos
  buffer_infos-SamePlaces id [] t = ground arith
  buffer_infos-SamePlaces id (x ∷ infos) t = ground arith

  pub buffer_none-SamePlaces :
      (id : ℤ) (mids : List ℤ) (t : TaskManager World) → SamePlaces t (buffer_none id mids t)
  unfolding buffer_none
  buffer_none-SamePlaces id [] t = ground arith
  buffer_none-SamePlaces id (x ∷ mids) t = ground arith

  buffer_errors-uncrawled :
      (m id : ℤ) (mids : List ℤ) (t : TaskManager World)
      → ((buffer_errors id mids t).sub_tasks ≡ t.sub_tasks)
        × (uncrawled m (buffer_errors id mids t) ≡ occurrences m mids + uncrawled m t)
  unfolding buffer_errors uncrawled occurrences
  buffer_errors-uncrawled m id [] t = (refl, omega arith)
  buffer_errors-uncrawled m id (x ∷ mids) t =
      (refl, omega (arith, in_lists-push_all m id (x ∷ mids) t.error_mids))

  erase-uncrawled :
      (m id : ℤ) (sub : SubTask) (t : TaskManager World)
      → find id t.sub_tasks ≡ some sub
      → uncrawled m (record t { sub_tasks = erase id t.sub_tasks }) + occurrences m sub.mids
        ≡ uncrawled m t
  unfolding uncrawled
  erase-uncrawled m id sub t e = omega (arith, in_sub_tasks-erase m id sub t.sub_tasks e)

  moved-uncrawled :
      (m : ℤ) (t u : TaskManager World)
      → u.sub_tasks ≡ t.sub_tasks
      → u.error_mids ≡ t.error_mids
      → t.current_main_task.mid_end ≤ℤ t.current_mid
      → uncrawled m u ≡ uncrawled m t + inside m (u.current_mid, u.current_main_task.mid_end)
  unfolding uncrawled
  moved-uncrawled m t u subs errors over =
      rw (subs, errors)
        (omega (arith, inside_empty m t.current_mid t.current_main_task.mid_end over))

module _ (out : Outside) where
  open out use {World}

  -- A thread that brings back a sub task that is there, of a main task that is there: its ids wait no longer but for those that failed, which
  -- wait to be given out again, whether or not the buffers are written and whatever that comes to.
  pub commit_sub_task-uncrawled :
      (m id : ℤ) (infos : List UserInfo) (none_mids error_mids : List ℤ) (t : TaskManager World)
      (sub : SubTask) (main : MainTask)
      → find id t.sub_tasks ≡ some sub
      → find sub.main_task_id t.main_tasks ≡ some main
      → uncrawled m (commit_sub_task out id infos none_mids error_mids t) + occurrences m sub.mids
        ≡ uncrawled m t + occurrences m error_mids
  unfolding commit_sub_task
  commit_sub_task-uncrawled m id infos none_mids error_mids t sub main e found =
      let b1 = buffer_infos sub.main_task_id infos t in
      let t1 = write_ok_if_due out id b1 in
      let b2 = buffer_none sub.main_task_id none_mids t1 in
      let t2 = write_none_if_due out id b2 in
      let t3 = buffer_errors sub.main_task_id error_mids t2 in
      let same : SamePlaces t t2 =
        SamePlaces-trans
          (SamePlaces-trans (buffer_infos-SamePlaces sub.main_task_id infos t)
            (write_ok_if_due-SamePlaces out id b1))
          (SamePlaces-trans (buffer_none-SamePlaces sub.main_task_id none_mids t1)
            (write_none_if_due-SamePlaces out id b2)) in
      let errors = buffer_errors-uncrawled m sub.main_task_id error_mids t2 in
      let held : find id t3.sub_tasks ≡ some sub = rw (errors.0, same.ids.sub_tasks) e in
      rw (e, found, commit_sub_task)
        (omega (arith, erase-uncrawled m id sub t3 held, errors.1, SamePlaces-uncrawled m same))

  -- A sub task that needs no new main task loses no id and doubles none, if the next id of a sub
  -- task is new.
  pub get_sub_task-uncrawled :
      (m : ℤ) (t : TaskManager World)
      → AllBelow t.current_sub_task_id t.sub_tasks
      → (t.error_mids ≡ [] → t.current_mid <ℤ t.current_main_task.mid_end)
      → uncrawled m (get_sub_task out t).0 ≡ uncrawled m t
  unfolding get_sub_task
  get_sub_task-uncrawled m t fresh ready = elim (List-cases t.error_mids) [
    | inr ((id, failed), others, e) ↦
        ground (arith, e, retry_errors-uncrawled m id failed others t fresh e)
    | inl e ↦
        let within : t.current_mid <ℤ t.current_main_task.mid_end = ready e in
        let issued : uncrawled m (issue_next t).0 ≡ uncrawled m t =
          issue_next-uncrawled m t fresh (omega arith) in
        ground (arith, e, within, issued)
  ]

  -- Where all ids are given out and the client goes on, a new main task adds its ids to those that
  -- wait, and no others, if the next id of a sub task is new.
  pub next_main_task-uncrawled :
      (m : ℤ) (t : TaskManager World)
      → AllBelow t.current_sub_task_id t.sub_tasks
      → t.current_main_task.mid_end ≤ℤ t.current_mid
      → t.should_stop ≡ false
      → (get_main_task out 10 t).1 ≡ true
      → let main = (get_main_task out 10 t).0.current_main_task in
        main.mid_start ≤ℤ main.mid_end
        → uncrawled m (next_main_task out t).0
          ≡ uncrawled m t + inside m (main.mid_start, main.mid_end)
  unfolding next_main_task
  next_main_task-uncrawled m t fresh over running found ascending =
      let u = (get_main_task out 10 t).0 in
      let main = u.current_main_task in
      let t' : TaskManager World = record u {
        main_tasks = emplace main.id main u.main_tasks;
        current_mid = main.mid_start;
      } in
      let same = get_main_task-SameIds out 10 t in
      let fresh' : AllBelow u.current_sub_task_id u.sub_tasks =
        rw (same.sub_tasks, same.current_sub_task_id) fresh in
      ground (
        arith,
        issue_next-uncrawled m t' fresh' ascending,
        moved-uncrawled m t t' same.sub_tasks same.error_mids over,
      )
