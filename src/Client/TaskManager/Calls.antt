-- ===== src/Client/TaskManager/Calls.antt =====
-- `getSubTask` and `commitSubTask` of BiliUserSpiderClient/src/manager/task_manager.cpp.
use bili_user_spider.Prelude.{
  ◌+◌, ◌%◌, List, [], ◌∷◌, Option, none, some, Bool, ◌&&◌, ◌||◌, if◌then◌else◌, length, ltb, ◌==◌,
  ℤ, pos, pos_part, neg_part, ◌+ℤ◌, leb_ℤ,
}
use bili_user_spider.Prelude.OrdMap.{OrdMap, find, emplace, erase}
use bili_user_spider.Client.Types.{smooth, force, UserInfo, Outside}
use bili_user_spider.Client.TaskManager.{TaskManager, retry_errors, issue_next, push_all}
use bili_user_spider.Client.TaskManager.Write.{
  records_per_query, g_stop, write_ok_to_db, write_none_to_db, flush, get_main_task,
}

-- Whether a buffer is to be written now, by its size and the sub task's id. The size is the number
-- of its entries, one for each main task.
unfoldable pub is_due {ℓ} : {A : Type ℓ} → Bool → ℤ → OrdMap (List A) → Bool
is_due should_stop sub_task_id buff =
    ltb records_per_query (length buff)
    || should_stop
    || (ltb 0 (length buff) && (pos_part sub_task_id + neg_part sub_task_id) % 50 == 0)

-- Results, which wait in the buffers or to be given out again.
module _ {World : Type 0} where
  unfoldable pub buffer_infos : ℤ → List UserInfo → TaskManager World → TaskManager World
  buffer_infos id [] t = t
  buffer_infos id (x ∷ infos) t = record t {
    commit_ok = t.commit_ok +ℤ pos (length (x ∷ infos));
    infos_buff = push_all id (x ∷ infos) t.infos_buff;
  }

  unfoldable pub buffer_none : ℤ → List ℤ → TaskManager World → TaskManager World
  buffer_none id [] t = t
  buffer_none id (x ∷ mids) t = record t {
    commit_none = t.commit_none +ℤ pos (length (x ∷ mids));
    none_mids_buff = push_all id (x ∷ mids) t.none_mids_buff;
  }

  unfoldable pub buffer_errors : ℤ → List ℤ → TaskManager World → TaskManager World
  buffer_errors id [] t = t
  buffer_errors id (x ∷ mids) t = record t {
    commit_error = t.commit_error +ℤ pos (length (x ∷ mids));
    error_mids = push_all id (x ∷ mids) t.error_mids;
  }

module _ (out : Outside) where
  open out use {World}

  -- Case 2 of `getSubTask`, when all ids of the current main task are given out.
  unfoldable pub next_main_task : TaskManager World → TaskManager World × Option (ℤ × List ℤ)
  next_main_task t =
      let (t', found) = get_main_task out 10 t in
      if t.should_stop
      then (flush out t, none)
      else (if found
          then issue_next (record t' {
            main_tasks = emplace t'.current_main_task.id t'.current_main_task t'.main_tasks;
            current_mid = t'.current_main_task.mid_start;
          })
          else (g_stop smooth t', none))

  -- `none` is the result -1, else the sub task's id and `mids`.
  unfoldable pub get_sub_task : TaskManager World → TaskManager World × Option (ℤ × List ℤ)
  get_sub_task t = elim t.error_mids [
    | (id, failed) ∷ others ↦ retry_errors id failed others t
    | [] ↦
        if leb_ℤ t.current_main_task.mid_end t.current_mid then next_main_task t else issue_next t
  ]

  unfoldable pub write_ok_if_due : ℤ → TaskManager World → TaskManager World
  write_ok_if_due sub_task_id t =
      let (t', done) = write_ok_to_db out t in
      if is_due t.should_stop sub_task_id t.infos_buff
      then (if done then t' else g_stop force t')
      else t

  unfoldable pub write_none_if_due : ℤ → TaskManager World → TaskManager World
  write_none_if_due sub_task_id t =
      let (t', done) = write_none_to_db out t in
      if is_due t.should_stop sub_task_id t.none_mids_buff
      then (if done then t' else g_stop force t')
      else t

  -- A sub task or a main task that is not there ends the call ("Won't get here").
  unfoldable pub commit_sub_task :
      ℤ → List UserInfo → List ℤ → List ℤ → TaskManager World → TaskManager World
  commit_sub_task sub_task_id infos none_mids error_mids t = elim (find sub_task_id t.sub_tasks) [
    | none ↦ t
    | some sub ↦ elim (find sub.main_task_id t.main_tasks) [
      | none ↦ t
      | some _ ↦
          let id = sub.main_task_id in
          let t1 = write_ok_if_due sub_task_id (buffer_infos id infos t) in
          let t2 = write_none_if_due sub_task_id (buffer_none id none_mids t1) in
          let t3 = buffer_errors id error_mids t2 in
          record t3 { sub_tasks = erase sub_task_id t3.sub_tasks }
    ]
  ]
