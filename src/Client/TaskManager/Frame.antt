-- ===== src/Client/TaskManager/Frame.antt =====
-- What the writes, the reports and the requests leave alone: the ids that wait to be crawled.
use bili_user_spider.Prelude.{
  ℕ, zero, suc, ◌≡◌, List, [], ◌∷◌, Option, none, some, arith, length, ℤ, pos, ◌+ℤ◌, ◌*ℤ◌,
  Option-cases, inl, inr,
}
use bili_user_spider.Prelude.OrdMap.{OrdMap, find, assign}
use bili_user_spider.Client.Types.{
  StopMode, smooth, force, MainTask, Outside, UserInfo, insert_ok, insert_none,
}
use bili_user_spider.Client.TaskManager.{TaskManager}
use bili_user_spider.Client.TaskManager.Write.{
  g_stop, stop_if_asked, commit_main_task, settle_entry, settle, write_ok_to_db, write_none_to_db,
  flush, get_main_task, tables_map, write_tables,
}
use bili_user_spider.Client.TaskManager.Calls.{write_ok_if_due, write_none_if_due}

-- The two states give the same ids out, from the same sub task on.
pub record SameIds {World : Type 0} (t u : TaskManager World) : Type 0 where
  pub sub_tasks : u.sub_tasks ≡ t.sub_tasks
  pub current_sub_task_id : u.current_sub_task_id ≡ t.current_sub_task_id
  pub error_mids : u.error_mids ≡ t.error_mids
  pub current_mid : u.current_mid ≡ t.current_mid

-- The current main task is the same too.
pub record SamePlaces {World : Type 0} (t u : TaskManager World) : Type 0 where
  pub ids : SameIds t u
  pub current_main_task : u.current_main_task ≡ t.current_main_task

module _ {World : Type 0} where
  pub SamePlaces-refl : (t : TaskManager World) → SamePlaces t t
  SamePlaces-refl t = ground arith

  pub SamePlaces-trans :
      {t u v : TaskManager World} → SamePlaces t u → SamePlaces u v → SamePlaces t v
  SamePlaces-trans a b = ground arith

  pub g_stop-SamePlaces : (mode : StopMode) (t : TaskManager World) → SamePlaces t (g_stop mode t)
  unfolding g_stop
  g_stop-SamePlaces smooth t = ground arith
  g_stop-SamePlaces force t = ground arith

  stop_if_asked-SamePlaces :
      (mode : Option StopMode) (t : TaskManager World) → SamePlaces t (stop_if_asked mode t)
  unfolding stop_if_asked
  stop_if_asked-SamePlaces none t = ground arith
  stop_if_asked-SamePlaces (some mode) t = g_stop-SamePlaces mode t

module _ (out : Outside) where
  open out use {World}

  commit_main_task-SamePlaces :
      (tries : ℕ) (id : ℤ) (t : TaskManager World)
      → SamePlaces t (commit_main_task out tries id t).0
  unfolding commit_main_task
  commit_main_task-SamePlaces zero id t = ground arith
  commit_main_task-SamePlaces (suc tries) id t =
      let (w, answer) = out.api_commit_task id (t.commit_ok +ℤ t.commit_none) t.steps t.world in
      let heard = record t { world = w; steps = answer.steps } in
      let next = stop_if_asked answer.stop heard in
      ground (
        arith,
        stop_if_asked-SamePlaces answer.stop heard,
        g_stop-SamePlaces smooth next,
        commit_main_task-SamePlaces tries id next,
      )

  settle_entry-SamePlaces :
      (id n : ℤ) (t : TaskManager World) → SamePlaces t (settle_entry out id n t).0
  unfolding settle_entry
  settle_entry-SamePlaces id n t = elim (Option-cases (find id t.main_tasks)) [
    | inl e ↦ ground (arith, e, g_stop-SamePlaces force t)
    | inr (main, e) ↦
        let main' : MainTask = record main { completed = main.completed +ℤ n } in
        let t' : TaskManager World = record t { main_tasks = assign id main' t.main_tasks } in
        ground (arith, e, commit_main_task-SamePlaces 10 id t')
  ]

  pub settle-SamePlaces :
      {A : Type 0} (buff : OrdMap (List A)) (t : TaskManager World)
      → SamePlaces t (settle out buff t).0
  unfolding settle
  settle-SamePlaces [] t = ground arith
  settle-SamePlaces ((id, rows) ∷ buff) t =
      let next = settle_entry out id (pos (length rows)) t in
      ground
        (arith, settle_entry-SamePlaces id (pos (length rows)) t, settle-SamePlaces buff next.0)

  pub get_main_task-SameIds :
      (tries : ℕ) (t : TaskManager World) → SameIds t (get_main_task out tries t).0
  unfolding get_main_task
  get_main_task-SameIds zero t = ground arith
  get_main_task-SameIds (suc tries) t =
      let count = t.num_threads *ℤ t.steps.sub_task_step *ℤ t.steps.main_task_step_times in
      let (w, answer) =
        out.api_get_task count (t.commit_ok +ℤ t.commit_none) t.current_main_task t.steps t.world in
      let next = record t {
        world = w;
        current_main_task = answer.main_task;
        steps = answer.steps;
      } in
      ground (arith, get_main_task-SameIds tries next)

  write_ok_to_db-SamePlaces : (t : TaskManager World) → SamePlaces t (write_ok_to_db out t).0
  unfolding write_ok_to_db
  write_ok_to_db-SamePlaces t =
      let tables = tables_map out.name_lt (λ (info : UserInfo). info.mid) t.infos_buff [] in
      let w : World = (write_tables out t.force_stop insert_ok tables t.world).0 in
      ground (arith, settle-SamePlaces t.infos_buff (record t { world = w }))

  write_none_to_db-SamePlaces : (t : TaskManager World) → SamePlaces t (write_none_to_db out t).0
  unfolding write_none_to_db
  write_none_to_db-SamePlaces t =
      let tables = tables_map out.name_lt (λ (mid : ℤ). mid) t.none_mids_buff [] in
      let w : World = (write_tables out t.force_stop insert_none tables t.world).0 in
      ground (arith, settle-SamePlaces t.none_mids_buff (record t { world = w }))

  -- A flush loses no id.
  pub flush-SamePlaces : (t : TaskManager World) → SamePlaces t (flush out t)
  unfolding flush
  flush-SamePlaces t =
      SamePlaces-trans (write_ok_to_db-SamePlaces t)
        (write_none_to_db-SamePlaces (write_ok_to_db out t).0)

  pub write_ok_if_due-SamePlaces :
      (sub_task_id : ℤ) (t : TaskManager World) → SamePlaces t (write_ok_if_due out sub_task_id t)
  unfolding write_ok_if_due
  write_ok_if_due-SamePlaces sub_task_id t =
      ground (arith, write_ok_to_db-SamePlaces t, g_stop-SamePlaces force (write_ok_to_db out t).0)

  pub write_none_if_due-SamePlaces :
      (sub_task_id : ℤ) (t : TaskManager World) → SamePlaces t (write_none_if_due out sub_task_id t)
  unfolding write_none_if_due
  write_none_if_due-SamePlaces sub_task_id t =
      ground
        (arith, write_none_to_db-SamePlaces t, g_stop-SamePlaces force (write_none_to_db out t).0)
