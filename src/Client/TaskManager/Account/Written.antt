-- ===== src/Client/TaskManager/Account/Written.antt =====
-- Writing the buffers keeps the account of every main task.
use bili_user_spider.Prelude.{
  ℕ, zero, suc, ◌+◌, ◌≡◌, List, [], ◌∷◌, Option, none, some, arith, if◌then◌else◌, length,
  Option-cases, inl, inr, ℤ, pos, pos_part, ◌+ℤ◌, ◌-ℤ◌, ◌==ℤ◌,
}
use bili_user_spider.Prelude.OrdMap.{OrdMap, find, assign, IsOrdered}
use bili_user_spider.Client.Types.{
  StopMode, smooth, force, MainTask, Outside, UserInfo, insert_ok, insert_none,
}
use bili_user_spider.Client.TaskManager.{TaskManager}
use bili_user_spider.Client.TaskManager.Write.{
  g_stop, stop_if_asked, commit_main_task, settle_entry, settle, write_ok_to_db, write_none_to_db,
  flush, tables_map, write_tables,
}
use bili_user_spider.Client.TaskManager.Calls.{write_ok_if_due, write_none_if_due}
use bili_user_spider.Client.TaskManager.Frame.{SamePlaces}
use bili_user_spider.Client.TaskManager.Account.{in_map, in_subs, AllFilled, Account}
use bili_user_spider.Client.TaskManager.Account.Settle.{settle-Account}

-- The two states have the same buffers.
record SameBuffers {World : Type 0} (t u : TaskManager World) : Type 0 where
  infos : u.infos_buff ≡ t.infos_buff
  none_mids : u.none_mids_buff ≡ t.none_mids_buff

module _ {World : Type 0} where
  -- The ids of a main task that are not given out yet, and all that wait to be crawled.
  unfoldable pub ungiven : ℤ → TaskManager World → ℕ
  ungiven k t =
      if k ==ℤ t.current_main_task.id
      then pos_part (t.current_main_task.mid_end -ℤ t.current_mid)
      else 0

  unfoldable pub waiting : ℤ → TaskManager World → ℕ
  waiting k t = in_map k t.error_mids + in_subs k t.sub_tasks + ungiven k t

  -- The account of every main task, of which `w k` ids wait to be crawled.
  pub record Balanced (w : ℤ → ℕ) (t : TaskManager World) : Type 0 where
    pub tasks_ordered : IsOrdered t.main_tasks
    pub infos_ordered : IsOrdered t.infos_buff
    pub none_ordered : IsOrdered t.none_mids_buff
    pub infos_filled : AllFilled t.infos_buff
    pub none_filled : AllFilled t.none_mids_buff
    pub account :
        (k : ℤ)
        → Account (find k t.main_tasks) (w k) (in_map k t.infos_buff) (in_map k t.none_mids_buff)

  pub SamePlaces-waiting :
      (k : ℤ) {t u : TaskManager World} → SamePlaces t u → waiting k u ≡ waiting k t
  unfolding waiting ungiven
  SamePlaces-waiting k s = ground arith

  g_stop-SameBuffers : (mode : StopMode) (t : TaskManager World) → SameBuffers t (g_stop mode t)
  unfolding g_stop
  g_stop-SameBuffers smooth t = ground arith
  g_stop-SameBuffers force t = ground arith

  stop_if_asked-SameBuffers :
      (mode : Option StopMode) (t : TaskManager World) → SameBuffers t (stop_if_asked mode t)
  unfolding stop_if_asked
  stop_if_asked-SameBuffers none t = ground arith
  stop_if_asked-SameBuffers (some mode) t = g_stop-SameBuffers mode t

pub Account-swap : (o : Option MainTask) (w a b : ℕ) → Account o w a b → Account o w b a
Account-swap none w a b h = omega arith
Account-swap (some main) w a b (known, inl exact) = (known, inl (omega arith))
Account-swap (some main) w a b (known, inr (no_wait, late, inl no_a)) =
    (known, inr (no_wait, late, inr no_a))
Account-swap (some main) w a b (known, inr (no_wait, late, inr no_b)) =
    (known, inr (no_wait, late, inl no_b))

module _ (out : Outside) where
  open out use {World}

  commit_main_task-SameBuffers :
      (tries : ℕ) (id : ℤ) (t : TaskManager World)
      → SameBuffers t (commit_main_task out tries id t).0
  unfolding commit_main_task
  commit_main_task-SameBuffers zero id t = ground arith
  commit_main_task-SameBuffers (suc tries) id t =
      let (w, answer) = out.api_commit_task id (t.commit_ok +ℤ t.commit_none) t.steps t.world in
      let heard = record t { world = w; steps = answer.steps } in
      let next = stop_if_asked answer.stop heard in
      ground (
        arith,
        stop_if_asked-SameBuffers answer.stop heard,
        g_stop-SameBuffers smooth next,
        commit_main_task-SameBuffers tries id next,
      )

  settle_entry-SameBuffers :
      (id n : ℤ) (t : TaskManager World) → SameBuffers t (settle_entry out id n t).0
  unfolding settle_entry
  settle_entry-SameBuffers id n t = elim (Option-cases (find id t.main_tasks)) [
    | inl e ↦ ground (arith, e, g_stop-SameBuffers force t)
    | inr (main, e) ↦
        let main' : MainTask = record main { completed = main.completed +ℤ n } in
        let t' : TaskManager World = record t { main_tasks = assign id main' t.main_tasks } in
        ground (arith, e, commit_main_task-SameBuffers 10 id t')
  ]

  settle-SameBuffers :
      {A : Type 0} (buff : OrdMap (List A)) (t : TaskManager World)
      → SameBuffers t (settle out buff t).0
  unfolding settle
  settle-SameBuffers [] t = ground arith
  settle-SameBuffers ((id, rows) ∷ buff) t =
      let next = settle_entry out id (pos (length rows)) t in
      ground
        (arith, settle_entry-SameBuffers id (pos (length rows)) t, settle-SameBuffers buff next.0)

  module _ (w : ℤ → ℕ) where
    settle_infos-Balanced :
        (t : TaskManager World)
        → Balanced w t
        → Balanced w
            (record (settle out t.infos_buff t).0 { infos_buff = (settle out t.infos_buff t).1 })
    settle_infos-Balanced t v =
        let buffers = settle-SameBuffers t.infos_buff t in
        let one =
          settle-Account out (pos 0) t.infos_buff t (w (pos 0)) (in_map (pos 0) t.none_mids_buff)
            v.infos_ordered v.infos_filled v.tasks_ordered (v.account (pos 0)) in
        record {
          tasks_ordered = one.0;
          infos_ordered = one.2;
          none_ordered = ground (arith, buffers, v.none_ordered);
          infos_filled = one.3;
          none_filled = ground (arith, buffers, v.none_filled);
          account = λ k.
              let kept =
                settle-Account out k t.infos_buff t (w k) (in_map k t.none_mids_buff)
                  v.infos_ordered v.infos_filled v.tasks_ordered (v.account k) in
              ground (arith, buffers, kept.1);
        }

    settle_none-Balanced :
        (t : TaskManager World)
        → Balanced w t
        → Balanced w (record (settle out t.none_mids_buff t).0 {
          none_mids_buff = (settle out t.none_mids_buff t).1;
        })
    settle_none-Balanced t v =
        let buffers = settle-SameBuffers t.none_mids_buff t in
        let one =
          settle-Account out (pos 0) t.none_mids_buff t (w (pos 0)) (in_map (pos 0) t.infos_buff)
            v.none_ordered v.none_filled v.tasks_ordered
            (Account-swap _ _ _ _ (v.account (pos 0))) in
        record {
          tasks_ordered = one.0;
          infos_ordered = ground (arith, buffers, v.infos_ordered);
          none_ordered = one.2;
          infos_filled = ground (arith, buffers, v.infos_filled);
          none_filled = one.3;
          account = λ k.
              let kept =
                settle-Account out k t.none_mids_buff t (w k) (in_map k t.infos_buff) v.none_ordered
                  v.none_filled v.tasks_ordered (Account-swap _ _ _ _ (v.account k)) in
              ground (arith, buffers, Account-swap _ _ _ _ kept.1);
        }

    -- The world and the flags are no part of an account.
    world-Balanced :
        (x : World) (t : TaskManager World) → Balanced w t → Balanced w (record t { world = x })
    world-Balanced x t v = record {
      tasks_ordered = v.tasks_ordered;
      infos_ordered = v.infos_ordered;
      none_ordered = v.none_ordered;
      infos_filled = v.infos_filled;
      none_filled = v.none_filled;
      account = v.account;
    }

    pub g_stop-Balanced :
        (mode : StopMode) (t : TaskManager World) → Balanced w t → Balanced w (g_stop mode t)
    unfolding g_stop
    g_stop-Balanced smooth t v = record {
      tasks_ordered = v.tasks_ordered;
      infos_ordered = v.infos_ordered;
      none_ordered = v.none_ordered;
      infos_filled = v.infos_filled;
      none_filled = v.none_filled;
      account = v.account;
    }
    g_stop-Balanced force t v = record {
      tasks_ordered = v.tasks_ordered;
      infos_ordered = v.infos_ordered;
      none_ordered = v.none_ordered;
      infos_filled = v.infos_filled;
      none_filled = v.none_filled;
      account = v.account;
    }

    write_ok_to_db-Balanced :
        (t : TaskManager World) → Balanced w t → Balanced w (write_ok_to_db out t).0
    unfolding write_ok_to_db
    write_ok_to_db-Balanced t v =
        let tables = tables_map out.name_lt (λ (info : UserInfo). info.mid) t.infos_buff [] in
        let x : World = (write_tables out t.force_stop insert_ok tables t.world).0 in
        let before = world-Balanced x t v in
        ground (arith, v, before, settle_infos-Balanced (record t { world = x }) before)

    write_none_to_db-Balanced :
        (t : TaskManager World) → Balanced w t → Balanced w (write_none_to_db out t).0
    unfolding write_none_to_db
    write_none_to_db-Balanced t v =
        let tables = tables_map out.name_lt (λ (mid : ℤ). mid) t.none_mids_buff [] in
        let x : World = (write_tables out t.force_stop insert_none tables t.world).0 in
        let before = world-Balanced x t v in
        ground (arith, v, before, settle_none-Balanced (record t { world = x }) before)

    pub flush-Balanced : (t : TaskManager World) → Balanced w t → Balanced w (flush out t)
    unfolding flush
    flush-Balanced t v =
        write_none_to_db-Balanced (write_ok_to_db out t).0 (write_ok_to_db-Balanced t v)

    pub write_ok_if_due-Balanced :
        (sub_task_id : ℤ) (t : TaskManager World)
        → Balanced w t
        → Balanced w (write_ok_if_due out sub_task_id t)
    unfolding write_ok_if_due
    write_ok_if_due-Balanced sub_task_id t v =
        let written = write_ok_to_db-Balanced t v in
        ground (arith, v, written, g_stop-Balanced force (write_ok_to_db out t).0 written)

    pub write_none_if_due-Balanced :
        (sub_task_id : ℤ) (t : TaskManager World)
        → Balanced w t
        → Balanced w (write_none_if_due out sub_task_id t)
    unfolding write_none_if_due
    write_none_if_due-Balanced sub_task_id t v =
        let written = write_none_to_db-Balanced t v in
        ground (arith, v, written, g_stop-Balanced force (write_none_to_db out t).0 written)
