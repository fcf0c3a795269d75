-- ===== src/Client/TaskManager/Settle.antt =====
-- What writing a buffer does to the main tasks: each is as much further as ids of it were written,
-- and is reported and dropped exactly when all its ids are written.
use bili_user_spider.Prelude.{
  ℕ, zero, suc, ◌≡◌, refl, List, [], ◌∷◌, Option, none, some, true, arith, if◌then◌else◌, length,
  Option-cases, inl, inr, ℤ, pos, ◌+ℤ◌, ◌==ℤ◌, ==ℤ_iff,
}
use bili_user_spider.Prelude.OrdMap.{OrdMap, find, erase, assign, IsOrdered}
use bili_user_spider.Prelude.OrdMap.Laws.{
  find-AllAbove, find-assign, find-erase, assign-IsOrdered, erase-IsOrdered,
}
use bili_user_spider.Client.Types.{StopMode, smooth, force, MainTask, is_completed, Outside}
use bili_user_spider.Client.TaskManager.{TaskManager}
use bili_user_spider.Client.TaskManager.Write.{
  g_stop, stop_if_asked, commit_main_task, settle_entry, settle,
}

module _ (out : Outside) where
  open out use {World}

  stop_if_asked-main_tasks :
      (mode : Option StopMode) (t : TaskManager World)
      → (stop_if_asked mode t).main_tasks ≡ t.main_tasks
  unfolding stop_if_asked g_stop
  stop_if_asked-main_tasks none t = refl
  stop_if_asked-main_tasks (some smooth) t = refl
  stop_if_asked-main_tasks (some force) t = refl

  -- A report changes no main task.
  pub commit_main_task-main_tasks :
      (tries : ℕ) (id : ℤ) (t : TaskManager World)
      → (commit_main_task out tries id t).0.main_tasks ≡ t.main_tasks
  unfolding commit_main_task g_stop
  commit_main_task-main_tasks zero id t = refl
  commit_main_task-main_tasks (suc tries) id t =
      let (w, answer) = out.api_commit_task id (t.commit_ok +ℤ t.commit_none) t.steps t.world in
      let heard = record t { world = w; steps = answer.steps } in
      let next = stop_if_asked answer.stop heard in
      ground (
        arith,
        stop_if_asked-main_tasks answer.stop heard,
        commit_main_task-main_tasks tries id next,
      )

-- A main task after `n` more of its ids are written; `none` once it is reported.
unfoldable pub settled : ℤ → Option MainTask → Option MainTask
settled n none = none
settled n (some main) =
    let main' = record main { completed = main.completed +ℤ n } in
    if is_completed main' then none else some main'

-- The number of ids of a main task in a buffer.
unfoldable pub rows_of {ℓ} : {A : Type ℓ} → ℤ → OrdMap (List A) → Option ℤ
rows_of id buff = elim (find id buff) [ none ↦ none | some rows ↦ some (pos (length rows)) ]

pub find-moved :
    {V : Type 0} (id k : ℤ) (v : V) (m m' : OrdMap V)
    → IsOrdered m
    → m' ≡ assign id v m
    → IsOrdered m'
      × IsOrdered (erase id m')
      × (find k m'
          ≡ (if k ==ℤ id then elim (find id m) [ none ↦ none | some _ ↦ some v ] else find k m))
      × (find k (erase id m') ≡ (if k ==ℤ id then none else find k m))
find-moved id k v m m' o e =
    let o' = assign-IsOrdered id v m o in
    rw e (
      o',
      erase-IsOrdered id _ o',
      find-assign id k v m,
      ground (arith, find-erase id k (assign id v m) o', find-assign id k v m),
    )

module _ (out : Outside) where
  open out use {World}

  settle_entry-find :
      (id n : ℤ) (t : TaskManager World) (k : ℤ)
      → IsOrdered t.main_tasks
      → (settle_entry out id n t).1 ≡ true
      → (find k (settle_entry out id n t).0.main_tasks
          ≡ (if k ==ℤ id then settled n (find k t.main_tasks) else find k t.main_tasks))
        × IsOrdered (settle_entry out id n t).0.main_tasks
  unfolding settle_entry settled
  settle_entry-find id n t k om going = elim (Option-cases (find id t.main_tasks)) [
    | inl e ↦ absurd (ground arith)
    | inr (main, e) ↦
        let main' : MainTask = record main { completed = main.completed +ℤ n } in
        let t' : TaskManager World = record t { main_tasks = assign id main' t.main_tasks } in
        let same = commit_main_task-main_tasks out 10 id t' in
        let moved =
          find-moved id k main' t.main_tasks (commit_main_task out 10 id t').0.main_tasks om same in
        ground (
          arith,
          e,
          moved,
          same,
          find-moved id k main' t.main_tasks t'.main_tasks om refl,
          ==ℤ_iff k id,
        )
  ]

  -- When the loop comes through, a main task of the buffer has the number of its written ids added,
  -- and is gone exactly when that completes it; every other main task is as it was.
  pub settle-find :
      {A : Type 0} (buff : OrdMap (List A)) (t : TaskManager World) (k : ℤ)
      → IsOrdered buff
      → IsOrdered t.main_tasks
      → (settle out buff t).2 ≡ true
      → find k (settle out buff t).0.main_tasks ≡ elim (rows_of k buff) [
        | none ↦ find k t.main_tasks
        | some n ↦ settled n (find k t.main_tasks)
      ]
  unfolding settle rows_of find
  settle-find [] t k ob om done = refl
  settle-find ((id, rows) ∷ buff) t k ob om done =
      let next = settle_entry out id (pos (length rows)) t in
      ground (
        arith,
        settle_entry-find id (pos (length rows)) t k om,
        settle-find buff next.0 k ob.1,
        find-AllAbove k id buff,
      )
