-- ===== src/Client/TaskManager/Records.antt =====
-- What `getSubTask` gives out: the id of a sub task, and how many ids.
use bili_user_spider.Prelude.{
  ◌≡◌, refl, List, [], ◌∷◌, Option, none, some, Bool, true, false, arith, List-cases, Bool-cases,
  inl, inr, if◌then◌else◌, ℤ, ◌⊎◌, ℕ, zero, suc, ◌≤◌, length, pos, ◌+ℤ◌, ◌≤ℤ◌, leb_ℤ,
}
use bili_user_spider.Prelude.OrdMap.{OrdMap, find, emplace, AllBelow, IsOrdered}
use bili_user_spider.Prelude.OrdMap.Laws.{find-AllBelow}
use bili_user_spider.Client.Types.{Outside}
use bili_user_spider.Client.TaskManager.{
  TaskManager, retry_errors, issue_next, issue, take_mids, next_mids,
}
use bili_user_spider.Client.TaskManager.Write.{get_main_task}
use bili_user_spider.Client.TaskManager.Calls.{next_main_task, get_sub_task}
use bili_user_spider.Client.TaskManager.Places.{issue_lem}
use bili_user_spider.Client.TaskManager.Frame.{get_main_task-SameIds}

-- No more ids than the configured number, or a single one.
abbrev pub AtMost : ℤ → List ℤ → Type 0
AtMost step mids = (length mids ≤ 1) ⊎ (pos (length mids) ≤ℤ step)

step_more :
    (step count : ℤ) (n : ℕ)
    → leb_ℤ step (count +ℤ pos 1) ≡ false
    → (n ≤ 1) ⊎ (pos n +ℤ (count +ℤ pos 1) ≤ℤ step)
    → pos (suc n) +ℤ count ≤ℤ step
unfolding ◌+ℤ◌
step_more step count n below (inl few) = ground arith
step_more step count n below (inr room) = ground arith

take_mids-length :
    (step count : ℤ) (mids : List ℤ)
    → (length (take_mids step count mids).0 ≤ 1)
      ⊎ (pos (length (take_mids step count mids).0) +ℤ count ≤ℤ step)
unfolding take_mids
take_mids-length step count [] = inl (omega arith)
take_mids-length step count (mid ∷ mids) = elim (Bool-cases (leb_ℤ step (count +ℤ pos 1))) [
  | inl e ↦ inl (rw e (omega arith))
  | inr e ↦ inr (rw e (step_more step count _ e (take_mids-length step (count +ℤ pos 1) mids)))
]

next_mids-length :
    (left : ℕ) (step count mid : ℤ)
    → (length (next_mids left step count mid).0 ≤ 1)
      ⊎ (pos (length (next_mids left step count mid).0) +ℤ count ≤ℤ step)
unfolding next_mids
next_mids-length zero step count mid = inl (omega arith)
next_mids-length (suc left) step count mid = elim (Bool-cases (leb_ℤ step (count +ℤ pos 1))) [
  | inl e ↦ inl (rw e (omega arith))
  | inr e ↦
      inr (
        rw e
          (step_more step count _ e (next_mids-length left step (count +ℤ pos 1) (mid +ℤ pos 1))))
]

from_zero :
    (step : ℤ) (mids : List ℤ)
    → (length mids ≤ 1) ⊎ (pos (length mids) +ℤ pos 0 ≤ℤ step)
    → AtMost step mids
unfolding ◌+ℤ◌
from_zero step mids h = ground arith

-- A sub task in the result has an id that no other has, is recorded under it, and is not too long.
abbrev pub Recorded :
    {World : Type 0} → TaskManager World → TaskManager World × Option (ℤ × List ℤ) → Type 0
Recorded t (u, none) = Unit {0}
Recorded t (u, some (id, mids)) =
    (find id t.sub_tasks ≡ none)
    × AtMost u.steps.sub_task_step mids
    × ((main_task_id : ℤ) × (find id u.sub_tasks
          ≡ some (record { main_task_id = main_task_id; mids = mids })))

module _ {World : Type 0} where
  issue-Recorded :
      (main_task_id : ℤ) (mids : List ℤ) (t u : TaskManager World)
      → u.sub_tasks ≡ t.sub_tasks
      → u.current_sub_task_id ≡ t.current_sub_task_id
      → AllBelow t.current_sub_task_id t.sub_tasks
      → IsOrdered t.sub_tasks
      → AtMost u.steps.sub_task_step mids
      → Recorded t (issue main_task_id mids u)
  unfolding issue
  issue-Recorded main_task_id mids t u subs id fresh ordered short =
      let below : AllBelow u.current_sub_task_id u.sub_tasks = rw (subs, id) fresh in
      let sorted : IsOrdered u.sub_tasks = rw subs ordered in
      (
        rw⁻¹ subs (
            find-AllBelow u.current_sub_task_id u.current_sub_task_id u.sub_tasks (omega arith)
              below),
        short,
        (main_task_id, (issue_lem main_task_id mids u below sorted).1),
      )

  issue_next-Recorded :
      (t u : TaskManager World)
      → u.sub_tasks ≡ t.sub_tasks
      → u.current_sub_task_id ≡ t.current_sub_task_id
      → AllBelow t.current_sub_task_id t.sub_tasks
      → IsOrdered t.sub_tasks
      → Recorded t (issue_next u)
  unfolding issue_next
  issue_next-Recorded t u subs id fresh ordered =
      issue-Recorded u.current_main_task.id _ t _ subs id fresh ordered (
        from_zero u.steps.sub_task_step _
          (next_mids-length _ u.steps.sub_task_step (pos 0) u.current_mid))

  retry_errors-Recorded :
      (id : ℤ) (failed : List ℤ) (others : OrdMap (List ℤ)) (t : TaskManager World)
      → AllBelow t.current_sub_task_id t.sub_tasks
      → IsOrdered t.sub_tasks
      → Recorded t (retry_errors id failed others t)
  unfolding retry_errors
  retry_errors-Recorded id failed others t fresh ordered =
      issue-Recorded id _ t _ refl refl fresh ordered
        (from_zero t.steps.sub_task_step _ (take_mids-length t.steps.sub_task_step (pos 0) failed))

  if-Recorded :
      (t : TaskManager World) (b : Bool) (x y : TaskManager World × Option (ℤ × List ℤ))
      → Recorded t x
      → Recorded t y
      → Recorded t (if b then x else y)
  if-Recorded t true x y hx hy = hx
  if-Recorded t false x y hx hy = hy

module _ (out : Outside) where
  open out use {World}

  next_main_task-Recorded :
      (t : TaskManager World)
      → AllBelow t.current_sub_task_id t.sub_tasks
      → IsOrdered t.sub_tasks
      → Recorded t (next_main_task out t)
  unfolding next_main_task
  next_main_task-Recorded t fresh ordered =
      let u = (get_main_task out 10 t).0 in
      let main = u.current_main_task in
      let t' : TaskManager World = record u {
        main_tasks = emplace main.id main u.main_tasks;
        current_mid = main.mid_start;
      } in
      let same = get_main_task-SameIds out 10 t in
      let issued : Recorded t (issue_next t') =
        issue_next-Recorded t t' same.sub_tasks same.current_sub_task_id fresh ordered in
      if-Recorded t t.should_stop _ _ tt (if-Recorded t (get_main_task out 10 t).1 _ _ issued tt)

  pub get_sub_task-retry_errors :
      (t : TaskManager World) (id : ℤ) (failed : List ℤ) (others : OrdMap (List ℤ))
      → t.error_mids ≡ (id, failed) ∷ others
      → get_sub_task out t ≡ retry_errors id failed others t
  unfolding get_sub_task
  get_sub_task-retry_errors t id failed others e = ground (arith, e)

  pub get_sub_task-no_errors :
      (t : TaskManager World)
      → t.error_mids ≡ []
      → get_sub_task out t ≡ (
          if leb_ℤ t.current_main_task.mid_end t.current_mid
          then next_main_task out t
          else issue_next t)
  unfolding get_sub_task
  get_sub_task-no_errors t e = ground (arith, e)

  -- Whichever branch it takes, a sub task that is given out has a new id, its ids are recorded under
  -- it, and they are no more than `sub_task_step`, or a single one; if the ids of the sub tasks
  -- ascend and lie below the next one.
  pub get_sub_task-Recorded :
      (t : TaskManager World)
      → AllBelow t.current_sub_task_id t.sub_tasks
      → IsOrdered t.sub_tasks
      → Recorded t (get_sub_task out t)
  get_sub_task-Recorded t fresh ordered = elim (List-cases t.error_mids) [
    | inr ((id, failed), others, e) ↦
        rw (get_sub_task-retry_errors t id failed others e)
          (retry_errors-Recorded id failed others t fresh ordered)
    | inl e ↦ rw (get_sub_task-no_errors t e) (
        if-Recorded t (leb_ℤ t.current_main_task.mid_end t.current_mid) _ _
          (next_main_task-Recorded t fresh ordered)
          (issue_next-Recorded t t refl refl fresh ordered))
  ]
