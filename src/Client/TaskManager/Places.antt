-- ===== src/Client/TaskManager/Places.antt =====
-- Where an id of a main task can be while the client works on it, and that cutting sub tasks keeps
-- it in one place.
use bili_user_spider.Prelude.{
  ℕ, zero, suc, ◌+◌, ◌≡◌, refl, List, [], ◌∷◌, none, some, arith, ℤ, pos, pos_part, ◌+ℤ◌, ◌-ℤ◌,
  ◌≤ℤ◌, ◌==ℤ◌, if◌then◌else◌, +ℤ_parts, ==ℤ_refl,
}
use bili_user_spider.Prelude.Ranges.{inside, occurrences, inside_split, inside_empty}
use bili_user_spider.Prelude.OrdMap.{OrdMap, find, emplace, erase, AllBelow, IsOrdered}
use bili_user_spider.Prelude.OrdMap.Laws.{find-AllBelow, find-emplace}
use bili_user_spider.Client.Types.{SubTask}
use bili_user_spider.Client.TaskManager.{
  TaskManager, take_mids, next_mids, issue, kept, retry_errors, issue_next,
}

-- An id in all the lists of a map.
unfoldable pub in_lists : ℤ → OrdMap (List ℤ) → ℕ
in_lists m [] = 0
in_lists m ((k, mids) ∷ rest) = occurrences m mids + in_lists m rest

unfoldable pub in_sub_tasks : ℤ → OrdMap SubTask → ℕ
in_sub_tasks m [] = 0
in_sub_tasks m ((k, sub) ∷ rest) = occurrences m sub.mids + in_sub_tasks m rest

-- In how many places an id waits to be crawled: failed before, with a thread, or not given out yet.
unfoldable pub uncrawled : {World : Type 0} → ℤ → TaskManager World → ℕ
uncrawled m t =
    in_lists m t.error_mids
    + in_sub_tasks m t.sub_tasks
    + inside m (t.current_mid, t.current_main_task.mid_end)

pub in_sub_tasks-emplace :
    (m k : ℤ) (sub : SubTask) (subs : OrdMap SubTask)
    → find k subs ≡ none
    → in_sub_tasks m (emplace k sub subs) ≡ occurrences m sub.mids + in_sub_tasks m subs
unfolding in_sub_tasks emplace find
in_sub_tasks-emplace m k sub [] h = refl
in_sub_tasks-emplace m k sub ((j, w) ∷ subs) h = ground (arith, in_sub_tasks-emplace m k sub subs)

pub in_sub_tasks-erase :
    (m k : ℤ) (sub : SubTask) (subs : OrdMap SubTask)
    → find k subs ≡ some sub
    → in_sub_tasks m subs ≡ occurrences m sub.mids + in_sub_tasks m (erase k subs)
unfolding in_sub_tasks erase find
in_sub_tasks-erase m k sub [] h = absurd (ground arith)
in_sub_tasks-erase m k sub ((j, w) ∷ subs) h = ground (arith, in_sub_tasks-erase m k sub subs)

-- Taking failed ids splits them.
pub occurrences-take_mids :
    (m step count : ℤ) (mids : List ℤ)
    → occurrences m (take_mids step count mids).0 + occurrences m (take_mids step count mids).1
      ≡ occurrences m mids
unfolding occurrences take_mids
occurrences-take_mids m step count [] = refl
occurrences-take_mids m step count (x ∷ mids) =
    ground (arith, occurrences-take_mids m step (count +ℤ pos 1) mids)

inside_one : (m x : ℤ) → (if m ==ℤ x then 1 else 0) ≡ inside m (x, x +ℤ pos 1)
unfolding inside
inside_one m x = ground (arith, +ℤ_parts x (pos 1))

-- The ids that are given out are those from the next one up to the new next one.
pub next_mids_lem :
    (m : ℤ) (left : ℕ) (step count mid : ℤ)
    → (mid ≤ℤ (next_mids left step count mid).1)
      × ((next_mids left step count mid).1 ≤ℤ mid +ℤ pos left)
      × (occurrences m (next_mids left step count mid).0
          ≡ inside m (mid, (next_mids left step count mid).1))
unfolding next_mids occurrences
next_mids_lem m zero step count mid =
    (omega arith, omega (arith, +ℤ_parts mid (pos 0)), omega (arith, inside_empty m mid mid))
next_mids_lem m (suc left) step count mid =
    let next = mid +ℤ pos 1 in
    let rest = next_mids left step (count +ℤ pos 1) next in
    ground (
      arith,
      next_mids_lem m left step (count +ℤ pos 1) next,
      inside_one m mid,
      inside_split m mid next rest.1,
      +ℤ_parts mid (pos 1),
      +ℤ_parts next (pos left),
      +ℤ_parts mid (pos (suc left)),
    )

add_distance : (a b : ℤ) → a ≤ℤ b → a +ℤ pos (pos_part (b -ℤ a)) ≤ℤ b
unfolding ◌+ℤ◌ ◌-ℤ◌
add_distance a b h = ground arith

module _ {World : Type 0} where
  nothing_left :
      (t : TaskManager World)
      → t.current_main_task.mid_end ≤ℤ t.current_mid
      → pos_part (t.current_main_task.mid_end -ℤ t.current_mid) ≡ 0
  unfolding ◌-ℤ◌
  nothing_left t over = ground arith

  issue-uncrawled :
      (m main_task_id : ℤ) (mids : List ℤ) (t : TaskManager World)
      → AllBelow t.current_sub_task_id t.sub_tasks
      → uncrawled m (issue main_task_id mids t).0 ≡ occurrences m mids + uncrawled m t
  unfolding uncrawled issue
  issue-uncrawled m main_task_id mids t fresh =
      let sub : SubTask = record { main_task_id = main_task_id; mids = mids } in
      omega (
        arith,
        in_sub_tasks-emplace m t.current_sub_task_id sub t.sub_tasks (
            find-AllBelow t.current_sub_task_id t.current_sub_task_id t.sub_tasks (omega arith)
              fresh),
      )

  advance-uncrawled :
      (m next : ℤ) (t : TaskManager World)
      → t.current_mid ≤ℤ next
      → next ≤ℤ t.current_main_task.mid_end
      → uncrawled m (record t { current_mid = next }) + inside m (t.current_mid, next)
        ≡ uncrawled m t
  unfolding uncrawled
  advance-uncrawled m next t lo hi =
      omega (arith, inside_split m t.current_mid next t.current_main_task.mid_end lo hi)

  kept-uncrawled :
      (m id : ℤ) (failed left : List ℤ) (others : OrdMap (List ℤ)) (t : TaskManager World)
      → t.error_mids ≡ (id, failed) ∷ others
      → uncrawled m (record t { error_mids = kept id left others }) + occurrences m failed
        ≡ uncrawled m t + occurrences m left
  unfolding uncrawled in_lists kept occurrences
  kept-uncrawled m id failed [] others t e = rw e (omega arith)
  kept-uncrawled m id failed (x ∷ left) others t e = rw e (omega arith)

  -- Cutting the next sub task off the main task loses no id and doubles none, if its id is new and
  -- the next id to give out is not behind the end.
  pub issue_next-uncrawled :
      (m : ℤ) (t : TaskManager World)
      → AllBelow t.current_sub_task_id t.sub_tasks
      → t.current_mid ≤ℤ t.current_main_task.mid_end
      → uncrawled m (issue_next t).0 ≡ uncrawled m t
  unfolding issue_next
  issue_next-uncrawled m t fresh within =
      let left = pos_part (t.current_main_task.mid_end -ℤ t.current_mid) in
      let cut = next_mids left t.steps.sub_task_step (pos 0) t.current_mid in
      let moved = next_mids_lem m left t.steps.sub_task_step (pos 0) t.current_mid in
      let bound : cut.1 ≤ℤ t.current_main_task.mid_end =
        omega (arith, moved.1, add_distance t.current_mid t.current_main_task.mid_end within) in
      omega (
        arith,
        moved.2,
        issue-uncrawled m t.current_main_task.id cut.0 (record t { current_mid = cut.1 }) fresh,
        advance-uncrawled m cut.1 t moved.0 bound,
      )

  -- Giving failed ids out again loses no id and doubles none, if the id of the sub task is new.
  pub retry_errors-uncrawled :
      (m id : ℤ) (failed : List ℤ) (others : OrdMap (List ℤ)) (t : TaskManager World)
      → AllBelow t.current_sub_task_id t.sub_tasks
      → t.error_mids ≡ (id, failed) ∷ others
      → uncrawled m (retry_errors id failed others t).0 ≡ uncrawled m t
  unfolding retry_errors
  retry_errors-uncrawled m id failed others t fresh e =
      let cut = take_mids t.steps.sub_task_step (pos 0) failed in
      let left = kept id cut.1 others in
      omega (
        arith,
        issue-uncrawled m id cut.0 (record t { error_mids = left }) fresh,
        occurrences-take_mids m t.steps.sub_task_step (pos 0) failed,
        kept-uncrawled m id failed cut.1 others t e,
      )

  -- A sub task is recorded under the next id, which is the result.
  pub issue_lem :
      (main_task_id : ℤ) (mids : List ℤ) (t : TaskManager World)
      → AllBelow t.current_sub_task_id t.sub_tasks
      → IsOrdered t.sub_tasks
      → ((issue main_task_id mids t).1 ≡ some (t.current_sub_task_id, mids))
        × (find t.current_sub_task_id (issue main_task_id mids t).0.sub_tasks
            ≡ some (record { main_task_id = main_task_id; mids = mids }))
  unfolding issue
  issue_lem main_task_id mids t fresh ordered =
      let id = t.current_sub_task_id in
      (
        refl,
        rw (find-emplace id id _ t.sub_tasks ordered)
            (ground (arith, ==ℤ_refl id, find-AllBelow id id t.sub_tasks (omega arith) fresh)),
      )

  -- A main task without ids, such as the server's last one, gives a sub task without ids.
  pub issue_next-empty :
      (t : TaskManager World)
      → t.current_main_task.mid_end ≤ℤ t.current_mid
      → (issue_next t).1 ≡ some (t.current_sub_task_id, [])
  unfolding issue_next issue next_mids
  issue_next-empty t over =
      let e : pos_part (t.current_main_task.mid_end -ℤ t.current_mid) ≡ 0 = nothing_left t over in
      rw e
