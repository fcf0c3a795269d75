-- ===== src/Client/TaskManager/Account/Cut.antt =====
-- Cutting sub tasks off what waits keeps the account of every main task.
use bili_user_spider.Prelude.{
  ℕ, zero, suc, ◌+◌, ◌≤◌, ◌≡◌, refl, List, [], ◌∷◌, none, arith, length, ℤ, pos, negsuc, pos_part,
  eq_of_parts, ◌+ℤ◌, ◌-ℤ◌, +ℤ_parts,
}
use bili_user_spider.Prelude.OrdMap.{OrdMap, find, AllBelow}
use bili_user_spider.Prelude.OrdMap.Laws.{find-AllBelow, emplace-AllBelow, AllBelow-mono}
use bili_user_spider.Client.Types.{SubTask, Outside}
use bili_user_spider.Client.TaskManager.{
  TaskManager, take_mids, next_mids, kept, issue, retry_errors, issue_next,
}
use bili_user_spider.Client.TaskManager.Account.{in_map}
use bili_user_spider.Client.TaskManager.Account.Written.{Balanced, waiting, ungiven}
use bili_user_spider.Client.TaskManager.Account.Pushed.{only, in_subs-emplace}
use bili_user_spider.Client.TaskManager.Account.Crawled.{Balanced-same, InBalance}

length-take_mids :
    (step count : ℤ) (mids : List ℤ)
    → length (take_mids step count mids).0 + length (take_mids step count mids).1 ≡ length mids
unfolding take_mids
length-take_mids step count [] = refl
length-take_mids step count (x ∷ mids) = ground (arith, length-take_mids step (count +ℤ pos 1) mids)

add_none : (a : ℤ) → a +ℤ pos 0 ≡ a
unfolding ◌+ℤ◌
add_none (pos n) = ground arith
add_none (negsuc n) = ground arith

add_next : (a : ℤ) (n : ℕ) → (a +ℤ pos 1) +ℤ pos n ≡ a +ℤ pos (suc n)
add_next a n =
    eq_of_parts _ _
      (omega (arith, +ℤ_parts a (pos 1), +ℤ_parts (a +ℤ pos 1) (pos n), +ℤ_parts a (pos (suc n))))

-- As many ids are given out as the next id moves on.
length-next_mids :
    (left : ℕ) (step count mid : ℤ)
    → (length (next_mids left step count mid).0 ≤ left)
      × ((next_mids left step count mid).1 ≡ mid +ℤ pos (length (next_mids left step count mid).0))
unfolding next_mids
length-next_mids zero step count mid = (omega arith, ground (arith, add_none mid))
length-next_mids (suc left) step count mid =
    let rest = next_mids left step (count +ℤ pos 1) (mid +ℤ pos 1) in
    ground (
      arith,
      length-next_mids left step (count +ℤ pos 1) (mid +ℤ pos 1),
      add_next mid (length rest.0),
    )

in_map-kept :
    (k id : ℤ) (left : List ℤ) (others : OrdMap (List ℤ))
    → in_map k (kept id left others) ≡ only id (length left) k + in_map k others
unfolding kept in_map
in_map-kept k id [] others = ground arith
in_map-kept k id (x ∷ left) others = refl

-- What is left behind the next `n` ids.
left_behind :
    (end mid : ℤ) (n : ℕ)
    → n ≤ pos_part (end -ℤ mid)
    → n + pos_part (end -ℤ (mid +ℤ pos n)) ≡ pos_part (end -ℤ mid)
unfolding ◌+ℤ◌ ◌-ℤ◌
left_behind end mid n h = ground arith

module _ (out : Outside) where
  open out use {World}

  issue-waiting :
      (id : ℤ) (mids : List ℤ) (t : TaskManager World) (w : ℤ → ℕ)
      → ((k : ℤ) → w k ≡ waiting k t + only id (length mids) k)
      → find t.current_sub_task_id t.sub_tasks ≡ none
      → (k : ℤ) → waiting k (issue id mids t).0 ≡ w k
  unfolding issue waiting ungiven
  issue-waiting id mids t w same absent k =
      let sub : SubTask = record { main_task_id = id; mids = mids } in
      ground (arith, same k, in_subs-emplace k t.current_sub_task_id sub t.sub_tasks absent)

  -- A sub task of ids that wait is recorded: `w` are the others.
  issue-InBalance :
      (id : ℤ) (mids : List ℤ) (t : TaskManager World) (w : ℤ → ℕ)
      → ((k : ℤ) → w k ≡ waiting k t + only id (length mids) k)
      → Balanced w t
      → AllBelow t.current_sub_task_id t.sub_tasks
      → InBalance out (issue id mids t).0
  unfolding issue
  issue-InBalance id mids t w same v fresh =
      let sub : SubTask = record { main_task_id = id; mids = mids } in
      let absent =
        find-AllBelow t.current_sub_task_id t.current_sub_task_id t.sub_tasks (omega arith) fresh in
      record {
        balanced =
            Balanced-same w (λ k. waiting k (issue id mids t).0) t (issue id mids t).0
              (λ k. issue-waiting id mids t w same absent k) refl refl refl v;
        next_id =
            emplace-AllBelow (t.current_sub_task_id +ℤ pos 1) t.current_sub_task_id sub t.sub_tasks
              (omega (arith, +ℤ_parts t.current_sub_task_id (pos 1)))
              (AllBelow-mono t.current_sub_task_id (t.current_sub_task_id +ℤ pos 1) t.sub_tasks
                (omega (arith, +ℤ_parts t.current_sub_task_id (pos 1))) fresh);
      }

  retried-waiting :
      (id : ℤ) (failed : List ℤ) (others : OrdMap (List ℤ)) (t : TaskManager World)
      → t.error_mids ≡ (id, failed) ∷ others
      → let cut = take_mids t.steps.sub_task_step (pos 0) failed in
        (k : ℤ)
        → waiting k t
          ≡ waiting k (record t { error_mids = kept id cut.1 others }) + only id (length cut.0) k
  unfolding waiting ungiven in_map
  retried-waiting id failed others t e k =
      let cut = take_mids t.steps.sub_task_step (pos 0) failed in
      ground (
        arith,
        e,
        in_map-kept k id cut.1 others,
        length-take_mids t.steps.sub_task_step (pos 0) failed,
      )

  next-waiting :
      (t : TaskManager World)
      → let left = pos_part (t.current_main_task.mid_end -ℤ t.current_mid) in
        let cut = next_mids left t.steps.sub_task_step (pos 0) t.current_mid in
        (k : ℤ)
        → waiting k t
          ≡ waiting k (record t { current_mid = cut.1 })
            + only t.current_main_task.id (length cut.0) k
  unfolding waiting ungiven
  next-waiting t k =
      let end = t.current_main_task.mid_end in
      let left = pos_part (end -ℤ t.current_mid) in
      let cut = next_mids left t.steps.sub_task_step (pos 0) t.current_mid in
      let (few, next) = length-next_mids left t.steps.sub_task_step (pos 0) t.current_mid in
      let behind = left_behind end t.current_mid (length cut.0) few in ground (arith, next, behind)

  pub retry_errors-InBalance :
      (id : ℤ) (failed : List ℤ) (others : OrdMap (List ℤ)) (t : TaskManager World)
      → t.error_mids ≡ (id, failed) ∷ others
      → InBalance out t
      → InBalance out (retry_errors id failed others t).0
  unfolding retry_errors
  retry_errors-InBalance id failed others t e v =
      let cut = take_mids t.steps.sub_task_step (pos 0) failed in
      let u : TaskManager World = record t { error_mids = kept id cut.1 others } in
      issue-InBalance id cut.0 u (λ k. waiting k t) (retried-waiting id failed others t e)
        (Balanced-same (λ k. waiting k t) (λ k. waiting k t) t u (λ k. refl) refl refl refl
          v.balanced)
        v.next_id

  pub issue_next-InBalance :
      (t : TaskManager World) → InBalance out t → InBalance out (issue_next t).0
  unfolding issue_next
  issue_next-InBalance t v =
      let left = pos_part (t.current_main_task.mid_end -ℤ t.current_mid) in
      let cut = next_mids left t.steps.sub_task_step (pos 0) t.current_mid in
      let u : TaskManager World = record t { current_mid = cut.1 } in
      issue-InBalance t.current_main_task.id cut.0 u (λ k. waiting k t) (next-waiting t)
        (Balanced-same (λ k. waiting k t) (λ k. waiting k t) t u (λ k. refl) refl refl refl
          v.balanced)
        v.next_id
