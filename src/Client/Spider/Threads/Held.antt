-- ===== src/Client/Spider/Threads/Held.antt =====
-- What the threads hold, and that taking, bringing back and giving up a sub task keeps it in order.
use bili_user_spider.Prelude.{
  ℕ, ◌≡◌, ◌≢◌, sym, ap, ◌∙◌, ◌⊎◌, List, [], ◌∷◌, none, some, Bool, if◌then◌else◌, ◌==◌, arith,
  Bool-cases, inl, inr, ℤ, pos, ◌+ℤ◌, ◌==ℤ◌, ==ℤ_iff, ==ℤ_refl, +ℤ_parts,
}
use bili_user_spider.Prelude.OrdMap.{OrdMap, find, emplace, erase, AllBelow, IsOrdered}
use bili_user_spider.Prelude.OrdMap.Laws.{
  find-AllBelow, AllBelow-mono, emplace-AllBelow, emplace-IsOrdered, erase-AllBelow,
  erase-IsOrdered, find-emplace, find-erase,
}
use bili_user_spider.Client.Types.{SubTask, MainTask}
use bili_user_spider.Client.TaskManager.{TaskManager}
use bili_user_spider.Client.Spider.Threads.{Thread, idle, holding, set, without_task}
use bili_user_spider.Client.Spider.Threads.Issued.{Issued}

-- The ids of the sub tasks ascend and lie below the next one; what a thread works on is recorded
-- with its users; and no other thread works on it.
pub record IsHeld {World : Type 0} (t : TaskManager World) (threads : ℕ → Thread) : Type 0 where
  pub below : AllBelow t.current_sub_task_id t.sub_tasks
  pub ordered : IsOrdered t.sub_tasks
  pub recorded :
      (i : ℕ) (id : ℤ) (mids : List ℤ)
      → threads i ≡ holding id mids
      → (main_task_id : ℤ) × (find id t.sub_tasks
          ≡ some (record { main_task_id = main_task_id; mids = mids }))
  pub alone :
      (i j : ℕ) (id : ℤ) (mids mids' : List ℤ)
      → threads i ≡ holding id mids
      → threads j ≡ holding id mids'
      → i ≡ j

set_other :
    (i j : ℕ) (x : Thread) (threads : ℕ → Thread) (id : ℤ) (mids : List ℤ)
    → ((k : ℤ) (ks : List ℤ) → x ≢ holding k ks)
    → set i x threads j ≡ holding id mids
    → (i ≢ j) × (threads j ≡ holding id mids)
unfolding set
set_other i j x threads id mids other h = elim (Bool-cases (i == j)) [
  | inl e ↦ absurd (other id mids (ground (arith, e, h)))
  | inr e ↦ (ground (arith, e), ground (arith, e, h))
]

set_holding :
    (i j : ℕ) (threads : ℕ → Thread) (id id' : ℤ) (mids mids' : List ℤ)
    → set i (holding id mids) threads j ≡ holding id' mids'
    → ((i ≡ j) × (id' ≡ id) × (mids' ≡ mids)) ⊎ (threads j ≡ holding id' mids')
unfolding set
set_holding i j threads id id' mids mids' h = elim (Bool-cases (i == j)) [
  | inl e ↦ inl (ground (arith, e, h))
  | inr e ↦ inr (ground (arith, e, h))
]

pub without_task-holding :
    (m : OrdMap MainTask) (b : Bool) (k : ℤ) (ks : List ℤ) → without_task m b ≢ holding k ks
unfolding without_task
without_task-holding [] b k ks = ground arith
without_task-holding (t ∷ ts) b k ks = ground arith

next_id-IsHeld :
    (next : ℤ) (sub : SubTask) (subs : OrdMap SubTask)
    → AllBelow next subs
    → AllBelow (next +ℤ pos 1) (emplace next sub subs)
next_id-IsHeld next sub subs below =
    let above = next +ℤ pos 1 in
    emplace-AllBelow above next sub subs (omega (arith, +ℤ_parts next (pos 1)))
      (AllBelow-mono next above subs (omega (arith, +ℤ_parts next (pos 1))) below)

module _ {World : Type 0} where
  -- A thread that holds nothing any more, where the sub tasks are the same.
  pub release-IsHeld :
      (t u : TaskManager World) (threads : ℕ → Thread) (i : ℕ) (x : Thread)
      → ((k : ℤ) (ks : List ℤ) → x ≢ holding k ks)
      → u.sub_tasks ≡ t.sub_tasks
      → u.current_sub_task_id ≡ t.current_sub_task_id
      → IsHeld t threads
      → IsHeld u (set i x threads)
  release-IsHeld t u threads i x other subs next held = record {
    below = rw (subs, next) held.below;
    ordered = rw subs held.ordered;
    recorded = λ j id mids h.
        rw subs (held.recorded j id mids (set_other i j x threads id mids other h).1);
    alone = λ j k id mids mids' h h'.
        held.alone j k id mids mids' (set_other i j x threads id mids other h).1
          (set_other i k x threads id mids' other h').1;
  }

  -- A thread that takes a new sub task.
  pub take-IsHeld :
      (t u : TaskManager World) (threads : ℕ → Thread) (i : ℕ) (id : ℤ) (mids : List ℤ)
      → Issued t (u, some (id, mids))
      → IsHeld t threads
      → IsHeld u (set i (holding id mids) threads)
  take-IsHeld t u threads i id mids (is_next, next, (main, subs)) held =
      let sub : SubTask = record { main_task_id = main; mids = mids } in
      let new : find id t.sub_tasks ≡ none = rw is_next (
        find-AllBelow t.current_sub_task_id t.current_sub_task_id t.sub_tasks (omega arith)
          held.below) in
      let got : (j : ℤ) → find j u.sub_tasks ≡ (if j ==ℤ id then some sub else find j t.sub_tasks) =
        λ j. rw subs (ground (arith, find-emplace id j sub t.sub_tasks held.ordered, new)) in
      record {
        below =
            rw (next, subs, is_next)
              (next_id-IsHeld t.current_sub_task_id sub t.sub_tasks held.below);
        ordered = rw subs (emplace-IsOrdered id sub t.sub_tasks held.ordered);
        recorded = λ j id' mids' h. elim (set_holding i j threads id id' mids mids' h) [
          | inl (_, same_id, same_mids) ↦
              (main, ground (arith, got id', same_id, same_mids, ==ℤ_refl id))
          | inr old ↦
              let (main', e) = held.recorded j id' mids' old in
              (main', ground (arith, got id', e, new))
        ];
        alone = λ j k id' mids1 mids2 h h'. elim (set_holding i j threads id id' mids mids1 h) [
          | inl (at_i, same_id, _) ↦ elim (set_holding i k threads id id' mids mids2 h') [
            | inl (at_i', _, _) ↦ sym at_i ∙ at_i'
            | inr old ↦ absurd (ground (arith, (held.recorded k id' mids2 old).1, new, same_id))
          ]
          | inr old ↦ elim (set_holding i k threads id id' mids mids2 h') [
            | inl (_, same_id, _) ↦
                absurd (ground (arith, (held.recorded j id' mids1 old).1, new, same_id))
            | inr old' ↦ held.alone j k id' mids1 mids2 old old'
          ]
        ];
      }

  -- A thread that brings its sub task back.
  pub return-IsHeld :
      (t u : TaskManager World) (threads : ℕ → Thread) (i : ℕ) (id : ℤ) (mids : List ℤ)
      → threads i ≡ holding id mids
      → u.sub_tasks ≡ erase id t.sub_tasks
      → u.current_sub_task_id ≡ t.current_sub_task_id
      → IsHeld t threads
      → IsHeld u (set i idle threads)
  return-IsHeld t u threads i id mids mine subs next held =
      let other : (k : ℤ) (ks : List ℤ) → idle ≢ holding k ks = λ k ks. ground arith in
      record {
        below = rw (next, subs) (erase-AllBelow t.current_sub_task_id id t.sub_tasks held.below);
        ordered = rw subs (erase-IsOrdered id t.sub_tasks held.ordered);
        recorded = λ j id' mids' h.
            let (apart, old) = set_other i j idle threads id' mids' other h in
            let (main, e) = held.recorded j id' mids' old in
            let differ : id' ≢ id = λ same.
              apart (held.alone i j id mids mids' mine (old ∙ ap (λ x. holding x mids') same)) in
            (
              main,
              rw subs (
                  ground
                    (arith, find-erase id id' t.sub_tasks held.ordered, e, differ, ==ℤ_iff id' id)),
            );
        alone = λ j k id' mids1 mids2 h h'.
            held.alone j k id' mids1 mids2 (set_other i j idle threads id' mids1 other h).1
              (set_other i k idle threads id' mids2 other h').1;
      }
