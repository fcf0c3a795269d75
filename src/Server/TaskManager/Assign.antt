-- ===== src/Server/TaskManager/Assign.antt =====
-- The two halves of `getTask`: taking a range, and assigning it.
use bili_user_spider.Prelude.{
  ◌+◌, ◌≡◌, List, [], ◌∷◌, none, some, arith, ℤ, pos, ◌+ℤ◌, ◌<ℤ◌, ◌≤ℤ◌, +ℤ_parts, ==ℤ_refl,
}
use bili_user_spider.Prelude.OrdMap.{find, emplace}
use bili_user_spider.Prelude.OrdMap.Laws.{
  find-AllBelow, find-emplace, emplace-IsOrdered, emplace-AllBelow, AllBelow-mono,
}
use bili_user_spider.Server.Json.{JsonText}
use bili_user_spider.Server.TaskManager.{
  Range, TaskManager, Env, assigned, next_range, take_range, new_task, assign_range,
}
use bili_user_spider.Server.TaskManager.Cover.{pending, cover, cover-emplace}
use bili_user_spider.Prelude.Ranges.{inside, inside_split}
use bili_user_spider.Server.TaskManager.Valid.{IsValid, write_if_due-SameTasks, SameTasks-pending}

-- No request reaches past the end of the range: a recycled range is there, or none is left, or
-- `count` ids fit.
abbrev pub Fits : {Text : Type 0} → ℤ → TaskManager Text → Type 0
Fits count t =
    (pos 0 ≤ℤ count)
    × (t.tasks_recycled ≡ [] → t.mid_current <ℤ t.mid_end → t.mid_current +ℤ count ≤ℤ t.mid_end)

-- The oldest recycled range if there is one, else the next of the range that is not assigned.
abbrev pub Picks : {Text : Type 0} → ℤ → TaskManager Text → List Range → Range → Type 0
Picks count t [] r = r ≡ (next_range count t).0
Picks count t (front ∷ rest) r = r ≡ front

module _ {Text : Type 0} where
  pub next_range-pending :
      (m count : ℤ) (t : TaskManager Text)
      → pos 0 ≤ℤ count
      → t.mid_current +ℤ count ≤ℤ t.mid_end
      → pending m t ≡ inside m (next_range count t).0 + pending m (next_range count t).1
  unfolding pending next_range
  next_range-pending m count t h k =
      let split =
        inside_split m t.mid_current (t.mid_current +ℤ count) t.mid_end
          (omega (arith, +ℤ_parts t.mid_current count)) k in
      ground (arith, split)

  pub take_front-pending :
      (m : ℤ) (t : TaskManager Text) (r : Range) (rs : List Range)
      → t.tasks_recycled ≡ r ∷ rs
      → pending m t ≡ inside m r + pending m (record t { tasks_recycled = rs })
  unfolding pending cover
  take_front-pending m t r rs e = rw e (omega arith)

  -- A range that is taken leaves the place where it waited.
  pub take_range-pending :
      (m count : ℤ) (t : TaskManager Text) (rs : List Range)
      → t.tasks_recycled ≡ rs
      → Fits count t
      → {r : Range} {u : TaskManager Text} → take_range count t ≡ some (r, u)
      → pending m t ≡ inside m r + pending m u
  unfolding take_range
  take_range-pending m count t [] e f h = ground (arith, next_range-pending m count t f.0, f.1 e)
  take_range-pending m count t (x ∷ rs) e f h = ground (arith, take_front-pending m t x rs e)

  pub take_range-none :
      (count : ℤ) (t : TaskManager Text)
      → take_range count t ≡ none
      → (t.tasks_recycled ≡ []) × (t.mid_end ≤ℤ t.mid_current)
  unfolding take_range
  take_range-none count t h = ground arith

  pub take_range-Picks :
      (count : ℤ) (t : TaskManager Text) (rs : List Range) {r : Range} {u : TaskManager Text}
      → t.tasks_recycled ≡ rs
      → take_range count t ≡ some (r, u)
      → Picks count t rs r
  unfolding take_range
  take_range-Picks count t [] e h = ground arith
  take_range-Picks count t (x ∷ rs) e h = ground arith

  pub take_range-ids :
      (count : ℤ) (t : TaskManager Text) {r : Range} {u : TaskManager Text}
      → take_range count t ≡ some (r, u)
      → (u.tasks ≡ t.tasks) × (u.task_id_current ≡ t.task_id_current)
  unfolding take_range next_range
  take_range-ids count t h = ground arith

  -- Skipping what is left takes an id of it from one place.
  pub pending-drop :
      (m : ℤ) (t : TaskManager Text)
      → t.mid_current ≤ℤ m
      → m <ℤ t.mid_end
      → pending m (record t { mid_current = t.mid_end }) + 1 ≡ pending m t
  unfolding pending inside
  pending-drop m t lo hi = ground arith

  pub take_range-IsValid :
      (count : ℤ) (t : TaskManager Text) {r : Range} {u : TaskManager Text}
      → IsValid t
      → take_range count t ≡ some (r, u)
      → IsValid u
  unfolding take_range next_range
  take_range-IsValid count t v h = ground arith

module _ (json : JsonText) (env : Env) (client_id : ℤ) where
  -- The state in which the archive is written, before the id is counted up.
  abbrev pub noted : Range → TaskManager json.Text → TaskManager json.Text
  noted r t = record t { tasks = emplace t.task_id_current (new_task env client_id r) t.tasks }

  pub noted-pending :
      (m : ℤ) (r : Range) (t : TaskManager json.Text)
      → IsValid t
      → pending m (noted r t) ≡ inside m r + pending m t
  unfolding pending new_task
  noted-pending m r t v = omega (
    arith,
    cover-emplace m t.task_id_current (new_task env client_id r) t.tasks
        (find-AllBelow t.task_id_current t.task_id_current t.tasks (omega arith) v.fresh),
  )

  pub assign_range-pending :
      (m : ℤ) (r : Range) (t : TaskManager json.Text)
      → IsValid t
      → pending m (assign_range json env client_id r t).0 ≡ inside m r + pending m t
  unfolding assign_range pending
  assign_range-pending m r t v = ground (
    arith,
    write_if_due-SameTasks json env (noted r t),
    SameTasks-pending m (write_if_due-SameTasks json env (noted r t)),
    noted-pending m r t v,
  )

  pub assign_range-IsValid :
      (r : Range) (t : TaskManager json.Text)
      → IsValid t
      → IsValid (assign_range json env client_id r t).0
  unfolding assign_range
  assign_range-IsValid r t v =
      let next = t.task_id_current +ℤ pos 1 in
      let up : t.task_id_current <ℤ next = omega (arith, +ℤ_parts t.task_id_current (pos 1)) in
      ground (
        arith,
        write_if_due-SameTasks json env (noted r t),
        emplace-IsOrdered t.task_id_current (new_task env client_id r) t.tasks v.ordered,
        emplace-AllBelow next t.task_id_current (new_task env client_id r) t.tasks up
            (AllBelow-mono t.task_id_current next t.tasks (omega arith) v.fresh),
      )

  pub assign_range-reply :
      (r : Range) (t : TaskManager json.Text)
      → (assign_range json env client_id r t).1
        ≡ assigned (record { task_id = t.task_id_current; mid_start = r.0; mid_end = r.1 })
  unfolding assign_range
  assign_range-reply r t = ground (arith, write_if_due-SameTasks json env (noted r t))

  pub assign_range-find :
      (r : Range) (t : TaskManager json.Text)
      → IsValid t
      → let (u, reply) = assign_range json env client_id r t in
        (reply ≡ assigned (record { task_id = t.task_id_current; mid_start = r.0; mid_end = r.1 }))
        × (find t.task_id_current t.tasks ≡ none)
        × (find t.task_id_current u.tasks ≡ some (new_task env client_id r))
  unfolding assign_range
  assign_range-find r t v =
      let fresh = find-AllBelow t.task_id_current t.task_id_current t.tasks (omega arith) v.fresh in
      ground (
        arith,
        write_if_due-SameTasks json env (noted r t),
        fresh,
        ==ℤ_refl t.task_id_current,
        find-emplace t.task_id_current t.task_id_current (new_task env client_id r) t.tasks
            v.ordered,
      )

  pub assign_range-mid_current :
      (r : Range) (t : TaskManager json.Text)
      → (assign_range json env client_id r t).0.mid_current ≡ t.mid_current
  unfolding assign_range
  assign_range-mid_current r t = ground (arith, write_if_due-SameTasks json env (noted r t))
