-- ===== src/Server/TaskManager/Handout.antt =====
-- `getTask`: which ids it hands out, and what becomes of the rest.
use bili_user_spider.Prelude.{
  ◌+◌, ◌≡◌, ◌⊎◌, refl, [], none, some, true, false, arith, ℤ, ◌+ℤ◌, ◌-ℤ◌, ◌<ℤ◌, ◌≤ℤ◌, Option-cases,
  Bool-cases, inl, inr,
}
use bili_user_spider.Prelude.OrdMap.{find}
use bili_user_spider.Server.Json.{JsonText}
use bili_user_spider.Server.Status.{server_stopped, no_task_avail}
use bili_user_spider.Server.TaskManager.{
  Range, TaskManager, Env, refused, assigned, next_range, take_range, new_task, assign_range,
  get_task,
}
use bili_user_spider.Server.TaskManager.Cover.{pending}
use bili_user_spider.Prelude.Ranges.{inside_empty}
use bili_user_spider.Server.TaskManager.Valid.{IsValid}
use bili_user_spider.Server.TaskManager.Assign.{
  Fits, Picks, take_range-pending, take_range-none, take_range-Picks, take_range-ids, pending-drop,
  take_range-IsValid, assign_range-pending, assign_range-IsValid, assign_range-find,
  assign_range-mid_current,
}

module _ (json : JsonText) (env : Env) (client_id count : ℤ) where
  get_task-assign_range :
      (t : TaskManager json.Text)
      → env.is_running ≡ true
      → {r : Range} {u : TaskManager json.Text} → take_range count t ≡ some (r, u)
      → get_task json env client_id count t ≡ assign_range json env client_id r u
  unfolding get_task
  get_task-assign_range t running h = ground arith

  -- A task that is handed out takes its ids from where they waited, and puts them among the
  -- assigned ones: no id is lost or doubled, as long as the request fits.
  pub get_task-pending :
      (m : ℤ) (t : TaskManager json.Text)
      → IsValid t
      → Fits count t
      → pending m (get_task json env client_id count t).0 ≡ pending m t
  unfolding get_task
  get_task-pending m t v f = elim (Option-cases (take_range count t)) [
    | inl e ↦ rw (e, get_task) (ground arith)
    | inr ((r, u), e) ↦
        rw (e, get_task)
          (ground (
            arith,
            take_range-pending m count t t.tasks_recycled refl f e,
            assign_range-pending json env client_id m r u (take_range-IsValid count t v e),
          ))
  ]

  pub get_task-IsValid :
      (t : TaskManager json.Text) → IsValid t → IsValid (get_task json env client_id count t).0
  unfolding get_task
  get_task-IsValid t v = elim (Option-cases (take_range count t)) [
    | inl e ↦ rw (e, get_task) (ground arith)
    | inr ((r, u), e) ↦
        rw (e, get_task)
          (ground
            (arith, assign_range-IsValid json env client_id r u (take_range-IsValid count t v e)))
  ]

  get_task-given :
      (t : TaskManager json.Text)
      → IsValid t
      → env.is_running ≡ true
      → {r : Range} {u : TaskManager json.Text} → take_range count t ≡ some (r, u)
      → let (w, reply) = get_task json env client_id count t in
        (reply ≡ assigned (record { task_id = t.task_id_current; mid_start = r.0; mid_end = r.1 }))
        × (find t.task_id_current t.tasks ≡ none)
        × (find t.task_id_current w.tasks ≡ some (new_task env client_id r))
  get_task-given t v running {r} {u} e = ground (
    arith,
    get_task-assign_range t running e,
    take_range-ids count t e,
    assign_range-find json env client_id r u (take_range-IsValid count t v e),
  )

  -- The reply tells why: a stopped server refuses, a server with nothing to hand out says so, and
  -- otherwise the task in the reply is new and is recorded for the client with its deadline.
  pub get_task-reply :
      (t : TaskManager json.Text)
      → IsValid t
      → let (u, reply) = get_task json env client_id count t in
        ((env.is_running ≡ false) × (u ≡ t) × (reply ≡ refused server_stopped))
        ⊎ ((env.is_running ≡ true)
            × (t.tasks_recycled ≡ [])
            × (t.mid_end ≤ℤ t.mid_current)
            × (u ≡ t)
            × (reply ≡ refused no_task_avail))
        ⊎ ((r : Range) × (env.is_running ≡ true)
            × Picks count t t.tasks_recycled r
            × (reply
                ≡ assigned (record { task_id = t.task_id_current; mid_start = r.0; mid_end = r.1 }))
            × (find t.task_id_current t.tasks ≡ none)
            × (find t.task_id_current u.tasks ≡ some (new_task env client_id r)))
  unfolding get_task
  get_task-reply t v = elim (Bool-cases env.is_running) [
    | inr stopped ↦ inl (ground arith)
    | inl running ↦ elim (Option-cases (take_range count t)) [
      | inl e ↦ inr (inl (ground (arith, take_range-none count t e)))
      | inr ((r, u), e) ↦
          let facts = get_task-given t v running e in
          inr (
            inr (
              r,
              running,
              take_range-Picks count t t.tasks_recycled refl e,
              facts.0,
              facts.1,
              facts.2,
            ))
    ]
  ]

module _ (json : JsonText) (env : Env) (client_id count : ℤ) (t : TaskManager json.Text)
    (valid : IsValid t) (running : env.is_running ≡ true) (none_recycled : t.tasks_recycled ≡ [])
    (left : t.mid_current <ℤ t.mid_end) (past : t.mid_end <ℤ t.mid_current +ℤ count) where
  tail :
      take_range count t
      ≡ some ((t.mid_current, t.mid_end -ℤ t.mid_current), record t { mid_current = t.mid_end })
  unfolding take_range next_range
  tail = ground arith

  -- The last request: the end of the task is the number of ids that are left, not `mid_end`.
  pub get_task-tail :
      ((get_task json env client_id count t).1
        ≡ assigned (record {
          task_id = t.task_id_current;
          mid_start = t.mid_current;
          mid_end = t.mid_end -ℤ t.mid_current;
        }))
      × ((get_task json env client_id count t).0.mid_current ≡ t.mid_end)
  get_task-tail = ground (
    arith,
    get_task-assign_range json env client_id count t running tail,
    assign_range-find json env client_id (t.mid_current, t.mid_end -ℤ t.mid_current)
        (record t { mid_current = t.mid_end })
        (record { ordered = valid.ordered; fresh = valid.fresh }),
    assign_range-mid_current json env client_id (t.mid_current, t.mid_end -ℤ t.mid_current)
        (record t { mid_current = t.mid_end }),
  )

  -- Where the ids that are left are no more than those before them, the last request loses every one.
  pub get_task-tail_lost :
      (m : ℤ)
      → t.mid_end -ℤ t.mid_current ≤ℤ t.mid_current
      → t.mid_current ≤ℤ m
      → m <ℤ t.mid_end
      → pending m (get_task json env client_id count t).0 + 1 ≡ pending m t
  get_task-tail_lost m short lo hi = ground (
    arith,
    get_task-assign_range json env client_id count t running tail,
    assign_range-pending json env client_id m (t.mid_current, t.mid_end -ℤ t.mid_current)
        (record t { mid_current = t.mid_end })
        (record { ordered = valid.ordered; fresh = valid.fresh }),
    inside_empty m t.mid_current (t.mid_end -ℤ t.mid_current) short,
    pending-drop m t lo hi,
  )
