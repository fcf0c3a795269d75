-- ===== src/Server/TaskManager/Machine/Laws.antt =====
-- No call of the task manager leaves the numbers of an `int`.
use mathlib.Core.Path.{subst}
use bili_user_spider.Prelude.{
  ℕ, suc, ◌≡◌, refl, List, [], ◌∷◌, ◌++◌, some, Bool, arith, ℤ, pos, ◌+ℤ◌, ◌≤ℤ◌, +ℤ_parts, -ℤ_parts,
  Option-cases, inl, inr, length,
}
use bili_user_spider.Prelude.OrdMap.{OrdMap, emplace, erase, erase_if}
use bili_user_spider.Server.Json.{JsonText}
use bili_user_spider.Server.TaskManager.{
  Range, BiliTask, range, TaskManager, Env, task_ranges, recycle_if, recycle_all, next_range,
  take_range, new_task, assign_range, get_task, clear_task, commit, recycle,
}
use bili_user_spider.Server.TaskManager.Valid.{SameTasks, write_if_due-SameTasks}
use bili_user_spider.Server.TaskManager.Assign.{noted}
use bili_user_spider.Server.TaskManager.Runs.{Call, gets, commits, recycles, step, run}
use bili_user_spider.Server.TaskManager.Machine.{
  int_max, AllInt, IsNat, IntRange, IntRanges, choice_sums, log_sums, get_task_sums, call_sums,
  run_sums,
}
use bili_user_spider.Server.TaskManager.Machine.Number.{
  TasksFit, recycle_sums-AllInt, step-TasksFit,
}

-- The largest count that `task_get` passes on.
abbrev pub max_count : ℤ
max_count = pos 1000

-- A state from which `k` more calls stay within `int`: no number is negative, the end of the range
-- leaves room for one request more, and the next id for `k` tasks.
pub record HasRoom {Text : Type 0} (k : ℕ) (t : TaskManager Text) : Type 0 where
  pub start : IsNat t.mid_start
  pub current : IsNat t.mid_current
  pub end : IsNat t.mid_end
  pub room : t.mid_end +ℤ max_count ≤ℤ int_max
  pub next_id : pos 0 ≤ℤ t.task_id_current
  pub ids : t.task_id_current +ℤ pos k ≤ℤ int_max
  pub tasks : IntRanges (task_ranges t.tasks)
  pub recycled : IntRanges t.tasks_recycled

AllInt-append : (xs ys : List ℤ) → AllInt xs → AllInt ys → AllInt (xs ++ ys)
AllInt-append [] ys h k = k
AllInt-append (x ∷ xs) ys h k = (h.0, AllInt-append xs ys h.1 k)

IntRanges-append : (rs ss : List Range) → IntRanges rs → IntRanges ss → IntRanges (rs ++ ss)
IntRanges-append [] ss h k = k
IntRanges-append (r ∷ rs) ss h k = (h.0, IntRanges-append rs ss h.1 k)

emplace-IntRanges :
    (k : ℤ) (task : BiliTask) (m : OrdMap BiliTask)
    → IntRange (range task)
    → IntRanges (task_ranges m)
    → IntRanges (task_ranges (emplace k task m))
unfolding emplace
emplace-IntRanges k task [] h v = (h, tt)
emplace-IntRanges k task ((j, w) ∷ m) h v = ground (arith, emplace-IntRanges k task m h v.1)

erase-IntRanges :
    (k : ℤ) (m : OrdMap BiliTask) → IntRanges (task_ranges m) → IntRanges (task_ranges (erase k m))
unfolding erase
erase-IntRanges k [] v = tt
erase-IntRanges k ((j, w) ∷ m) v = ground (arith, erase-IntRanges k m v.1)

erase_if-IntRanges :
    (p : BiliTask → Bool) (m : OrdMap BiliTask)
    → IntRanges (task_ranges m)
    → IntRanges (task_ranges (erase_if p m))
unfolding erase_if
erase_if-IntRanges p [] v = tt
erase_if-IntRanges p ((j, w) ∷ m) v = ground (arith, erase_if-IntRanges p m v.1)

recycle_if-IntRanges :
    (p : BiliTask → Bool) (m : OrdMap BiliTask)
    → IntRanges (task_ranges m)
    → IntRanges (recycle_if p m)
unfolding recycle_if
recycle_if-IntRanges p [] v = tt
recycle_if-IntRanges p ((j, w) ∷ m) v = ground (arith, recycle_if-IntRanges p m v.1)

module _ {Text : Type 0} where
  SameTasks-HasRoom : (k : ℕ) {t u : TaskManager Text} → SameTasks t u → HasRoom k t → HasRoom k u
  SameTasks-HasRoom k s v = ground arith

  HasRoom-fewer : (k : ℕ) {t : TaskManager Text} → HasRoom (suc k) t → HasRoom k t
  HasRoom-fewer k {t} v = record {
    start = v.start;
    current = v.current;
    end = v.end;
    room = v.room;
    next_id = v.next_id;
    tasks = v.tasks;
    recycled = v.recycled;
    ids = omega (
      arith,
      v.ids,
      +ℤ_parts t.task_id_current (pos k),
      +ℤ_parts t.task_id_current (pos (suc k)),
    );
  }

  recycle_all-HasRoom :
      (k : ℕ) (p : BiliTask → Bool) {t : TaskManager Text}
      → HasRoom k t
      → HasRoom k (recycle_all p t)
  unfolding recycle_all
  recycle_all-HasRoom k p {t} v = record {
    start = v.start;
    current = v.current;
    end = v.end;
    room = v.room;
    next_id = v.next_id;
    ids = v.ids;
    tasks = erase_if-IntRanges p t.tasks v.tasks;
    recycled =
        IntRanges-append t.tasks_recycled (recycle_if p t.tasks) v.recycled
          (recycle_if-IntRanges p t.tasks v.tasks);
  }

  -- The range that is chosen, and the sums on the way to it.
  choice_sums-AllInt :
      (k : ℕ) (count : ℤ) (t : TaskManager Text)
      → pos 0 ≤ℤ count
      → count ≤ℤ max_count
      → HasRoom k t
      → AllInt (choice_sums count t)
  unfolding choice_sums
  choice_sums-AllInt k count t lo hi v = ground (
    arith,
    v.start,
    v.current,
    v.end,
    v.room,
    +ℤ_parts t.mid_current count,
    +ℤ_parts t.mid_end max_count,
    -ℤ_parts t.mid_end t.mid_current,
  )

  log_sums-AllInt : (k : ℕ) (t : TaskManager Text) → HasRoom (suc k) t → AllInt (log_sums t)
  unfolding log_sums
  log_sums-AllInt k t v = ground (
    arith,
    v.start,
    v.current,
    v.end,
    v.ids,
    v.next_id,
    +ℤ_parts t.task_id_current (pos 1),
    +ℤ_parts t.task_id_current (pos (suc k)),
    -ℤ_parts t.mid_current t.mid_start,
    -ℤ_parts t.mid_end t.mid_start,
  )

  next_range-HasRoom :
      (k : ℕ) (count : ℤ) (t : TaskManager Text)
      → pos 0 ≤ℤ count
      → count ≤ℤ max_count
      → t.mid_current ≤ℤ t.mid_end
      → HasRoom k t
      → IntRange (next_range count t).0 × HasRoom k (next_range count t).1
  unfolding next_range
  next_range-HasRoom k count t lo hi le v = ground (
    arith,
    v.start,
    v.current,
    v.end,
    v.room,
    +ℤ_parts t.mid_current count,
    +ℤ_parts t.mid_end max_count,
    -ℤ_parts t.mid_end t.mid_current,
  )

  take_range-HasRoom :
      (k : ℕ) (count : ℤ) (t : TaskManager Text) (rs : List Range)
      → t.tasks_recycled ≡ rs
      → pos 0 ≤ℤ count
      → count ≤ℤ max_count
      → HasRoom k t
      → {r : Range} {u : TaskManager Text} → take_range count t ≡ some (r, u)
      → IntRange r × HasRoom k u
  unfolding take_range
  take_range-HasRoom k count t [] e lo hi v h = ground (arith, next_range-HasRoom k count t lo hi)
  take_range-HasRoom k count t (x ∷ rs) e lo hi v h =
      let front : IntRanges (x ∷ rs) = subst IntRanges e v.recycled in ground (arith, front)

module _ (json : JsonText) (env : Env) where
  noted-HasRoom :
      (k : ℕ) (client_id : ℤ) (r : Range) (t : TaskManager json.Text)
      → IntRange r
      → HasRoom k t
      → HasRoom k (noted json env client_id r t)
  unfolding new_task
  noted-HasRoom k client_id r t i v = record {
    start = v.start;
    current = v.current;
    end = v.end;
    room = v.room;
    next_id = v.next_id;
    ids = v.ids;
    tasks = emplace-IntRanges t.task_id_current (new_task env client_id r) t.tasks i v.tasks;
    recycled = v.recycled;
  }

  -- A state whose next id is one further has room for one call less.
  next-HasRoom :
      (k : ℕ) (t : TaskManager json.Text)
      → HasRoom (suc k) t
      → HasRoom k (record t { task_id_current = t.task_id_current +ℤ pos 1 })
  next-HasRoom k t v = record {
    start = v.start;
    current = v.current;
    end = v.end;
    room = v.room;
    next_id = omega (arith, v.next_id, +ℤ_parts t.task_id_current (pos 1));
    ids = omega (
      arith,
      v.ids,
      +ℤ_parts t.task_id_current (pos 1),
      +ℤ_parts (t.task_id_current +ℤ pos 1) (pos k),
      +ℤ_parts t.task_id_current (pos (suc k)),
    );
    tasks = v.tasks;
    recycled = v.recycled;
  }

  assign_range-HasRoom :
      (k : ℕ) (client_id : ℤ) (r : Range) (t : TaskManager json.Text)
      → IntRange r
      → HasRoom (suc k) t
      → HasRoom k (assign_range json env client_id r t).0
  unfolding assign_range
  assign_range-HasRoom k client_id r t i v = next-HasRoom k _ (
      SameTasks-HasRoom (suc k) (write_if_due-SameTasks json env (noted json env client_id r t))
        (noted-HasRoom (suc k) client_id r t i v))

  get_task-HasRoom :
      (k : ℕ) (client_id count : ℤ) (t : TaskManager json.Text)
      → pos 0 ≤ℤ count
      → count ≤ℤ max_count
      → HasRoom (suc k) t
      → HasRoom k (get_task json env client_id count t).0
  unfolding get_task
  get_task-HasRoom k client_id count t lo hi v = elim (Option-cases (take_range count t)) [
    | inl e ↦ rw (e, get_task) (ground (arith, HasRoom-fewer k v))
    | inr ((r, u), e) ↦
        let taken = take_range-HasRoom (suc k) count t t.tasks_recycled refl lo hi v e in
        rw (e, get_task)
          (ground (arith, HasRoom-fewer k v, assign_range-HasRoom k client_id r u taken.0 taken.1))
  ]

  get_task_sums-AllInt :
      (k : ℕ) (count : ℤ) (t : TaskManager json.Text)
      → pos 0 ≤ℤ count
      → count ≤ℤ max_count
      → HasRoom (suc k) t
      → AllInt (get_task_sums env count t)
  unfolding get_task_sums
  get_task_sums-AllInt k count t lo hi v =
      let choice = choice_sums-AllInt (suc k) count t lo hi v in
      elim (Option-cases (take_range count t)) [
        | inl e ↦ rw (e, get_task_sums) (ground (arith, choice))
        | inr ((r, u), e) ↦
            let taken = take_range-HasRoom (suc k) count t t.tasks_recycled refl lo hi v e in
            let all =
              AllInt-append (choice_sums count t) (log_sums u) choice
                (log_sums-AllInt k u taken.1) in
            rw (e, get_task_sums) (ground (arith, all))
      ]

module _ (json : JsonText) where
  clear_task-HasRoom :
      (k : ℕ) (client_id task_id : ℤ) (t : TaskManager json.Text)
      → HasRoom k t
      → HasRoom k (clear_task json client_id task_id t)
  unfolding clear_task
  clear_task-HasRoom k client_id task_id t v =
      let erased : HasRoom k (record t { tasks = erase task_id t.tasks }) = record {
        start = v.start;
        current = v.current;
        end = v.end;
        room = v.room;
        next_id = v.next_id;
        ids = v.ids;
        tasks = erase-IntRanges task_id t.tasks v.tasks;
        recycled = v.recycled;
      } in
      ground (arith, erased)

  -- The counts that the requests of a run pass on, as far as `task_get` cuts them.
  abbrev pub CountFits : Env × Call → Type 0
  CountFits (env, gets client_id count) = (pos 0 ≤ℤ count) × (count ≤ℤ max_count)
  CountFits _ = Unit {0}

  abbrev pub CountsFit : List (Env × Call) → Type 0
  CountsFit [] = Unit {0}
  CountsFit (c ∷ cs) = CountFits c × CountsFit cs

  step-HasRoom :
      (k : ℕ) (t : TaskManager json.Text) (c : Env × Call)
      → CountFits c
      → HasRoom (suc k) t
      → HasRoom k (step json t c)
  unfolding step commit recycle
  step-HasRoom k t (env, gets client_id count) f v =
      get_task-HasRoom json env k client_id count t f.0 f.1 v
  step-HasRoom k t (env, commits client_id task_id) f v =
      SameTasks-HasRoom k (write_if_due-SameTasks json env _)
        (recycle_all-HasRoom k _ (clear_task-HasRoom k client_id task_id t (HasRoom-fewer k v)))
  step-HasRoom k t (env, recycles client_id) f v =
      SameTasks-HasRoom k (write_if_due-SameTasks json env _)
        (recycle_all-HasRoom k _ (HasRoom-fewer k v))

  call_sums-AllInt :
      (k : ℕ) (t : TaskManager json.Text) (c : Env × Call)
      → CountFits c
      → HasRoom (suc k) t
      → TasksFit (suc k) t
      → AllInt (call_sums json t c)
  unfolding call_sums
  call_sums-AllInt k t (env, gets client_id count) f v fit =
      get_task_sums-AllInt json env k count t f.0 f.1 v
  call_sums-AllInt k t (env, commits client_id task_id) f v fit = tt
  call_sums-AllInt k t (env, recycles client_id) f v fit =
      recycle_sums-AllInt client_id (pos 0) t.tasks (omega arith)
        (omega (arith, fit, +ℤ_parts (pos 0) (pos (length t.tasks))))

  -- From a state with room for a run of calls, in its range, its next id and the number of its
  -- tasks, whose counts are from 0 to 1000: no sum or difference of int that the calls compute, the
  -- count of recycle included, leaves the 32 bits of an int, and behind the run neither does an end
  -- of the range or of a task or a recycled range, nor the next id.
  pub run_sums-AllInt :
      (t : TaskManager json.Text) (cs : List (Env × Call))
      → CountsFit cs
      → HasRoom (length cs) t
      → TasksFit (length cs) t
      → AllInt (run_sums json t cs) × HasRoom 0 (run json t cs)
  unfolding run_sums run
  run_sums-AllInt t [] f v fit = (tt, v)
  run_sums-AllInt t (c ∷ cs) f v fit =
      let rest =
        run_sums-AllInt (step json t c) cs f.1 (step-HasRoom (length cs) t c f.0 v)
          (step-TasksFit json (length cs) t c fit) in
      (
        AllInt-append (call_sums json t c) (run_sums json (step json t c) cs)
            (call_sums-AllInt (length cs) t c f.0 v fit) rest.0,
        rest.1,
      )
