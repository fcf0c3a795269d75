-- ===== src/Server/TaskManager.antt =====
-- The server's task manager, BiliUserSpiderServer/src/manager/task_manager.h and .cpp, and
-- task/task.h. `getTask`, `commit` and `recycle` hold the mutex for the whole body, so each is one
-- function from the state before to the state after; the others do not lock, and are single steps
-- here too. What the method reads of its surroundings is an `Env`.
pub mod Cover
pub mod Valid
pub mod Assign
pub mod Handout
pub mod Commit
pub mod Runs
pub mod Machine
pub mod Archive
use bili_user_spider.Prelude.{
  List, [], ◌∷◌, ◌++◌, map, Option, none, some, Bool, true, false, if◌then◌else◌, ℤ, pos, ◌+ℤ◌,
  ◌-ℤ◌, ltb_ℤ, leb_ℤ, ◌==ℤ◌,
}
use bili_user_spider.Prelude.OrdMap.{OrdMap, find, emplace, erase, erase_if}
use bili_user_spider.Server.Json.{TaskNode, Document, JsonText}
use bili_user_spider.Server.Status.{StatusCode, server_stopped, no_task_avail}

-- From the first user id to the id behind the last.
abbrev pub Range : Type 0
Range = ℤ × ℤ

pub record BiliTask : Type 0 where
  pub client_id : ℤ
  pub mid_start : ℤ
  pub mid_end : ℤ
  pub ttl : ℤ

abbrev pub range : BiliTask → Range
range task = (task.mid_start, task.mid_end)

-- `data_file` is the text of the file at `data_file_`, `none` where there is no file.
pub record TaskManager (Text : Type 0) : Type 0 where
  pub tasks : OrdMap BiliTask
  pub tasks_recycled : List Range
  pub task_id_current : ℤ
  pub mid_start : ℤ
  pub mid_current : ℤ
  pub mid_end : ℤ
  pub data_file : Option Text
  pub last_time_write_to_file : ℤ

-- `time(NULL)`, `g_isRunning`, `g_svrConfig.main_task_timeout`, and whether the archive can be
-- opened for writing.
pub record Env : Type 0 where
  pub now : ℤ
  pub is_running : Bool
  pub main_task_timeout : ℤ
  pub can_open : Bool

pub record Assignment : Type 0 where
  pub task_id : ℤ
  pub mid_start : ℤ
  pub mid_end : ℤ

unfoldable pub new_task : Env → ℤ → Range → BiliTask
new_task env client_id (start, end) = record {
  client_id = client_id;
  mid_start = start;
  mid_end = end;
  ttl = env.now +ℤ env.main_task_timeout;
}

-- `refused` carries the code that is returned, `assigned` the out parameters beside `NO_ERROR`.
pub data GetTask : Type 0 where
  refused : StatusCode → GetTask
  assigned : Assignment → GetTask

-- The loop that moves the tasks with a property to the recycled ones, in the order of their ids.
unfoldable pub recycle_if : (BiliTask → Bool) → OrdMap BiliTask → List Range
recycle_if p [] = []
recycle_if p ((k, task) ∷ m) = if p task then range task ∷ recycle_if p m else recycle_if p m

module _ {Text : Type 0} where
  unfoldable pub recycle_all : (BiliTask → Bool) → TaskManager Text → TaskManager Text
  recycle_all p t = record t {
    tasks = erase_if p t.tasks;
    tasks_recycled = t.tasks_recycled ++ recycle_if p t.tasks;
  }

  -- The next `count` ids of the range that is not assigned yet.
  unfoldable pub next_range : ℤ → TaskManager Text → Range × TaskManager Text
  next_range count t =
      if ltb_ℤ t.mid_end (t.mid_current +ℤ count)
      then ((t.mid_current, t.mid_end -ℤ t.mid_current), record t { mid_current = t.mid_end })
      else (
        (t.mid_current, t.mid_current +ℤ count),
        record t { mid_current = t.mid_current +ℤ count },
      )

  -- Recycled ranges go first; `none` is `NO_TASK_AVAIL`.
  unfoldable pub take_range : ℤ → TaskManager Text → Option (Range × TaskManager Text)
  take_range count t = elim t.tasks_recycled [
    | front ∷ rest ↦ some (front, record t { tasks_recycled = rest })
    | [] ↦ if leb_ℤ t.mid_end t.mid_current then none else some (next_range count t)
  ]

  pub get_progress : TaskManager Text → ℤ × ℤ × ℤ
  get_progress t = (t.mid_start, t.mid_end, t.mid_current)

  unfoldable pub set_range : Bool → ℤ → ℤ → ℤ → TaskManager Text → TaskManager Text
  set_range is_running mid_start mid_end mid_current t =
      if is_running
      then record t { mid_end = mid_end }
      else record t { mid_end = mid_end; mid_start = mid_start; mid_current = mid_current }

unfoldable pub node : Range → TaskNode
node (start, end) = record { start = some start; end = some end }

-- A Json::Value to which nothing is appended stays null.
unfoldable pub node_list : List Range → Option (List TaskNode)
node_list [] = none
node_list (r ∷ rs) = some (map node (r ∷ rs))

abbrev pub task_ranges : OrdMap BiliTask → List Range
task_ranges = map (λ entry. range entry.1)

-- The loop over `tasks` of the archive, with `tasks_recycled_` so far; `none` where a key is missing.
unfoldable pub read_nodes : List Range → List TaskNode → List Range × Bool
read_nodes acc [] = (acc, true)
read_nodes acc (n ∷ ns) = elim n.start [
  | none ↦ (acc, false)
  | some start ↦ elim n.end [
    | none ↦ (acc, false)
    | some end ↦ read_nodes (acc ++ (start, end) ∷ []) ns
  ]
]

module _ (json : JsonText) where
  unfoldable pub archive : TaskManager json.Text → Document
  archive t = record {
    task_id_current = some t.task_id_current;
    mid_current = some t.mid_current;
    mid_end = some t.mid_end;
    tasks = node_list (task_ranges t.tasks ++ t.tasks_recycled);
  }

  unfoldable pub write_data_to_file : Bool → TaskManager json.Text → TaskManager json.Text × Bool
  write_data_to_file can_open t =
      if can_open
      then (record t { data_file = some (json.to_styled_string (archive t)) }, true)
      else (t, false)

  -- At most one write in three seconds.
  unfoldable pub write_if_due : Env → TaskManager json.Text → TaskManager json.Text
  write_if_due env t =
      if ltb_ℤ (pos 3) (env.now -ℤ t.last_time_write_to_file)
      then (write_data_to_file env.can_open (record t { last_time_write_to_file = env.now })).0
      else t

  -- From the choice of the range to the end of `getTask`.
  unfoldable pub assign_range :
      Env → ℤ → Range → TaskManager json.Text → TaskManager json.Text × GetTask
  assign_range env client_id r t =
      let t' =
        write_if_due env
          (record t { tasks = emplace t.task_id_current (new_task env client_id r) t.tasks }) in
      (
        record t' { task_id_current = t'.task_id_current +ℤ pos 1 },
        assigned (record { task_id = t'.task_id_current; mid_start = r.0; mid_end = r.1 }),
      )

  unfoldable pub get_task : Env → ℤ → ℤ → TaskManager json.Text → TaskManager json.Text × GetTask
  get_task env client_id count t =
      if env.is_running
      then elim (take_range count t) [
        | none ↦ (t, refused no_task_avail)
        | some (r, t') ↦ assign_range env client_id r t'
      ]
      else (t, refused server_stopped)

  -- The first part of `commit`: the task goes if it is there and the client holds it.
  unfoldable pub clear_task : ℤ → ℤ → TaskManager json.Text → TaskManager json.Text
  clear_task client_id task_id t = elim (find task_id t.tasks) [
    | none ↦ t
    | some task ↦
        if task.client_id ==ℤ client_id then record t { tasks = erase task_id t.tasks } else t
  ]

  unfoldable pub commit : Env → ℤ → ℤ → TaskManager json.Text → TaskManager json.Text
  commit env client_id task_id t =
      write_if_due env
        (recycle_all (λ task. ltb_ℤ task.ttl env.now) (clear_task client_id task_id t))

  unfoldable pub recycle : Env → ℤ → TaskManager json.Text → TaskManager json.Text
  recycle env client_id t = write_if_due env (recycle_all (λ task. task.client_id ==ℤ client_id) t)

  -- The members that `readData` requires, then the unfinished tasks.
  unfoldable pub load_document : Document → TaskManager json.Text → TaskManager json.Text × Bool
  load_document d t = elim d.mid_current [
    | none ↦ (t, false)
    | some current ↦ elim d.mid_end [
      | none ↦ (t, false)
      | some end ↦ elim d.task_id_current [
        | none ↦ (t, false)
        | some next_id ↦
            let loaded = record t {
              mid_start = current;
              mid_current = current;
              mid_end = end;
              task_id_current = next_id;
            } in
            elim d.tasks [
              | none ↦ (loaded, true)
              | some nodes ↦
                  let (ranges, done) = read_nodes loaded.tasks_recycled nodes in
                  (record loaded { tasks_recycled = ranges }, done)
            ]
      ]
    ]
  ]

  unfoldable pub read_data : TaskManager json.Text → TaskManager json.Text × Bool
  read_data t = elim t.data_file [
    | none ↦ (t, false)
    | some text ↦ elim (json.parse text) [ none ↦ (t, false) | some d ↦ load_document d t ]
  ]
