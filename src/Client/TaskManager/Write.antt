-- ===== src/Client/TaskManager/Write.antt =====
-- Writing the buffers to the database and reporting main tasks to the server: the private methods
-- of BiliUserSpiderClient/src/manager/task_manager.cpp, with `MysqlInstance::exec` of
-- database/mysql_instance.cpp and `g_stop` of main.cpp. Integer division of the ids is that of
-- ids that are not negative.
use bili_user_spider.Prelude.{
  ℕ, zero, suc, ◌*◌, ◌/◌, ◌+◌, ◌-◌, List, [], ◌∷◌, ◌++◌, Option, none, some, Bool, true, false,
  ◌&&◌, if◌then◌else◌, length, ℤ, pos, pos_part, ◌+ℤ◌, ◌*ℤ◌, ◌==ℤ◌,
}
use bili_user_spider.Prelude.OrdMap.{OrdMap, find, erase, assign}
use bili_user_spider.Client.Types.{
  no_error, server_stopped, other_error, StopMode, smooth, force, UserInfo, is_completed, Table,
  Statement, insert_ok, insert_none, Outside,
}
use bili_user_spider.Client.TaskManager.{TaskManager}

abbrev pub records_per_query : ℕ
records_per_query = 128

abbrev pub records_per_table : ℕ
records_per_table = 2000000

-- The table of an id.
unfoldable pub table_of : ℤ → Table
table_of mid =
    let start = pos_part mid / records_per_table * records_per_table in
    record { start = pos (start / 10000); end = pos ((start + records_per_table) / 10000) }

unfoldable pub same_table : Table → Table → Bool
same_table a b = (a.start ==ℤ b.start) && (a.end ==ℤ b.end)

-- `tablesMap`: one row more, at the end of its table's rows.
unfoldable pub add_row {ℓ} :
    {A : Type ℓ}
    → (Table → Table → Bool)
    → Table
    → A
    → List (Table × List A)
    → List (Table × List A)
add_row name_lt table a [] = (table, a ∷ []) ∷ []
add_row name_lt table a ((other, rows) ∷ m) =
    if same_table table other
    then (other, rows ++ a ∷ []) ∷ m
    else (if name_lt table other
        then (table, a ∷ []) ∷ (other, rows) ∷ m
        else (other, rows) ∷ add_row name_lt table a m)

unfoldable pub add_rows {ℓ} :
    {A : Type ℓ}
    → (Table → Table → Bool)
    → (A → ℤ)
    → List A
    → List (Table × List A)
    → List (Table × List A)
add_rows name_lt mid_of [] m = m
add_rows name_lt mid_of (a ∷ rest) m =
    add_rows name_lt mid_of rest (add_row name_lt (table_of (mid_of a)) a m)

-- All rows of a buffer by table.
unfoldable pub tables_map {ℓ} :
    {A : Type ℓ}
    → (Table → Table → Bool)
    → (A → ℤ)
    → OrdMap (List A)
    → List (Table × List A)
    → List (Table × List A)
tables_map name_lt mid_of [] m = m
tables_map name_lt mid_of ((_, rows) ∷ buff) m =
    tables_map name_lt mid_of buff (add_rows name_lt mid_of rows m)

-- Rows in groups of at most `records_per_query`: `room` is what fits into the group at hand.
unfoldable pub chunks {ℓ} : {A : Type ℓ} → ℕ → List A → List A → List (List A)
chunks room group [] = elim group [ [] ↦ [] | x ∷ xs ↦ (x ∷ xs) ∷ [] ]
chunks zero group (a ∷ rest) = group ∷ chunks (records_per_query - 1) (a ∷ []) rest
chunks (suc room) group (a ∷ rest) = chunks room (group ++ a ∷ []) rest

unfoldable pub g_stop : {World : Type 0} → StopMode → TaskManager World → TaskManager World
g_stop smooth t = record t { should_stop = true }
g_stop force t = record t { should_stop = true; force_stop = true }

unfoldable pub stop_if_asked :
    {World : Type 0} → Option StopMode → TaskManager World → TaskManager World
stop_if_asked none t = t
stop_if_asked (some mode) t = g_stop mode t

module _ (out : Outside) where
  open out use {World, api_get_task, api_commit_task, mysql_is_bad, mysql_query, name_lt}

  -- `MysqlInstance::exec(sql, tries)`.
  unfoldable pub exec : ℕ → Statement → World → World × Bool
  exec zero sql w = (w, false)
  exec (suc tries) sql w =
      let (w', done) = mysql_query sql w in
      let again = exec tries sql w' in if done then (w', true) else again

  -- The private `writeOkToDb_` and `writeNoneToDb_` of one table: statement after statement.
  unfoldable pub write_chunks {ℓ} :
      {A : Type ℓ} → (List A → Statement) → List (List A) → World → World × Bool
  write_chunks insert [] w = (w, true)
  write_chunks insert (c ∷ cs) w =
      let (w', done) = exec 3 (insert c) w in
      let rest = write_chunks insert cs w' in if done then rest else (w', false)

  -- At most `tries` attempts for one table.
  unfoldable pub write_table {ℓ} :
      {A : Type ℓ} → ℕ → (List A → Statement) → List A → World → World × Bool
  write_table zero insert rows w = (w, false)
  write_table (suc tries) insert rows w =
      let (w', done) = write_chunks insert (chunks records_per_query [] rows) w in
      let again = write_table tries insert rows w' in if done then (w', true) else again

  -- All tables in turn, none of them where the client has to stop at once.
  unfoldable pub write_tables {ℓ} :
      {A : Type ℓ}
      → Bool
      → (Table → List A → Statement)
      → List (Table × List A)
      → World
      → World × Bool
  write_tables force_stop insert [] w = (w, true)
  write_tables force_stop insert ((table, rows) ∷ m) w =
      let (w', done) = write_table (if force_stop then 0 else 5) (insert table) rows w in
      let rest = write_tables force_stop insert m w' in if done then rest else (w', false)

  -- `commitMainTask_`: at most `tries` reports.
  unfoldable pub commit_main_task : ℕ → ℤ → TaskManager World → TaskManager World × Bool
  commit_main_task zero id t = (t, false)
  commit_main_task (suc tries) id t =
      let (w, answer) = api_commit_task id (t.commit_ok +ℤ t.commit_none) t.steps t.world in
      let t' = stop_if_asked answer.stop (record t { world = w; steps = answer.steps }) in
      let again = commit_main_task tries id t' in
      if t.force_stop then (t, false) else elim answer.code [
        | no_error ↦ (t', true)
        | server_stopped ↦ (g_stop smooth t', true)
        | other_error ↦ again
      ]

  -- One round of the loop behind both writes, for `n` rows: the main task is that much further, and
  -- is reported if it is complete. The result is false where the loop returns false.
  unfoldable pub settle_entry : ℤ → ℤ → TaskManager World → TaskManager World × Bool
  settle_entry id n t = elim (find id t.main_tasks) [
    | none ↦ (g_stop force t, false)
    | some main ↦
        let main' = record main { completed = main.completed +ℤ n } in
        let t' = record t { main_tasks = assign id main' t.main_tasks } in
        let (t'', reported) = commit_main_task 10 id t' in
        if is_completed main'
        then (if reported
            then (record t'' { main_tasks = erase id t''.main_tasks }, true)
            else (t'', false))
        else (t', true)
  ]

  -- The loop over the entries of the buffer that was written, and what is left of the buffer.
  unfoldable pub settle {ℓ} :
      {A : Type ℓ}
      → OrdMap (List A)
      → TaskManager World
      → TaskManager World × OrdMap (List A) × Bool
  settle [] t = (t, [], true)
  settle ((id, rows) ∷ buff) t =
      let (t', going) = settle_entry id (pos (length rows)) t in
      let rest = settle buff t' in if going then rest else (t', (id, rows) ∷ buff, false)

  unfoldable pub write_ok_to_db : TaskManager World → TaskManager World × Bool
  write_ok_to_db t =
      if mysql_is_bad t.world
      then (t, false)
      else (let (w, written) =
            write_tables t.force_stop insert_ok
              (tables_map name_lt (λ (info : UserInfo). info.mid) t.infos_buff []) t.world in
          let (t', left, done) = settle t.infos_buff (record t { world = w }) in
          if written
          then (record t' { infos_buff = left }, done)
          else (record t { world = w }, false))

  unfoldable pub write_none_to_db : TaskManager World → TaskManager World × Bool
  write_none_to_db t =
      if mysql_is_bad t.world
      then (t, false)
      else (let (w, written) =
            write_tables t.force_stop insert_none
              (tables_map name_lt (λ (mid : ℤ). mid) t.none_mids_buff []) t.world in
          let (t', left, done) = settle t.none_mids_buff (record t { world = w }) in
          if written
          then (record t' { none_mids_buff = left }, done)
          else (record t { world = w }, false))

  unfoldable pub flush : TaskManager World → TaskManager World
  flush t = (write_none_to_db (write_ok_to_db t).0).0

  -- `getMainTask_`: at most `tries` requests.
  unfoldable pub get_main_task : ℕ → TaskManager World → TaskManager World × Bool
  get_main_task zero t = (t, false)
  get_main_task (suc tries) t =
      let count = t.num_threads *ℤ t.steps.sub_task_step *ℤ t.steps.main_task_step_times in
      let (w, answer) =
        api_get_task count (t.commit_ok +ℤ t.commit_none) t.current_main_task t.steps t.world in
      let t' = record t { world = w; current_main_task = answer.main_task; steps = answer.steps } in
      let again = get_main_task tries t' in
      if t.should_stop then (t, false) else elim answer.code [
        | no_error ↦ (t', true)
        | server_stopped ↦ (t', false)
        | other_error ↦ again
      ]
