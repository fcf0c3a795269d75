-- ===== src/Server/TaskManager/Archive.antt =====
-- The archive data/task.json: what a restarted server reads of it.
use mathlib.Core.List.{append-nil, append_assoc}
use bili_user_spider.Prelude.{
  ◌≡◌, refl, ◌∙◌, List, [], ◌∷◌, ◌++◌, map, Option, some, true, arith, ℤ, pos, ◌-ℤ◌, ◌<ℤ◌,
}
use bili_user_spider.Server.Json.{Document, JsonText}
use bili_user_spider.Server.TaskManager.{
  Range, TaskManager, Env, assigned, node, node_list, task_ranges, read_nodes, archive,
  write_data_to_file, write_if_due, load_document, read_data, assign_range,
}
use bili_user_spider.Server.TaskManager.Assign.{noted, assign_range-reply}
use bili_user_spider.Server.TaskManager.Cover.{pending, cover, cover-append}

-- The task manager of a process that has just started, over the file of the one before.
unfoldable pub fresh : {Text : Type 0} → Option Text → TaskManager Text
fresh file = record {
  tasks = [];
  tasks_recycled = [];
  task_id_current = pos 0;
  mid_start = pos 0;
  mid_current = pos 0;
  mid_end = pos 0;
  data_file = file;
  last_time_write_to_file = pos 0;
}

read_nodes-node : (acc rs : List Range) → read_nodes acc (map node rs) ≡ (acc ++ rs, true)
unfolding read_nodes node
read_nodes-node acc [] = rw append-nil
read_nodes-node acc ((start, end) ∷ rs) =
    rw (read_nodes-node (acc ++ (start, end) ∷ []) rs, append_assoc)

-- What `readData` makes of the archive of a state: everything assigned or recycled is recycled.
unfoldable pub restarted : {Text : Type 0} → Option Text → TaskManager Text → TaskManager Text
restarted file t = record (fresh file) {
  tasks_recycled = task_ranges t.tasks ++ t.tasks_recycled;
  task_id_current = t.task_id_current;
  mid_start = t.mid_current;
  mid_current = t.mid_current;
  mid_end = t.mid_end;
}

restarted-pending :
    {Text : Type 0} (m : ℤ) (file : Option Text) (t : TaskManager Text)
    → pending m (restarted file t) ≡ pending m t
unfolding pending restarted fresh cover
restarted-pending m file t = omega (arith, cover-append m (task_ranges t.tasks) t.tasks_recycled)

module _ (json : JsonText)
    (parse_print : (d : Document) → json.parse (json.to_styled_string d) ≡ some d) where
  load_document-node_list :
      (t : TaskManager json.Text) (file : Option json.Text) (d : Document) (rs : List Range)
      → task_ranges t.tasks ++ t.tasks_recycled ≡ rs
      → d ≡ record {
        task_id_current = some t.task_id_current;
        mid_current = some t.mid_current;
        mid_end = some t.mid_end;
        tasks = node_list rs;
      }
      → load_document json d (fresh file) ≡ (restarted file t, true)
  unfolding load_document node_list fresh restarted
  load_document-node_list t file d [] e h = rw (h, e)
  load_document-node_list t file d (r ∷ rs) e h = rw (h, e) (rw (read_nodes-node [] (r ∷ rs)))

  read_data-parse :
      (text : json.Text) (d : Document)
      → json.parse text ≡ some d
      → read_data json (fresh (some text)) ≡ load_document json d (fresh (some text))
  unfolding read_data fresh
  read_data-parse text d h = rw (h, read_data)

  read_data-archive :
      (t : TaskManager json.Text)
      → let file = some (json.to_styled_string (archive json t)) in
        read_data json (fresh file) ≡ (restarted file t, true)
  unfolding archive
  read_data-archive t =
      read_data-parse (json.to_styled_string (archive json t)) (archive json t) (parse_print _)
      ∙ load_document-node_list t _ (archive json t) _ refl refl

  -- A server that is started on the archive of another takes over, if the JSON library reads what
  -- it writes: no id is lost or doubled, and the assigned tasks are handed out again.
  pub read_data-write_data_to_file :
      (m : ℤ) (t : TaskManager json.Text)
      → let file = (write_data_to_file json true t).0.data_file in
        (read_data json (fresh file) ≡ (restarted file t, true))
        × (pending m (read_data json (fresh file)).0 ≡ pending m t)
  unfolding write_data_to_file
  read_data-write_data_to_file m t =
      (read_data-archive t, rw (read_data-archive t) (restarted-pending m _ t))

  -- The state that a request writes.
  written : Env → ℤ → Range → TaskManager json.Text → TaskManager json.Text
  written env client_id r t = record (noted json env client_id r t) {
    last_time_write_to_file = env.now;
  }

  assign_range-archives :
      (env : Env) (client_id : ℤ) (r : Range) (t : TaskManager json.Text)
      → env.can_open ≡ true
      → pos 3 <ℤ env.now -ℤ t.last_time_write_to_file
      → (assign_range json env client_id r t).0.data_file
        ≡ some (json.to_styled_string (archive json (written env client_id r t)))
  unfolding assign_range write_if_due write_data_to_file written
  assign_range-archives env client_id r t opens due = ground arith

  -- `getTask` writes the archive before it counts the id up: a server that is started on what a
  -- request has written gives the id of that request's task to its next task.
  pub assign_range-reissue :
      (env later : Env) (client_id next_client : ℤ) (r s : Range) (t : TaskManager json.Text)
      → env.can_open ≡ true
      → pos 3 <ℤ env.now -ℤ t.last_time_write_to_file
      → let (u, reply) = assign_range json env client_id r t in
        let v = (read_data json (fresh u.data_file)).0 in
        (reply ≡ assigned (record { task_id = t.task_id_current; mid_start = r.0; mid_end = r.1 }))
        × ((assign_range json later next_client s v).1
            ≡ assigned (record { task_id = t.task_id_current; mid_start = s.0; mid_end = s.1 }))
  unfolding restarted written
  assign_range-reissue env later client_id next_client r s t opens due = (
    assign_range-reply json env client_id r t,
    rw (assign_range-archives env client_id r t opens due) (
        rw (read_data-archive (written env client_id r t))
          (assign_range-reply json later next_client s (restarted _ (written env client_id r t)))),
  )
