-- ===== src/Client/Tests.antt =====
-- The theorems on the client's task manager at concrete inputs.
use bili_user_spider.Prelude.{
  ℕ, ◌≤◌, ◌*◌, ◌≡◌, refl, length, List, [], ◌∷◌, none, true, false, arith, pos, negsuc, ◌-ℤ◌, ◌+ℤ◌,
  ◌+◌,
}
use bili_user_spider.Prelude.OrdMap.{find}
use bili_user_spider.Client.Types.{
  no_error, UserInfo, Table, MainTask, is_completed, Steps, Statement, Outside,
}
use bili_user_spider.Client.TaskManager.{TaskManager}
use bili_user_spider.Client.TaskManager.Write.{
  settle, settle_entry, commit_main_task, get_main_task, chunks, records_per_query,
}
use bili_user_spider.Client.TaskManager.Calls.{commit_sub_task, get_sub_task, next_main_task}
use bili_user_spider.Client.TaskManager.Rounds.{
  commit_sub_task-uncrawled, get_sub_task-uncrawled, next_main_task-uncrawled,
}
use bili_user_spider.Client.TaskManager.Records.{Recorded, get_sub_task-Recorded}
use bili_user_spider.Sql.{codes}
use bili_user_spider.Client.TaskManager.Sql.{ok_sql, ok_size, none_sql, none_size}
use bili_user_spider.Client.TaskManager.Sql.Fits.{AllSqlFit, chunks-AllSqlFit}
use bili_user_spider.Prelude.Ranges.{inside, occurrences}
use bili_user_spider.Client.TaskManager.Places.{uncrawled}
use bili_user_spider.Client.TaskManager.Settle.{rows_of, settled, settle-find}

abbrev pub main_task : MainTask
main_task = record { id = pos 4; mid_start = pos 1; mid_end = pos 13; completed = pos 7 }

abbrev steps : Steps
steps = record { sub_task_step = pos 5; main_task_step_times = pos 3 }

-- A server and a database that take everything; the state is the statements so far.
abbrev pub outside : Outside
outside = record {
  World = List Statement;
  api_get_task =
      λ count all main steps w. (w, record { code = no_error; main_task = main; steps = steps });
  api_commit_task = λ id all steps w. (w, record { code = no_error; steps = steps; stop = none });
  mysql_is_bad = λ w. false;
  mysql_query = λ sql w. (sql ∷ w, true);
  name_lt = λ a b. false;
}

-- Ids 1 to 12: 1 to 5 are written or buffered, 6 to 8 failed, a thread has 9 and 10.
abbrev pub working : TaskManager (List Statement)
working = record {
  commit_ok = pos 5;
  commit_none = pos 0;
  commit_error = pos 3;
  main_tasks = (pos 4, main_task) ∷ [];
  current_main_task = main_task;
  sub_tasks = (pos 1, record { main_task_id = pos 4; mids = pos 9 ∷ pos 10 ∷ [] }) ∷ [];
  current_mid = pos 11;
  current_sub_task_id = pos 2;
  infos_buff = [];
  none_mids_buff = (pos 4, pos 1 ∷ pos 2 ∷ pos 3 ∷ pos 4 ∷ pos 5 ∷ []) ∷ [];
  error_mids = (pos 4, pos 6 ∷ pos 7 ∷ pos 8 ∷ []) ∷ [];
  should_stop = false;
  force_stop = false;
  num_threads = pos 2;
  steps = steps;
  world = [];
}

settle-find_example :
    find (pos 4) (settle outside working.none_mids_buff working).0.main_tasks ≡ none
unfolding settle settle_entry find is_completed ◌-ℤ◌ ◌+ℤ◌ commit_main_task rows_of settled
settle-find_example =
    settle-find outside working.none_mids_buff working (pos 4) (tt, tt) (tt, tt) refl

commit_sub_task-uncrawled_example :
    uncrawled (pos 10) (commit_sub_task outside (pos 1) [] (pos 9 ∷ []) (pos 10 ∷ []) working) + 1
    ≡ uncrawled (pos 10) working + 1
unfolding occurrences find
commit_sub_task-uncrawled_example =
    commit_sub_task-uncrawled outside (pos 10) (pos 1) [] (pos 9 ∷ []) (pos 10 ∷ []) working
      (record { main_task_id = pos 4; mids = pos 9 ∷ pos 10 ∷ [] }) main_task refl refl

get_sub_task-uncrawled_example :
    uncrawled (pos 6) (get_sub_task outside working).0 ≡ uncrawled (pos 6) working
get_sub_task-uncrawled_example =
    get_sub_task-uncrawled outside (pos 6) working (omega arith, tt) (λ _. omega arith)

-- All ids of its main task are given out.
abbrev used_up : TaskManager (List Statement)
used_up = record working { current_mid = pos 13; error_mids = [] }

next_main_task-uncrawled_example :
    uncrawled (pos 6) (next_main_task outside used_up).0
    ≡ uncrawled (pos 6) used_up + inside (pos 6) (pos 1, pos 13)
unfolding get_main_task
next_main_task-uncrawled_example =
    next_main_task-uncrawled outside (pos 6) used_up (omega arith, tt) (omega arith) refl refl
      (omega arith)

get_sub_task-Recorded_example : Recorded working (get_sub_task outside working)
get_sub_task-Recorded_example = get_sub_task-Recorded outside working (omega arith, tt) (tt, tt)

-- A library that writes a backslash before every byte.
abbrev with_backslashes : List ℕ → List ℕ
with_backslashes [] = []
with_backslashes (c ∷ cs) = b'\\' ∷ c ∷ with_backslashes cs

length-with_backslashes : (cs : List ℕ) → length (with_backslashes cs) ≤ 2 * length cs
length-with_backslashes [] = omega arith
length-with_backslashes (c ∷ cs) = omega (arith, length-with_backslashes cs)

abbrev user : UserInfo
user = record {
  sex = pos 0;
  level = pos 5;
  vip_status = pos 0;
  vip_type = pos 0;
  official_type = negsuc 0;
  official_role = pos 0;
  is_deleted = pos 0;
  attention = pos 12;
  fans = pos 7;
  mid = pos 9;
  lid = negsuc 0;
  name = "it's me";
  face = "http://i0.hdslb.com/bfs/face/member/noface.jpg";
  sign = "";
  vip_label = "";
  official_desc = "";
  official_title = "";
}

abbrev first_table : Table
first_table = record { start = pos 0; end = pos 200 }

chunks-AllSqlFit_example :
    AllSqlFit (none_sql first_table) none_size (chunks records_per_query [] (pos 3 ∷ []))
    × AllSqlFit
        (ok_sql with_backslashes first_table)
        ok_size
        (chunks records_per_query [] (user ∷ []))
unfolding codes
chunks-AllSqlFit_example =
    chunks-AllSqlFit with_backslashes length-with_backslashes first_table (pos 3 ∷ []) (user ∷ [])
      (omega arith, tt)
