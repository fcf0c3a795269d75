-- ===== src/Client/AccountTests.antt =====
-- The account of a main task at a concrete run.
use bili_user_spider.Prelude.{List, [], ◌∷◌, none, true, false, pos}
use bili_user_spider.Client.Types.{no_error, smooth, MainTask, Steps, Statement, Outside}
use bili_user_spider.Client.TaskManager.{TaskManager}
use bili_user_spider.Client.TaskManager.Account.{Account}
use bili_user_spider.Client.TaskManager.Account.Runs.{Call, gets, commits, flushes, stops}

abbrev three_ids : MainTask
three_ids = record { id = pos 4; mid_start = pos 1; mid_end = pos 4; completed = pos 0 }

abbrev steps : Steps
steps = record { sub_task_step = pos 5; main_task_step_times = pos 3 }

-- A server that gives this main task, and a database that takes everything.
abbrev giving : Outside
giving = record {
  World = List Statement;
  api_get_task =
      λ count all main old w. (w, record { code = no_error; main_task = three_ids; steps = old });
  api_commit_task = λ id all old w. (w, record { code = no_error; steps = old; stop = none });
  mysql_is_bad = λ w. false;
  mysql_query = λ sql w. (sql ∷ w, true);
  name_lt = λ a b. false;
}

abbrev begun : TaskManager (List Statement)
begun = record {
  commit_ok = pos 0;
  commit_none = pos 0;
  commit_error = pos 0;
  main_tasks = [];
  current_main_task = record { id = pos 0; mid_start = pos 0; mid_end = pos 0; completed = pos 0 };
  sub_tasks = [];
  current_mid = pos 0;
  current_sub_task_id = pos 0;
  infos_buff = [];
  none_mids_buff = [];
  error_mids = [];
  should_stop = false;
  force_stop = false;
  num_threads = pos 2;
  steps = steps;
  world = [];
}

-- A thread gets the three ids, none of which has a user, and the buffers are flushed.
abbrev calls : List Call
calls = gets ∷ commits (pos 0) [] (pos 1 ∷ pos 2 ∷ pos 3 ∷ []) [] ∷ flushes ∷ stops smooth ∷ []
