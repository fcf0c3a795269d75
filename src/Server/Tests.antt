-- ===== src/Server/Tests.antt =====
-- The theorems on the server's managers at concrete inputs.
use bili_user_spider.Prelude.{
  ◌+◌, ◌≡◌, refl, ◌⊎◌, List, [], ◌∷◌, none, some, true, false, arith, pos, ◌-ℤ◌, ◌+ℤ◌, ◌≤ℤ◌,
}
use bili_user_spider.Prelude.OrdMap.{find}
use bili_user_spider.Server.Json.{Document, JsonText}
use bili_user_spider.Server.Status.{server_stopped, no_task_avail}
use bili_user_spider.Server.TaskManager.{
  BiliTask, Range, TaskManager, Env, refused, assigned, new_task, get_task, commit, read_data,
  assign_range,
}
use bili_user_spider.Server.TaskManager.Cover.{pending}
use bili_user_spider.Server.TaskManager.Valid.{IsValid}
use bili_user_spider.Server.TaskManager.Assign.{Picks}
use bili_user_spider.Server.TaskManager.Handout.{get_task-reply, get_task-tail_lost}
use bili_user_spider.Server.TaskManager.Commit.{commit-find}
use bili_user_spider.Server.TaskManager.Runs.{
  Call, gets, commits, recycles, run, run_credit, run-exactly_once,
}
use bili_user_spider.Server.TaskManager.Machine.{AllInt, run_sums}
use bili_user_spider.Server.TaskManager.Machine.Laws.{HasRoom, run_sums-AllInt}
use bili_user_spider.Server.TaskManager.Archive.{fresh, assign_range-reissue}

-- A JSON library whose texts are the documents.
abbrev plain : JsonText
plain = record { Text = Document; parse = λ d. some d; to_styled_string = λ d. d }

abbrev env : Env
env = record { now = pos 100; is_running = true; main_task_timeout = pos 600; can_open = true }

-- Ids 1 to 1000, none of them assigned.
abbrev started : TaskManager Document
started = record {
  tasks = [];
  tasks_recycled = [];
  task_id_current = pos 0;
  mid_start = pos 1;
  mid_current = pos 1;
  mid_end = pos 1001;
  data_file = none;
  last_time_write_to_file = pos 0;
}

abbrev first_task : BiliTask
first_task = record { client_id = pos 1; mid_start = pos 1; mid_end = pos 201; ttl = pos 700 }

-- Client 1 has a task, another is recycled, and the ids from 401 on are not assigned.
abbrev busy : TaskManager Document
busy = record started {
  tasks = (pos 0, first_task) ∷ [];
  tasks_recycled = (pos 201, pos 401) ∷ [];
  task_id_current = pos 2;
  mid_current = pos 401;
}

-- Only the ids from 901 on are left.
abbrev near_end : TaskManager Document
near_end = record started { mid_current = pos 901 }

started-IsValid : IsValid started
started-IsValid = record { ordered = tt; fresh = tt }

busy-IsValid : IsValid busy
busy-IsValid = record { ordered = (tt, tt); fresh = (omega arith, tt) }

near_end-IsValid : IsValid near_end
near_end-IsValid = record { ordered = tt; fresh = tt }

abbrev calls : List (Env × Call)
calls =
    (env, gets (pos 1) (pos 200)) ∷ (env, commits (pos 1) (pos 0)) ∷ (env, recycles (pos 2)) ∷ []

get_task-reply_example :
    let (u, reply) = get_task plain env (pos 2) (pos 200) busy in
    ((env.is_running ≡ false) × (u ≡ busy) × (reply ≡ refused server_stopped))
    ⊎ ((env.is_running ≡ true)
        × (busy.tasks_recycled ≡ [])
        × (busy.mid_end ≤ℤ busy.mid_current)
        × (u ≡ busy)
        × (reply ≡ refused no_task_avail))
    ⊎ ((r : Range) × (env.is_running ≡ true)
        × Picks (pos 200) busy busy.tasks_recycled r
        × (reply
            ≡ assigned (record { task_id = busy.task_id_current; mid_start = r.0; mid_end = r.1 }))
        × (find busy.task_id_current busy.tasks ≡ none)
        × (find busy.task_id_current u.tasks ≡ some (new_task env (pos 2) r)))
get_task-reply_example = get_task-reply plain env (pos 2) (pos 200) busy busy-IsValid

get_task-tail_lost_example :
    pending (pos 950) (get_task plain env (pos 1) (pos 200) near_end).0 + 1
    ≡ pending (pos 950) near_end
unfolding ◌+ℤ◌ ◌-ℤ◌
get_task-tail_lost_example =
    get_task-tail_lost plain env (pos 1) (pos 200) near_end near_end-IsValid refl refl (omega arith)
      (omega arith) (pos 950) (omega arith) (omega arith) (omega arith)

commit-find_example : find (pos 0) (commit plain env (pos 1) (pos 0) busy).tasks ≡ none
unfolding find
commit-find_example = commit-find plain env (pos 1) (pos 0) (pos 0) busy busy-IsValid

run-exactly_once_example :
    pending (pos 5) (run plain started calls) + run_credit plain (pos 5) started calls ≡ 1
unfolding ◌+ℤ◌
run-exactly_once_example =
    run-exactly_once plain (pos 5) started calls refl refl (omega arith) (omega arith)
      ((omega arith, λ _ _. omega arith), (tt, (tt, tt)))

assign_range-reissue_example :
    let (u, reply) = assign_range plain env (pos 1) (pos 401, pos 601) busy in
    let v = (read_data plain (fresh u.data_file)).0 in
    (reply ≡ assigned (record { task_id = pos 2; mid_start = pos 401; mid_end = pos 601 }))
    × ((assign_range plain env (pos 2) (pos 601, pos 801) v).1
        ≡ assigned (record { task_id = pos 2; mid_start = pos 601; mid_end = pos 801 }))
unfolding ◌-ℤ◌
assign_range-reissue_example =
    assign_range-reissue plain (λ d. refl) env env (pos 1) (pos 2) (pos 401, pos 601)
      (pos 601, pos 801) busy refl (omega arith)

-- Two requests, of which the last reaches the end of the range, and the first client's end.
abbrev three_calls : List (Env × Call)
three_calls =
    (env, gets (pos 1) (pos 60)) ∷ (env, gets (pos 2) (pos 60)) ∷ (env, recycles (pos 1)) ∷ []

near_end-HasRoom : HasRoom 3 near_end
unfolding ◌+ℤ◌
near_end-HasRoom = record {
  start = (omega arith, omega arith);
  current = (omega arith, omega arith);
  end = (omega arith, omega arith);
  room = omega arith;
  next_id = omega arith;
  ids = omega arith;
  tasks = tt;
  recycled = tt;
}

run_sums-AllInt_example :
    AllInt (run_sums plain near_end three_calls) × HasRoom 0 (run plain near_end three_calls)
run_sums-AllInt_example =
    run_sums-AllInt plain near_end three_calls
      ((omega arith, omega arith), ((omega arith, omega arith), (tt, tt))) near_end-HasRoom
      (omega arith)
