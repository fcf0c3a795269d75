-- ===== src/Client/SpiderTests.antt =====
-- The theorems on the crawling threads and on the calls of the server at concrete inputs.
use bili_user_spider.Client.TaskManager.{retry_errors, issue, take_mids}
use bili_user_spider.Client.TaskManager.Calls.{get_sub_task}
use bili_user_spider.Client.Json.{as_uint}
use bili_user_spider.Client.Spider.Answers.{All, IsGivenUp}
use bili_user_spider.Client.User.Fields.{web_fields, read_web}
use bili_user_spider.Client.ProxyManager.{get_random_proxy, advance}
use bili_user_spider.Prelude.{
  ℕ, ◌+◌, ◌≡◌, ◌≢◌, refl, List, [], ◌∷◌, none, some, true, false, arith, ℤ, pos, negsuc, ◌==◌,
  ◌==ℤ◌, if◌then◌else◌, ◌+ℤ◌,
}
use bili_user_spider.Prelude.Ranges.{occurrences}
use bili_user_spider.Prelude.OrdMap.{find}
use bili_user_spider.Client.ProxyTests.{read_info, pool, db, answered, blank}
use bili_user_spider.Client.Tests.{outside, working, main_task}
use bili_user_spider.Client.User.Reply.{WebUser, Response}
use bili_user_spider.Client.User.{
  parse_web, get_user_info_web, outcome_of, check_response, check_code, settle_proxy,
}
use bili_user_spider.Client.TaskManager.Places.{uncrawled}
use bili_user_spider.Client.Spider.{
  Batch, out_of_fuel, crawl_mids, crawl_mid, attempts, may_try, get_user_info,
}
use bili_user_spider.Client.Spider.Laws.{mids_of, crawl_mids-fuel}
use bili_user_spider.Client.Spider.Threads.{
  idle, holding, no_results, System, request, commit, here, then_step, requests, set, requested,
}
use bili_user_spider.Client.Spider.Threads.Laws.{Steps-alone}
use bili_user_spider.Client.Spider.Site.{IsGiven, IsDenied, Site, on_site, commit-crawled}
use bili_user_spider.Client.Api.{api_get_task}
use bili_user_spider.Client.Api.Replies.{return_ok, task_data, arrives, api_get_task-task_data}
use bili_user_spider.Server.Config.{ClientConfig}
use bili_user_spider.Server.TaskManager.{Assignment}

-- The site has user 9 and no other.
abbrev missing : Response WebUser
missing = record {
  is_ok = true;
  size = 500;
  json = some (record { code = some (negsuc 403); message = some "-404"; node = none });
}

abbrev site : Site db
site = record {
  rand = λ w. 5;
  web = λ w mid p. if mid ==ℤ pos 9 then answered else missing;
  app = λ w mid p. record { is_ok = false; size = 0; json = none };
  others = λ w. w;
  mid_max_error_times = λ w. pos 3;
  bili_api_type = λ w. pos 0;
  blank = blank;
}

abbrev results : Batch
results = record { infos = read_info ∷ []; none_mids = pos 10 ∷ []; error_mids = [] }

abbrev at_work : System outside
at_work = record {
  tasks = working;
  threads = λ i. if i == 0 then holding (pos 1) (pos 9 ∷ pos 10 ∷ []) else idle;
}

commit-crawled_example :
    All (IsGiven db site) results.infos
    × All (IsDenied db site) results.none_mids
    × All (IsGivenUp (on_site db site)) results.error_mids
    × (uncrawled (pos 9) (commit outside 0 (pos 1) results at_work).tasks
          + (occurrences (pos 9) (mids_of results.infos) + occurrences (pos 9) results.none_mids)
        ≡ uncrawled (pos 9) working)
unfolding find crawl_mids crawl_mid attempts may_try get_user_info get_user_info_web
    get_random_proxy advance outcome_of parse_web check_response check_code web_fields read_web
    as_uint settle_proxy
commit-crawled_example =
    commit-crawled db site outside at_work 0 4 (pos 9) (pos 1) (pos 4) (pos 9 ∷ pos 10 ∷ [])
      main_task (pool, true) (pool, true) results refl refl refl refl

crawl_mids-fuel_example :
    crawl_mids (on_site db site) 4 (pos 9 ∷ pos 10 ∷ []) no_results (pool, true) ≢ out_of_fuel
crawl_mids-fuel_example =
    crawl_mids-fuel (on_site db site) 3 (pos 9 ∷ pos 10 ∷ []) no_results (pool, true)
      (λ v. omega arith)

-- Nothing is given out yet.
abbrev at_start : System outside
at_start = record { tasks = record working { sub_tasks = [] }; threads = λ i. idle }

Steps-alone_example :
    ((main_task_id : ℤ) × (find (pos 2) (request outside 0 at_start).tasks.sub_tasks
        ≡ some (record { main_task_id = main_task_id; mids = pos 6 ∷ pos 7 ∷ pos 8 ∷ [] })))
    × ((j : ℕ) (mids' : List ℤ)
        → (request outside 0 at_start).threads j ≡ holding (pos 2) mids'
        → 0 ≡ j)
unfolding request set requested get_sub_task retry_errors issue take_mids ◌+ℤ◌
Steps-alone_example =
    Steps-alone outside {c = on_site db site}
      (then_step at_start at_start (request outside 0 at_start) (here at_start)
        (requests 0 at_start refl))
      refl (λ i. refl) 0 (pos 2) (pos 6 ∷ pos 7 ∷ pos 8 ∷ []) refl

abbrev no_sleep : ClientConfig
no_sleep = record {
  bili_api_type = pos 1;
  main_task_step_times = pos 3;
  sub_task_step = pos 5;
  timeout = pos 3000;
  proxy_max_error_times = pos 10;
  mid_max_error_times = pos 3;
  interval_proxypool_sync = pos 5;
  proxy_sleeptime_map = [];
}

-- 20 seconds below 50 proxies.
abbrev old_config : ClientConfig
old_config = record no_sleep { proxy_sleeptime_map = (pos 50, pos 20) ∷ [] }

abbrev new_config : ClientConfig
new_config = record old_config { timeout = pos 5000 }

abbrev assignment : Assignment
assignment = record { task_id = pos 5; mid_start = pos 13; mid_end = pos 213 }

api_get_task-task_data_example :
    (new : ClientConfig) × (api_get_task
        (arrives (return_ok (task_data assignment new_config (pos 0))))
        main_task
        old_config
      ≡ some (
        pos 0,
        record { id = pos 5; mid_start = pos 13; mid_end = pos 213; completed = pos 0 },
        new,
      ))
    × (record new { proxy_sleeptime_map = [] } ≡ record new_config { proxy_sleeptime_map = [] })
api_get_task-task_data_example =
    api_get_task-task_data assignment new_config (pos 0) main_task old_config
      ((omega arith, omega arith), (omega arith, omega arith)) (ground arith)
