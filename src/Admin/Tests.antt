-- ===== src/Admin/Tests.antt =====
-- The theorems on the administration program at concrete inputs.
use Prim.Native.Char.{code}
use mathlib.Core.List.{Perm}
use bili_user_spider.Prelude.{
  ℕ, zero, suc, ◌==◌, List, [], ◌∷◌, ◌++◌, map, ◌≡◌, refl, ap, none, some, true, false,
  if◌then◌else◌, String, ℤ, pos, negsuc, inl, inr, arith,
}
use bili_user_spider.Server.Config.{ClientConfig, is_empty}
use bili_user_spider.Server.Config.File.{temporaries}
use bili_user_spider.Server.ClientManager.Info.{ClientEntry, client_entry, get_clients_info}
use bili_user_spider.Server.ClientManager.{ClientManager}
use bili_user_spider.Server.Util.Split.{split}
use bili_user_spider.Server.Util.Split.Laws.{rejoin}
use bili_user_spider.Admin.Sort.Laws.{IsSorted}
use bili_user_spider.Admin.Table.{
  SpiderClientInfo, id, threads, Speeds, Table, on_horizontal_header_clicked,
}
use bili_user_spider.Admin.Table.Laws.{
  infos_of, IsDirection, in_direction, stands_above, sums_of, on_horizontal_header_clicked-rows,
}
use bili_user_spider.Admin.Api.{InfoNode, parse_from_json, api_get_clients_info}
use bili_user_spider.Admin.Api.Replies.{
  arrives, info_node, info_of, clients_data, api_get_clients_info-get_clients_info,
  api_get_clients_info_cut,
}
use bili_user_spider.Admin.Forms.{Qt, Line, ClientForm, twice, line_of, show_client, client_of}
use bili_user_spider.Admin.Forms.Laws.{IsReadable, client_of-show_client}
use bili_user_spider.Admin.Window.{
  Window, Event, absent, looping, leaving, connects, disconnects, updates_progress, starts, closes,
  thread_leaves, thread_ends, run,
}
use bili_user_spider.Admin.Window.Consistent.{IsConsistent}
use bili_user_spider.Admin.Window.Laws.{run-IsConsistent, run-stale}
use bili_user_spider.Admin.Text.{format_time_span, replace_all}
use bili_user_spider.Admin.Text.Laws.{CameTo, format_time_span-CameTo, replace_all-split}

abbrev spider : ℤ → ℤ → SpiderClientInfo
spider n t = record {
  id = n;
  threads = t;
  count = pos 40;
  join_time = pos 100;
  average_speed = pos 1500;
  average_speed_3m = pos 1400;
  average_speed_5m = pos 1400;
  average_speed_10m = pos 1400;
  average_speed_30m = pos 1400;
  os = "Linux";
  host = "10.0.0.9";
}

abbrev no_speeds : Speeds
no_speeds = record { last = []; enable_color = true }

abbrev two_spiders : Table
two_spiders = record {
  clients_info = spider (pos 0) (pos 4) ∷ spider (pos 1) (pos 9) ∷ [];
  sort_col = id;
  is_asc = true;
  is_locked = false;
  speeds = record {
    of_3m = no_speeds;
    of_5m = no_speeds;
    of_10m = no_speeds;
    of_30m = no_speeds;
    of_all = no_speeds;
  };
  rows = [];
  total = none;
}

-- The threads in descending order.
on_horizontal_header_clicked-rows_example :
    let t = on_horizontal_header_clicked threads (pos 200) two_spiders in
    (t.sort_col ≡ threads)
    × IsDirection threads id true t.is_asc
    × Perm (infos_of t.rows) two_spiders.clients_info
    × IsSorted (in_direction t.is_asc (stands_above threads)) (infos_of t.rows)
    × (t.total ≡ some (sums_of two_spiders.clients_info))
on_horizontal_header_clicked-rows_example =
    on_horizontal_header_clicked-rows threads (pos 200) two_spiders refl

-- A server with one client, and what a `double` is not needed for.
abbrev one_client : ClientManager
one_client = record {
  current_client_id = pos 8;
  bg_thread_quit = false;
  clients =
      (
        pos 7,
        record {
          threads = pos 50;
          join_time = pos 10;
          last_heartbeat = pos 100;
          host = "10.0.0.1";
          os = "linux";
          count_snapshot = [];
          should_quit = pos 0;
        },
      )
      ∷ [];
}

api_get_clients_info-get_clients_info_example :
    api_get_clients_info
      (arrives (some true) (clients_data (get_clients_info (λ n d. n) (pos 200) one_client)))
      []
    ≡ (
      pos 0,
      some true,
      map (λ client. info_of (client_entry (λ n d. n) (pos 200) client)) one_client.clients,
    )
api_get_clients_info-get_clients_info_example =
    api_get_clients_info-get_clients_info (λ n d. n) (pos 200) true one_client

abbrev entry : ClientEntry
entry = record {
  id = pos 7;
  os = "linux";
  host = "10.0.0.1";
  join_time = pos 10;
  heartbeat = pos 100;
  threads = pos 50;
  count = pos 30;
  avg = pos 1;
  avg_3m = pos 1;
  avg_5m = pos 1;
  avg_10m = pos 1;
  avg_30m = pos 1;
}

-- Without its host.
abbrev bad : InfoNode
bad = record (info_node entry) { host = none }

api_get_clients_info_cut_example :
    api_get_clients_info
      (arrives (some true) (some (map info_node (entry ∷ []) ++ bad ∷ info_node entry ∷ [])))
      []
    ≡ (pos 0, some true, map info_of (entry ∷ []))
unfolding parse_from_json info_node
api_get_clients_info_cut_example =
    api_get_clients_info_cut true (entry ∷ []) bad (info_node entry ∷ []) refl

-- Numbers as strokes behind their sign.
abbrev strokes : ℕ → String
strokes zero = ""
strokes (suc n) = String.◌∷◌ "1" (strokes n)

abbrev count_strokes : String → ℕ
count_strokes String.[] = 0
count_strokes (String.◌∷◌ c s) = suc (count_strokes s)

abbrev read_strokes : String → ℤ
read_strokes String.[] = pos 0
read_strokes (String.◌∷◌ c s) =
    if code c == b'+' then pos (count_strokes s) else negsuc (count_strokes s)

abbrev write_strokes : ℤ → String
write_strokes (pos n) = String.◌∷◌ "+" (strokes n)
write_strokes (negsuc n) = String.◌∷◌ "-" (strokes n)

abbrev tally : Qt
tally = record { number = write_strokes; to_int = read_strokes }

count_strokes-strokes : (n : ℕ) → count_strokes (strokes n) ≡ n
count_strokes-strokes zero = refl
count_strokes-strokes (suc n) = ap suc (count_strokes-strokes n)

tally_not_empty : (n : ℤ) → is_empty (write_strokes n) ≡ false
unfolding is_empty
tally_not_empty (pos n) = refl
tally_not_empty (negsuc n) = refl

tally_same : (n : ℤ) → read_strokes (write_strokes n) ≡ n
tally_same (pos n) = ap pos (count_strokes-strokes n)
tally_same (negsuc n) = ap negsuc (count_strokes-strokes n)

tally-IsReadable : IsReadable tally
tally-IsReadable = record { not_empty = tally_not_empty; same = tally_same }

abbrev empty_line : Line
empty_line = record { proxies_count = ""; sleep_time = "" }

-- A form with a second line for fewer than a hundred proxies.
abbrev form : ClientForm
form = record {
  is_web = true;
  times = twice;
  sub_task_step = "";
  timeout = "";
  proxy_max_error = "";
  mid_max_error = "";
  interval_proxypool_sync = "";
  dialog = record {
    line0 = empty_line;
    line1 = line_of tally (pos 100, pos 20);
    line2 = empty_line;
  };
}

abbrev config : ClientConfig
config = record temporaries.client {
  main_task_step_times = pos 2;
  proxy_sleeptime_map = (pos 50, pos 30) ∷ (pos 80, pos 10) ∷ [];
}

client_of-show_client_example : client_of tally (show_client tally config form) ≡ some config
unfolding is_empty
client_of-show_client_example =
    client_of-show_client tally tally-IsReadable config form (inl refl) (inr (inl refl))
      ((omega arith, tt), (tt, tt)) refl

-- The window as it opens.
abbrev opened : Window
opened = record {
  is_svr_connected = false;
  is_svr_running = false;
  edit_server_addr = true;
  btn_connect = true;
  btn_disconnect = false;
  btn_start = false;
  btn_stop = false;
  btn_shutdown = false;
  edit_mid_start = true;
  edit_mid_current = true;
  edit_mid_end = true;
  client_config_box = false;
  db_config_box = false;
  proxy_config_box = false;
  svr_config_box = false;
  task_range_box = false;
  table = two_spiders;
  configs = temporaries;
  client_form = form;
  database_form = record { host = ""; port = ""; user = ""; password = ""; name = "" };
  proxy_form = record { order_code = ""; user_id = ""; interval_query = "" };
  server_form = record {
    max_live_heartbeat = "";
    interval_detect_client_live = "";
    main_task_timeout = "";
  };
  progress = none;
  proxy_pool_size = none;
  has_db_pool = false;
  thread = absent;
  is_bg_thread_quit = true;
  should_close = false;
}

opened-IsConsistent : IsConsistent opened
opened-IsConsistent = ground arith

-- A connection to a server that does not run, its start at the second attempt, and the end.
abbrev session : List Event
session =
    connects true (some false) (λ i. some temporaries) true
    ∷ starts (λ i. i == 1)
    ∷ disconnects
    ∷ updates_progress (λ i. none)
    ∷ closes
    ∷ thread_leaves
    ∷ thread_ends
    ∷ []

run-IsConsistent_example : IsConsistent (run tally session opened)
run-IsConsistent_example = run-IsConsistent tally session opened opened-IsConsistent

-- Connected to a server that does not run.
abbrev connected : Window
connected = record opened {
  is_svr_connected = true;
  edit_server_addr = false;
  btn_connect = false;
  btn_disconnect = true;
  btn_start = true;
  btn_shutdown = true;
  client_config_box = true;
  db_config_box = true;
  proxy_config_box = true;
  svr_config_box = true;
  task_range_box = true;
  thread = looping;
  is_bg_thread_quit = false;
}

connected-IsConsistent : IsConsistent connected
connected-IsConsistent = ground arith

abbrev waiting : List Event
waiting =
    disconnects ∷ updates_progress (λ i. some (false, (pos 1, pos 9, pos 4))) ∷ thread_leaves ∷ []

run-stale_example :
    let w = run tally waiting connected in
    (w.btn_connect ≡ false)
    × (w.btn_disconnect ≡ true)
    × (w.btn_start ≡ true)
    × (w.is_svr_connected ≡ false)
    × (w.thread ≡ leaving)
run-stale_example =
    run-stale tally (λ i. some (false, (pos 1, pos 9, pos 4))) (pos 1, pos 9, pos 4) connected
      connected-IsConsistent refl refl refl

-- One day, an hour and five seconds.
format_time_span-CameTo_example : CameTo 90005 (format_time_span (pos 90005))
format_time_span-CameTo_example = format_time_span-CameTo 90005

-- `a::b`, with `:` doubled.
replace_all-split_example :
    (ps : List (List ℕ)) × (split 5 (58 ∷ []) (97 ∷ 58 ∷ 58 ∷ 98 ∷ []) ≡ some ps)
    × (rejoin (58 ∷ []) ps ≡ 97 ∷ 58 ∷ 58 ∷ 98 ∷ [])
    × (replace_all 5 (58 ∷ []) (58 ∷ 58 ∷ []) (97 ∷ 58 ∷ 58 ∷ 98 ∷ [])
        ≡ some (rejoin (58 ∷ 58 ∷ []) ps))
replace_all-split_example =
    replace_all-split 5 58 [] (58 ∷ 58 ∷ []) (97 ∷ 58 ∷ 58 ∷ 98 ∷ []) (omega arith)
