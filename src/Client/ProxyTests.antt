-- ===== src/Client/ProxyTests.antt =====
-- The theorems on the client's proxies and on the answers of the site at concrete inputs.
use bili_user_spider.Client.Json.{as_uint}
use bili_user_spider.Client.User.Fields.{web_fields, read_web, BiliRet}
use bili_user_spider.Prelude.{
  arith, none, ◌≡◌, ◌≢◌, refl, List, [], ◌∷◌, some, Bool, true, false, pos, negsuc,
}
use bili_user_spider.Client.Types.{UserInfo}
use bili_user_spider.Client.ProxyManager.Proxies.{ProxyData, Pool, equivalent, find}
use bili_user_spider.Client.ProxyManager.Db.{ProxyDb}
use bili_user_spider.Client.ProxyManager.{get_random_proxy, advance}
use bili_user_spider.Client.ProxyManager.Refine.{
  Request, counts_error, drops, run, answers, run-answers,
}
use bili_user_spider.Client.User.Reply.{WebUser, Response}
use bili_user_spider.Client.User.{
  found, failed, parse_web, parse_app, get_user_info_web, settle_proxy, outcome_of, check_response,
  check_code,
}
use bili_user_spider.Client.User.Laws.{
  as_app_response, room_of, SameUser, parse_app-parse_web, get_user_info_web_lem,
}

abbrev pub proxy : ProxyData
proxy = record { host = 49 ∷ 46 ∷ 50 ∷ []; port = pos 80 }

abbrev other_proxy : ProxyData
other_proxy = record { host = 49 ∷ 46 ∷ 51 ∷ []; port = pos 8080 }

abbrev pub pool : Pool
pool = (proxy, pos 0) ∷ []

-- A database that has one proxy and takes everything.
abbrev pub db : ProxyDb
db = record {
  World = Bool;
  mysql_is_bad = λ w. false;
  mysql_query = λ sql w. (w, true);
  rows = λ w. other_proxy ∷ [];
  force_stop = λ w. false;
  proxy_max_error_times = λ w. pos 10;
}

abbrev pub web_user : WebUser
web_user = record {
  mid = some (pos 9);
  name = some "name";
  sex = some "男";
  face = some "face";
  sign = some "sign";
  level = some (pos 5);
  official =
      some (record { type = some (pos 0); desc = some ""; role = some (pos 0); title = some "" });
  vip = some (record {
    type = some (pos 2);
    status = some (pos 1);
    label = some (record { text = some "vip" });
  });
  live_room = some (record { roomid = some (pos 7) });
}

abbrev pub answered : Response WebUser
answered = record {
  is_ok = true;
  size = 500;
  json = some (record { code = some (pos 0); message = some "0"; node = some web_user });
}

abbrev pub blank : UserInfo
blank = record {
  sex = pos 0;
  level = pos 0;
  vip_status = pos 0;
  vip_type = pos 0;
  official_type = pos 0;
  official_role = pos 0;
  is_deleted = pos 0;
  attention = pos 0;
  fans = pos 0;
  mid = pos 0;
  lid = negsuc 0;
  name = "";
  face = "";
  sign = "";
  vip_label = "";
  official_desc = "";
  official_title = "";
}

abbrev requests : List Request
requests = counts_error proxy ∷ counts_error other_proxy ∷ drops proxy ∷ []

run-answers_example :
    find other_proxy (run requests pool) ≡ answers requests (λ p. find p pool) other_proxy
unfolding find
run-answers_example = run-answers requests pool (refl, tt) other_proxy

parse_app-parse_web_example :
    (web app : UserInfo) × (ret : BiliRet) × (parse_web (pos 9) answered blank ≡ some (web, ret))
    × (parse_app (pos 9) (as_app_response answered) blank ≡ some (app, ret))
    × SameUser blank (room_of answered) ret web app
unfolding room_of
parse_app-parse_web_example = parse_app-parse_web (pos 9) answered blank (omega arith, omega arith)

abbrev pub read_info : UserInfo
read_info = elim (parse_web (pos 9) answered blank) [ none ↦ blank | some (info, ret) ↦ info ]

get_user_info_web_lem_example :
    (found ≡ found → read_info.mid ≡ pos 9)
    × (found ≢ failed → (pool ≡ pool) × (true ≡ true))
    × ((p : ProxyData) × (get_random_proxy 5 pool ≡ some p)
        × ((q : ProxyData) → equivalent q p ≡ false → find q pool ≡ find q pool))
unfolding get_user_info_web get_random_proxy advance settle_proxy outcome_of parse_web
    check_response check_code web_fields read_web as_uint
get_user_info_web_lem_example =
    get_user_info_web_lem db 5 (λ p. answered) (pos 9) blank pool true pool true read_info found
      refl
