-- ===== src/Admin/Api/Replies.antt =====
-- The replies of the server as the administration program reads them: the documents of
-- BiliUserSpiderServer/src/uri/server.cpp and uri/config.cpp, and what comes of them in its calls.
use bili_user_spider.Prelude.{
  List, [], ◌∷◌, ◌++◌, map, ◌≡◌, ◌≢◌, refl, sym, ◌∙◌, ap, Option, none, some, Bool, true, false,
  arith, ℤ, pos,
}
use bili_user_spider.Prelude.OrdMap.{OrdMap, IsOrdered}
use bili_user_spider.Server.ClientManager.Info.{ClientEntry, client_entry, get_clients_info}
use bili_user_spider.Server.ClientManager.{ClientInfo, ClientManager}
use bili_user_spider.Server.Config.File.{Configs, are_valid, root_of, temporaries}
use bili_user_spider.Server.Config.File.Laws.{g_parse_from_json-root_of}
use bili_user_spider.Admin.Table.{SpiderClientInfo}
use bili_user_spider.Admin.Api.{
  Response, http_get, InfoNode, not_negative, parse_from_json, read_clients, api_get_clients_info,
  ProgressNode, api_get_task_progress, get_data, api_get_advance_config,
}

-- A reply with the code `NO_ERROR` that arrives.
unfoldable pub arrives : {Data : Type 0} → Option Bool → Option Data → Response Data
arrives status data_node = record {
  is_ok = true;
  json =
      some
        (record { code = some (pos 0); msg = some "OK"; status = status; data_node = data_node });
}

-- An element of the `data` of `server_get_clients_info`.
unfoldable pub info_node : ClientEntry → InfoNode
info_node e = record {
  id = some e.id;
  os = some e.os;
  host = some e.host;
  join_time = some e.join_time;
  heartbeat = some e.heartbeat;
  threads = some e.threads;
  count = some e.count;
  avg = some e.avg;
  avg_3m = some e.avg_3m;
  avg_5m = some e.avg_5m;
  avg_10m = some e.avg_10m;
  avg_30m = some e.avg_30m;
}

-- The `data` to which nothing is appended stays null.
unfoldable pub clients_data : List ClientEntry → Option (List InfoNode)
clients_data [] = none
clients_data (e ∷ es) = some (map info_node (e ∷ es))

-- What the administrator sees of a client.
unfoldable pub info_of : ClientEntry → SpiderClientInfo
info_of e = record {
  id = e.id;
  threads = e.threads;
  count = e.count;
  join_time = e.join_time;
  average_speed = not_negative e.avg;
  average_speed_3m = not_negative e.avg_3m;
  average_speed_5m = not_negative e.avg_5m;
  average_speed_10m = not_negative e.avg_10m;
  average_speed_30m = not_negative e.avg_30m;
  os = e.os;
  host = e.host;
}

append_snoc :
    (infos : List SpiderClientInfo) (x : SpiderClientInfo) (ys : List SpiderClientInfo)
    → (infos ++ x ∷ []) ++ ys ≡ infos ++ (x ∷ ys)
append_snoc [] x ys = refl
append_snoc (i ∷ infos) x ys = ap (λ is. i ∷ is) (append_snoc infos x ys)

append_nil : (infos : List SpiderClientInfo) → infos ++ [] ≡ infos
append_nil [] = refl
append_nil (i ∷ infos) = ap (λ is. i ∷ is) (append_nil infos)

-- Whatever comes behind them, the clients that can be read are read.
read_clients-append :
    (es : List ClientEntry) (nodes : List InfoNode) (infos : List SpiderClientInfo)
    → read_clients (map info_node es ++ nodes) infos ≡ read_clients nodes (infos ++ map info_of es)
unfolding read_clients info_node info_of parse_from_json
read_clients-append [] nodes infos = rw (append_nil infos) refl
read_clients-append (e ∷ es) nodes infos =
    read_clients-append es nodes (infos ++ info_of e ∷ [])
    ∙ ap (read_clients nodes) (append_snoc infos (info_of e) (map info_of es))

read_clients-all :
    (es : List ClientEntry) (infos : List SpiderClientInfo)
    → read_clients (map info_node es) infos ≡ infos ++ map info_of es
unfolding read_clients info_node info_of parse_from_json
read_clients-all [] infos = sym (append_nil infos)
read_clients-all (e ∷ es) infos =
    read_clients-all es (infos ++ info_of e ∷ []) ∙ append_snoc infos (info_of e) (map info_of es)

read_clients_stop :
    (bad : InfoNode) (rest : List InfoNode) (infos : List SpiderClientInfo)
    → parse_from_json bad ≡ none
    → read_clients (bad ∷ rest) infos ≡ infos
unfolding read_clients
read_clients_stop bad rest infos e = ground (arith, e)

-- Every client that the server tells of is read, with the speeds that are negative as .001.
api_get_clients_info-clients_data :
    (running : Bool) (es : List ClientEntry)
    → api_get_clients_info (arrives (some running) (clients_data es)) []
      ≡ (pos 0, some running, map info_of es)
unfolding api_get_clients_info http_get arrives clients_data
api_get_clients_info-clients_data running [] = refl
api_get_clients_info-clients_data running (e ∷ es) =
    ap (λ is. (pos 0, some running, is)) (read_clients-all (e ∷ es) [])

info_of-entries :
    (scaled : ℤ → ℤ → ℤ) (now : ℤ) (clients : OrdMap ClientInfo)
    → map info_of (map (client_entry scaled now) clients)
      ≡ map (λ client. info_of (client_entry scaled now client)) clients
info_of-entries scaled now [] = refl
info_of-entries scaled now (client ∷ clients) =
    ap (λ is. info_of (client_entry scaled now client) ∷ is) (info_of-entries scaled now clients)

-- The administrator gets exactly the clients of the server's client manager, in the order of their
-- ids, and whether the server runs.
pub api_get_clients_info-get_clients_info :
    (scaled : ℤ → ℤ → ℤ) (now : ℤ) (running : Bool) (mgr : ClientManager)
    → api_get_clients_info
        (arrives (some running) (clients_data (get_clients_info scaled now mgr)))
        []
      ≡ (pos 0, some running, map (λ client. info_of (client_entry scaled now client)) mgr.clients)
unfolding get_clients_info
api_get_clients_info-get_clients_info scaled now running mgr =
    api_get_clients_info-clients_data running (get_clients_info scaled now mgr)
    ∙ ap (λ is. (pos 0, some running, is)) (info_of-entries scaled now mgr.clients)

-- A client that cannot be read ends the list without an error: those behind it are missing.
pub api_get_clients_info_cut :
    (running : Bool) (es : List ClientEntry) (bad : InfoNode) (rest : List InfoNode)
    → parse_from_json bad ≡ none
    → api_get_clients_info (arrives (some running) (some (map info_node es ++ bad ∷ rest))) []
      ≡ (pos 0, some running, map info_of es)
unfolding api_get_clients_info http_get arrives
api_get_clients_info_cut running es bad rest e =
    ap (λ is. (pos 0, some running, is))
      (read_clients-append es (bad ∷ rest) [] ∙ read_clients_stop bad rest (map info_of es) e)

-- The `data` of `server_get_task_progress`.
unfoldable pub progress_data : ℤ × ℤ × ℤ → ProgressNode
progress_data (start, end, current) = record {
  mid_start = some start;
  mid_end = some end;
  mid_current = some current;
}

pub api_get_task_progress-progress_data :
    (running : Bool) (start end current : ℤ)
    → api_get_task_progress (arrives (some running) (some (progress_data (start, end, current))))
      ≡ (pos 0, some running, some (start, end, current))
unfolding api_get_task_progress http_get arrives progress_data
api_get_task_progress-progress_data running start end current = refl

-- The four configurations of a server are those that the administrator gets, if they are valid and
-- there is a sleep time.
pub api_get_advance_config-root_of :
    (c : Configs)
    → are_valid c ≡ true
    → c.client.proxy_sleeptime_map ≢ []
    → IsOrdered c.client.proxy_sleeptime_map
    → api_get_advance_config (arrives none (some (root_of c))) temporaries ≡ (pos 0, c)
unfolding api_get_advance_config get_data http_get arrives
api_get_advance_config-root_of c valid some_time o =
    rw (g_parse_from_json-root_of c false valid some_time o) refl
