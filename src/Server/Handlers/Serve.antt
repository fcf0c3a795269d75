-- ===== src/Server/Handlers/Serve.antt =====
-- The server as a whole: its requests, BiliUserSpiderServer/src/main.cpp, and the rounds of the client
-- manager's thread, one after the other: two requests that the thread pool runs side by side are left
-- out, as are the requests that change nothing.
pub mod Safe
pub mod Kept
pub mod Laws
use bili_user_spider.Prelude.{List, [], ◌∷◌, Option, Bool}
use bili_user_spider.Server.Json.{JsonText}
use bili_user_spider.Server.Config.File.{ConfigText}
use bili_user_spider.Server.ClientManager.{detect_dead, leave}
use bili_user_spider.Server.Handlers.Monad.{Server, Request, g_stop}
use bili_user_spider.Server.Handlers.Client.{
  client_connect, client_join, client_quit, task_get, task_commit,
}
use bili_user_spider.Server.Handlers.Admin.{AdminCall, admin}
use bili_user_spider.Server.Handlers.Config.{ConfigCall, configure}

-- The requests that change something, a round of the thread and its end.
pub data Call : Type 0 where
  joins quits gets_task commits_task : Call
  administers : AdminCall → Call
  configures : ConfigCall → Call
  detects leaves : Call

-- The state, and the file config/config.json.
pub record System (json : JsonText) (config : ConfigText) : Type 0 where
  pub server : Server json.Text
  pub file : Option config.Text

module _ (json : JsonText) (config : ConfigText) where
  unfoldable pub serve : Call → Request → System json config → System json config
  serve joins req y = record y { server = (client_join req y.server).0 }
  serve quits req y = record y { server = (client_quit req y.server).0 }
  serve gets_task req y = record y { server = (task_get json req y.server).0 }
  serve commits_task req y = record y { server = (task_commit json req y.server).0 }
  serve (administers call) req y = record y { server = (admin call req y.server).0 }
  serve (configures call) req y =
      let (server, file, _) = configure config call req req.can_open y.file y.server in
      record { server = server; file = file }
  serve detects req y =
      let s = y.server in
      record y {
        server = record s {
          client_mgr = detect_dead req.client_now s.svr_config.client_live_heartbeat s.client_mgr;
        };
      }
  serve leaves req y =
      let s = y.server in
      record y { server = g_stop (record s { client_mgr = leave s.client_mgr }) }

  unfoldable pub serve_all : List (Call × Request) → System json config → System json config
  serve_all [] y = y
  serve_all ((call, req) ∷ calls) y = serve_all calls (serve call req y)
