-- ===== src/Lib.antt =====
-- A model of the bilibili user spider: a server that hands out ranges of user ids, and clients that
-- crawl them.
--
-- The parts. The server (BiliUserSpiderServer/src) keeps the ids to crawl in its task manager and the
-- clients that take part in its client manager; its HTTP handlers call both. A client
-- (BiliUserSpiderClient/src) asks the server for a range, a main task, and its own task manager cuts
-- it into sub tasks for the crawling threads, buffers what they bring, writes the buffers to the
-- database and reports a main task once all its ids are written. A crawling thread asks the site for
-- each user of its sub task through a proxy. The proxies come from providers: the server's proxy
-- manager puts them into the database, and a client's proxy manager takes them from there and gives
-- back their errors. The administrator starts and stops the server and sets the range and the
-- configuration, which the clients get with every task; the administration program (Admin/src) is a
-- window that does so by the same HTTP requests, and shows the clients and the progress.
--
-- Which file models which part:
--   Server/TaskManager         BiliUserSpiderServer/src/manager/task_manager.cpp and
--                              BiliUserSpiderServer/src/task/task.h: getTask, commit, recycle,
--                              getProgress, setRange, readData and writeDataToFile are get_task, commit, recycle, get_progress, set_range,
--                              read_data and write_data_to_file. Cover and Valid hold the invariants,
--                              Assign, Handout, Commit, Runs and Archive the proofs. Machine lists
--                              the sums of int that getTask and recycle
--                              compute.
--   Server/ClientManager       BiliUserSpiderServer/src/manager/client_manager.cpp: join, quit,
--                              heartbeat, notifyClientToQuit, getClientsInfo (Info), a round of
--                              backgroundThread (detect_dead) and its end (leave).
--   Server/Handlers            BiliUserSpiderServer/src/uri: base.h and base.cpp (Monad), client.cpp and
--                              task.cpp (Client), server.cpp (Admin),
--                              config.cpp (Config). A macro that returns early is a computation
--                              that keeps the state so far. Serve has the requests of
--                              BiliUserSpiderServer/src/main.cpp that change something, one after
--                              the other. Process is main with its two files, and what runs
--                              behind it.
--   Server/Config, Status, Convert, Json
--                              BiliUserSpiderServer/src/config/config.h and config.cpp (Config/Nodes for
--                              parseFromJson and toJson of the client configuration, Config/File for
--                              the others and config/config.json),
--                              BiliUserSpiderServer/src/status/status_code.h and status_code.cpp,
--                              BiliUserSpiderServer/src/util/string_utils.h, and the members of the
--                              archive BiliUserSpiderServer/data/task.json.
--   Server/ProxyManager        BiliUserSpiderServer/src/manager/proxy_manager.cpp: the threads of the
--                              two providers are ai_er_yun and qing_ting, whose body is round;
--                              Lifecycle has start, stop and the end of a thread,
--                              Sql the texts of the two statements and their buffers.
--   Server/MysqlPool, Util     BiliUserSpiderServer/src/mysql/mysql_pool.cpp (getConnection in its parts,
--                              freeConnection), BiliUserSpiderServer/src/util/url_code.cpp,
--                              string_utils.cpp and string_utils.h.
--   Client/Types, TaskManager  BiliUserSpiderClient/src/manager/task_manager.cpp: getSubTask is
--                              get_sub_task (Calls), with issue_next and retry_errors for its cases;
--                              commitSubTask is commit_sub_task; writeOkToDb_, writeNoneToDb_,
--                              commitMainTask_ and getMainTask_ are in Write. Places, Frame, Rounds
--                              and Records say where ids are and what getSubTask gives out, Rows and
--                              Settle what a write of a buffer does; Account counts what is left
--                              of a main task through any calls; Sql has the texts of the
--                              statements and their buffers.
--   Client/ProxyManager        BiliUserSpiderClient/src/manager/proxy_manager.cpp and api/api_proxy.cpp:
--                              getRandomProxy, errorProxy, removeProxy and a round of
--                              backgroundThread (sync_round).
--   Client/UserAgents          BiliUserSpiderClient/src/manager/user_agent_manager.cpp.
--   Client/User                BiliUserSpiderClient/src/bili/user.cpp: getUserInfo_Web and
--                              getUserInfo_App; Answers has the replies behind their results.
--   Client/Json                getIntVal and getUIntVal of BiliUserSpiderClient/src/json/json.h, where the
--                              id of a live room and the range of a main task are read.
--   Client/Spider              BiliUserSpiderClient/src/biliuser_spider.cpp: the loops of spiderThread
--                              (crawl_mids, with Answers for what its lists hold), the threads as a
--                              step relation (Threads), both on the site itself (Site), connectToServer, clientJoin and clientQuit
--                              (Calls), and start and init (Process).
--   Client/Api                 BiliUserSpiderClient/src/api and config/config.cpp; Api/Replies has the
--                              replies of the server that they read.
--   Admin/Window               Admin/src/spidermanager.cpp: the slots of the window with its
--                              background thread and its buttons; Consistent and Laws say
--                              what any sequence of them leaves.
--   Admin/Table, Sort          the table of the clients there, with
--                              Admin/src/client/spider_client_info.cpp for their order.
--   Admin/Forms                Admin/src/dialog/proxy_sleeptime_map_dialog.cpp and the parts of
--                              spidermanager.cpp that show a configuration and make one of the boxes.
--   Admin/Api                  Admin/src/api/api_base.cpp, api_server.cpp and api_config.cpp;
--                              Api/Replies has the replies of the server that they read.
--   Admin/Config, Client/Config
--                              the copies of the configuration, Admin/src/config/config.cpp and
--                              BiliUserSpiderClient/src/config/config.cpp.
--   Admin/Text                 Admin/src/util/string_util.cpp: formatTimeSpan and replaceAll.
--   Sql                        what sprintf makes of the numbers, texts and rows of a statement.
--   Prelude                    shared names, integers, ordered maps and ranges.
-- A module whose name ends in Tests applies the theorems to concrete inputs.
--
-- State and time. A method of a manager holds its mutex for the whole body, so it is one function from
-- the state before to the state after (getProgress, setRange, readData and ClientManager::start do not
-- lock; they are single steps here too); interleavings are sequences of calls (Runs). The slots of the
-- window run one at a time, so what happens to it is a list of events. What a method reads of the
-- clock is an argument. Loops that retry recurse on the number of attempts that the source writes down
-- (10 requests, 10 reports, 5 attempts for a table, 3 for a statement), so no fuel is needed beyond
-- it; all other loops recurse on the data. The exceptions are split and replaceAll, which go on behind
-- each separator and are given one step more than the text has bytes, and the loop over the attempts
-- for a user, whose bound is a configuration that can change while it runs: it has fuel, and one more
-- than the bound of that configuration (20 where it is valid) is enough. A thread that fetches proxies
-- is a list of rounds, and the crawling threads are steps in any order. An int or time_t is an
-- unbounded integer: its overflow is looked at where the task manager of the server computes
-- (Server/TaskManager/Machine) and where the client reads an unsigned number (Client/Json), and not
-- elsewhere.
--
-- Outside the model: jsoncpp (the parameters JsonText and ConfigText: with the hypothesis, where it is
-- used, that it reads what it writes; elsewhere a response is what the reader makes of it), the HTTP
-- library, libmysql, the providers and the site (the parameters Outside, ProxyDb, Crawl and Site),
-- logging, md5, mysql_real_escape_string (a parameter), the sleeps, and of the administration program
-- Qt: its layout, its dialogs but the one for the sleep times, and QString::number and toInt, which
-- are parameters. std::sort is an insertion sort here. A speed is counted in thousandths.
pub mod Prelude
pub mod Server
pub mod Client
pub mod Admin
pub mod Sql
