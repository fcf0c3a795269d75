-- ===== src/Client/Config.antt =====
-- The client's copy of the configuration, BiliUserSpiderClient/src/config/config.cpp. What is here has the
-- code of the server's; `ClientConfig::parseFromJson` differs, and is in `Api`.
use bili_user_spider.Prelude.{Bool}
use bili_user_spider.Server.Config.{ClientConfig, DatabaseConfig}
use bili_user_spider.Server.Config.Nodes.{ClientNode}
use bili_user_spider.Server.Config.File.{DatabaseNode}
use bili_user_spider.Server.Config as Config
use bili_user_spider.Server.Config.Nodes as Nodes
use bili_user_spider.Server.Config.File as File

abbrev pub database_parse_from_json : DatabaseNode → DatabaseConfig → DatabaseConfig × Bool
database_parse_from_json = File.parse_database

abbrev pub client_is_valid : ClientConfig → Bool
client_is_valid = Config.client_is_valid

abbrev pub database_is_valid : DatabaseConfig → Bool
database_is_valid = Config.database_is_valid

abbrev pub client_to_json : ClientConfig → ClientNode
client_to_json = Nodes.to_json

abbrev pub database_to_json : DatabaseConfig → DatabaseNode
database_to_json = File.database_to_json
