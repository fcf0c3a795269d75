-- ===== src/Admin/Config.antt =====
-- The administration program's copy of the configuration, Admin/src/config/config.cpp. Its code is that
-- of the server's, but for the log and a line of `toJson` that stands twice.
use bili_user_spider.Prelude.{Bool}
use bili_user_spider.Server.Config.{ClientConfig, DatabaseConfig, ProxyConfig, ServerConfig}
use bili_user_spider.Server.Config.Nodes.{ClientNode}
use bili_user_spider.Server.Config.File.{DatabaseNode, ProxyNode, ServerNode, RootNode, Configs}
use bili_user_spider.Server.Config as Config
use bili_user_spider.Server.Config.Nodes as Nodes
use bili_user_spider.Server.Config.File as File

abbrev pub client_parse_from_json : ClientNode → ClientConfig → ClientConfig × Bool
client_parse_from_json = Nodes.parse_from_json

abbrev pub database_parse_from_json : DatabaseNode → DatabaseConfig → DatabaseConfig × Bool
database_parse_from_json = File.parse_database

abbrev pub proxy_parse_from_json : ProxyNode → ProxyConfig → ProxyConfig × Bool
proxy_parse_from_json = File.parse_proxy

abbrev pub server_parse_from_json : ServerNode → ServerConfig → ServerConfig × Bool
server_parse_from_json = File.parse_server

abbrev pub client_is_valid : ClientConfig → Bool
client_is_valid = Config.client_is_valid

abbrev pub database_is_valid : DatabaseConfig → Bool
database_is_valid = Config.database_is_valid

abbrev pub proxy_is_valid : ProxyConfig → Bool
proxy_is_valid = Config.proxy_is_valid

abbrev pub server_is_valid : ServerConfig → Bool
server_is_valid = Config.server_is_valid

abbrev pub client_to_json : ClientConfig → ClientNode
client_to_json = Nodes.to_json

abbrev pub database_to_json : DatabaseConfig → DatabaseNode
database_to_json = File.database_to_json

abbrev pub proxy_to_json : ProxyConfig → ProxyNode
proxy_to_json = File.proxy_to_json

abbrev pub server_to_json : ServerConfig → ServerNode
server_to_json = File.server_to_json

abbrev pub g_parse_from_json : RootNode → Bool → Configs → Configs × Bool
g_parse_from_json = File.g_parse_from_json
