-- ===== src/Server.antt =====
-- The server, BiliUserSpiderServer/src.
pub mod Status
pub mod Json
pub mod TaskManager
pub mod ProxyManager
pub mod MysqlPool
pub mod ClientManager
pub mod Config
pub mod Convert
pub mod Util
pub mod Handlers
mod Tests
mod ClientTests
mod HandlerTests
mod ConfigTests
mod ProxyTests
mod ProcessTests
