-- ===== src/Client.antt =====
-- The spider client, BiliUserSpiderClient/src.
pub mod Types
pub mod Json
pub mod TaskManager
pub mod ProxyManager
pub mod User
pub mod UserAgents
pub mod Spider
pub mod Config
pub mod Api
mod Tests
mod ProxyTests
mod SpiderTests
mod AccountTests
