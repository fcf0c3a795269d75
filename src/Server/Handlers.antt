-- ===== src/Server/Handlers.antt =====
-- The request handlers of the spider clients and of the administrator, BiliUserSpiderServer/src/uri,
-- with the macros of uri/base.h, and `g_start`, `g_stop` of main.cpp. `req.get_param` is a function
-- from names to texts, empty where the parameter is missing. A handler calls one manager after the
-- other, each under its own lock, at times that the request gives.
pub mod Monad
pub mod Client
pub mod Admin
pub mod Config
pub mod Serve
pub mod Process
pub mod Laws
