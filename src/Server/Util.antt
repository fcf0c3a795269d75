-- ===== src/Server/Util.antt =====
-- The texts of the server, BiliUserSpiderServer/src/util. A text is its bytes.
pub mod UrlCode
pub mod Case
pub mod Split
