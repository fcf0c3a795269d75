-- ===== src/Admin.antt =====
-- The administration program, Admin/src.
pub mod Sort
pub mod Table
pub mod Config
pub mod Api
pub mod Forms
pub mod Window
pub mod Text
pub mod Tests
