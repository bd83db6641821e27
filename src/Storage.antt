-- ===== src/Storage.antt =====
-- src/Utils/Storage: device items, the interface of a database of them, and its SQLite version.
pub mod Item
pub mod Interface
pub mod Utf8
pub mod Address
pub mod Validation
pub mod SqliteDatabase
mod Examples
