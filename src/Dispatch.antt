-- ===== src/Dispatch.antt =====
-- src/Watchlist/Dispatch and src/Watchlist/Storage: the server's requests and what they store.
pub mod KeyValueStore
pub mod RequestDispatcher
