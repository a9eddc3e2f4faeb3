-- ===== src/Store.antt =====
-- internal/store: the tables that the rest of the program shares.
pub mod Runs
pub mod Catalog
pub mod Outages
