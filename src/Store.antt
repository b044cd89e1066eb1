-- ===== src/Store.antt =====
-- infra/store/: the store that all parts of the platform share. One value holds the tables and the
-- clock that `utc_now()` reads; what happens between two reads of the clock within one operation is
-- taken to take no time. Row conversion (`from_domain`, `to_domain`) keeps every field.
pub mod Runs
pub mod Listings
pub mod Stages
pub mod Callbacks
pub mod State
