-- ===== src/Domain.antt =====
-- domain/: the enums and the records that the store keeps.
pub mod Status
pub mod Lifecycle
pub mod Entities
pub mod Catalog
