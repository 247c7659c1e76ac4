-- ===== src/Catalog.antt =====
-- pkg/catalog: the blast-radius tier of a fault, and the shape of an outage manifest.
pub mod Tiers
pub mod Outage
