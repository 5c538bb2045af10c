-- ===== src/Seeder.antt =====
-- The seeder.
pub mod Handler
pub mod Storage
