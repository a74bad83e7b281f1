-- ===== src/GeeGorm.antt =====
-- geeGorm: the object-relational mapper.
pub mod Clause
pub mod Logs
pub mod Schema
pub mod Engine
pub mod Session
pub mod Migrate
mod Tests
