-- ===== src/Core.antt =====
-- The library of core/: serialisation and strings.
pub mod Buffer
pub mod Strings
pub mod Config
mod Examples
