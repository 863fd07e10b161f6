-- ===== src/Config.antt =====
-- The configuration (config/).
pub mod ByteSize
pub mod Settings
pub mod Generate
