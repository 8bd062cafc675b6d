-- ===== src/Agora.antt =====
-- The agora server: agora/src and agora/include/agora.
pub mod Doe
pub mod Queue
pub mod Handler
mod Tests
