-- ===== src/Tests.antt =====
-- The witnesses of the theorems, at concrete values, and small runs of the models.
pub mod Params
pub mod Ring
pub mod Member
pub mod Gossip
pub mod Proxy
pub mod Client
pub mod Config
pub mod System
pub mod Limit
pub mod Exchange
pub mod Process
pub mod Xtask
