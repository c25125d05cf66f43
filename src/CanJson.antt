-- ===== src/CanJson.antt =====
-- src/can_json.c: the CAN definition file, and the JSON values that clients are sent.
pub mod Value
pub mod JsonC
pub mod Zone
pub mod Tables
pub mod Member
pub mod Run
pub mod Load
