-- ===== src/CanSignalEvent.antt =====
-- src/can_signal_event.c: what a received frame does to the properties of its CAN-ID, when their
-- clients are told, and how a frame is sent.
pub mod Elapsed
pub mod Ivi
pub mod Parse
pub mod Send
