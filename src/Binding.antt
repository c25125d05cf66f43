-- ===== src/Binding.antt =====
-- src/af-canivi-binding.c: the start of the service, the notification of clients and the verbs of the
-- binding. The daemon's answers are arguments. Logging is left out.
pub mod Notify
pub mod Verbs
pub mod Subscribe
pub mod Delivery
pub mod Broker
pub mod Service
pub mod System
pub mod Api
