-- ===== src/CanidInfo.antt =====
-- src/canid_info.h and src/canid_info.c: the data of a CAN-ID and of its properties, and the
-- conversions between a frame, a property's field in it and the property's value.
pub mod Types
pub mod VarTypes
pub mod Endian
pub mod Update
pub mod Value
pub mod Frame
