-- ===== src/CanidSearch.antt =====
-- src/canid_search.c and src/canid_search.h: the two dictionaries, of CAN-IDs and of properties, and
-- the list of the supported properties.
pub mod Tree
pub mod Dict
