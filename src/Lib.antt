-- ===== src/Lib.antt =====
-- The CAN binding of the vehicle-information service: frames of a CAN bus are decoded into named
-- properties, clients subscribe to properties and are told of changes, and a property can be written
-- into a frame and sent.
--
-- The parts, with the files that model them.
--   CanidInfo: src/canid_info.c and .h. Types has the structs; VarTypes the names of value types
--     (`vartype2string`, `string2vartype`); Endian the two orders of a frame's bytes; Update the
--     function `_updatePropertyValue`; Value `propertyValue_int`; Frame `property2canframe` and
--     `canframe2property`.
--   CanidSearch: src/canid_search.c. Tree has the search trees of <search.h> as sorted lists; Dict the
--     two dictionaries, by CAN-ID and by name of a property (`addCANID_dict` is `add_canid_dict`).
--   SocketcanRaw: src/socketcan_raw.c, over the answers of the system calls.
--   CanSignalEvent: src/can_signal_event.c. Elapsed has `elaps_ms`; Ivi `update_iviproperty`; Parse
--     `parse_candata`, `parse_frame` and `can_signal_read`; Send `can_signal_send` and the timers.
--   BindEvent: src/bind_event.c, the events that clients have subscribed to.
--   CanJson: src/can_json.c. JsonC is the interface of the json-c library; Zone has `_getZoneName`,
--     Tables `create_convert_tables`, Member `add_propertyMember`, Load the rest of the loading of the
--     CAN definition file up to `can_define_init`, Run its outcomes, and Value
--     `property2json`.
--   Binding: src/af-canivi-binding.c. Notify has `notify_property_changed`; Verbs the verbs `get`, `set`
--     and `list`; Subscribe `subscribe` and `unsubscribe`; Delivery hands the notification to the
--     parser of frames; Broker is an abstract view of what clients can tell, a map from names to events
--     with a log of pushes; Service has the configuration, the connection and
--     `afbBindingV1ServiceInit` (`service_init`); System has `on_event`, and the calls as a step
--     relation; Api has the table of verbs and a call of one.
--   Tests: the theorems at concrete inputs, among them a start of the service with a small file.
-- The start of the service reads the configuration, loads the CAN definition file into the dictionaries
-- and opens the socket. A frame then goes from `on_event` and `can_signal_read` to `parse_frame`, which
-- finds its CAN-ID in the dictionary, and to `update_iviproperty` for each property, which may call
-- `notify_property_changed`; that finds the event of the property's name and pushes the value of
-- `property2json`. The verb `set` goes the other way: the property is found by its name,
-- `property2canframe` writes the field, and `socketcan_send` sends the frame.
--
-- How state and operations correspond. A name in camelCase is in snake_case here. Global variables are
-- records (`Dict`, `Events`, `Socket`) that the operations take and return. A number is a natural
-- number, cut where C cuts it; a C int is its 32-bit pattern or an integer. A pointer to a property is
-- its CAN-ID and its position in the array of that CAN-ID (`PropertyRef`), the list on a property's
-- `next` hangs on the property, and `applyinfo` is a position in that list. The union of a value is its
-- first eight bytes. A string that a conversion table keeps is an address into a list, to which
-- only the loading of the file adds.
-- The result `none` of a step is behaviour that C leaves undefined: a shift by 64 bits or more, a pointer
-- that leads nowhere or is NULL, a write past a buffer, a second release of an array, or a recursion that
-- the stack has no room for. Loading the file has a third outcome, the `exit` for
-- want of memory, so its steps are in the monad `Run`.
--
-- Parameters stand for what is not in the repository: whether the allocator grants each request
-- (`memory`), what the system calls return, what the daemon answers, how the json-c library takes a
-- document apart, and in Parse what a notification does to the rest of the process. Of the library it
-- is assumed that an object has no key twice, and of the daemon that `afb_req_success` releases its
-- object. Every loop of the source runs over a list, and the loop of `can_signal_read` over what the
-- socket delivers, so only one recursion needs fuel: `subscribe_signal` and `subscribe_all` call each
-- other, and so do `unsubscribe_signal` and `unsubscribe_all`. Their `stack` is the number of calls of
-- the former that the stack has room for; two are enough if no property is called "*", and no number is
-- for a request for "*" if one is.
--
-- Not modelled: the test program at the end of src/can_json.c; the registration with the daemon, which only hands over a pointer; the event loop
-- itself, whose calls System takes one at a time and in any order; logging; the lock of `parse_frame`,
-- since the model runs one call at a time; failures of `strdup` and of the `calloc` of a table, whose
-- results the code does not look at; and `destroy_dict`'s frees beyond the emptied trees.
pub mod Base
pub mod CanidInfo
pub mod SocketcanRaw
pub mod CanidSearch
pub mod CanSignalEvent
pub mod BindEvent
pub mod CanJson
pub mod Binding
pub mod Tests
