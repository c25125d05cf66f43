-- ===== src/Tests.antt =====
-- The theorems at concrete inputs: the layout of canivi's sample, two frames and one dictionary.
mod Data
mod Document
mod Loading
mod Values
mod Properties
mod Dictionary
mod Clients
mod Verbs
mod Service
mod System
mod Timers
mod Nodes
mod Requests
