-- ===== src/Abstract.antt =====
-- dwho/classes/abstract.py: `Params` is the dict of parameters of DWhoAbstractHelper, and `Database`
-- the connections of DWhoAbstractDB, which `Connections` and `Lookups` are about.
pub mod Params
pub mod Database
pub mod Connections
pub mod Lookups
