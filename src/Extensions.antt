-- ===== src/Extensions.antt =====
-- The extensions of a service: `Plugins` is dwho/classes/plugins.py, `Inoplugs` is
-- dwho/classes/inoplugs.py, `Modules` is dwho/classes/modules.py, `Loader` is
-- dwho/classes/libloader.py and `Facade` is the lifecycle of dwho/config.py.
pub mod Plugins
pub mod Inoplugs
pub mod Destination
pub mod Modules
pub mod Facade
pub mod Routes
pub mod Loader
pub mod Loading
