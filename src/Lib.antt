-- ===== src/Lib.antt =====
-- The verification library of dwho, shared building blocks for Python services.
--
-- Parts and files.
--   Base: helpers. Tests on numbers, lists, Python exceptions as values (`Exceptions`), code that
--     changes a state and may raise (`Exec`), dicts with text keys (`Dict`), values of a dynamic
--     argument (`Value`), texts by code points (`Text`).
--   Sessions (dwho/sessions): `Ttl` is `_ttl`; `Clock` the injected clock; `Memory` is
--     MemorySessionBackend, one function per method; `Backend` the SessionBackend interface;
--     `Redis` is RedisSessionBackend over a client; `Manager` is SessionManager over any backend.
--     The manager calls its backend through the interface, which both backends fill.
--   Runtime (dwho/runtime.py): DWhoRuntime, its four methods over a log of the calls of the
--     extensions, which are parameters. `Reach` is a runtime after any sequence of its methods.
--   Sql (dwho/classes/objects.py): DWhoObjectSQLBase. `Clauses` holds the `_prepare_*` helpers,
--     `Statements` the text and values that each method sends, `Queries` the methods over a cursor.
--   Redis (dwho/adapters/redis.py): DWhoAdapterRedis over a client that is a parameter. The servers
--     are a dict in the adapter; `Commands` holds the methods that send commands, `Connections` is
--     about `connect` and `disconnect`, `Scan` about `keys` and the loops over the servers.
--   Abstract (dwho/classes/abstract.py): `Params` is the dict of parameters of DWhoAbstractHelper;
--     `Database` is DWhoAbstractDB over a driver, `Connections` and `Lookups` are about the entries
--     that it keeps for each thread.
--   Crypto (dwho/helpers/crypto.py): the padding and the keys, on bytes; `Formats` is the legacy and
--     the authenticated format over ciphers.
--   Notifiers (dwho/classes/notifiers.py): the registry, tags and `load`; `Delivery` selects, `Running`
--     is `_run` for `send` and for a call, and `Handlers` the HTTP and the Redis notifier, which
--     drives the adapter of Redis. `Processes` and `Subprocess` are the subprocess notifier: its
--     process from start to end, and its arguments and environment.
--   Inotify (dwho/classes/inotify.py, dwho/classes/inoplugs.py): `Watches` holds the watched paths
--     and the commands of the thread, `Manager` the watch manager below it, which `Walking` and
--     `Coverage` are about, `Config` DWhoInotifyConfig, and `Plugs` the calls of plug-ins.
--   Configuration (dwho/configuration.py, dwho/configuration_schema.py): the preparation of a
--     configuration; `Reading` is the reading of files and imports.
--   Extensions (dwho/classes/plugins.py, inoplugs.py, modules.py, libloader.py, dwho/config.py):
--     `Plugins`, `Inoplugs` and `Modules` are the states of extensions and their `init`, `Loader` the
--     loading of a directory, and `Facade` the global lifecycle, which reads through Configuration
--     and makes the calls that Runtime makes as well.
--   Terminal (dwho/tui/__init__.py): the prompt and the scrolled views over a curses screen; `Typing`
--     is about sequences of keys.
--   Dashboard (dwho/tui/textual): `Shell` is the methods of DashboardApp over a table of the framework,
--     `Palettes` theme.py, and `Service` ServiceDashboard, whose requests end as events say; `Plain`,
--     `Rows` and `Selection` are about what is shown, `Requests` about sequences of events.
--   Tests: runs at concrete inputs.
--
-- Bounds and fuel. The three draws of a session token are three calls in the source as well. The
-- decimal text of a number is on fuel, one round more than the number, which has fewer digits, and
-- the SCAN loop of `keys` is on fuel, one round for each answer of the server. The
-- wait for the worker pool of a lenient run is on fuel, one round for each answer of the pool.
-- The prompt and the views of Terminal are on fuel,
-- one round for each key. `_wait_process` is on fuel, one round for each millisecond of its timeout and one
-- more. Python integers do not overflow, so numbers are unbounded here.
--
-- Not modelled: the layout, the style sheet and the dialogs of the textual interface, which are widgets
-- of a third-party framework; the command line and the web module, which have no state of their own;
-- logging; in Notifiers the threads that read the output of a process, and the work of the pool; in
-- Inotify the encoding of paths, and `__get_sub_rec`, which nothing calls; in Runtime the deep copy of
-- the configuration; in Sql the column names of reads other than as texts, and `get_columns`; in Redis
-- the address parsing for clients without `from_url`, and `disconnect` of servers that the caller
-- passes; in Abstract the substitution by regular expressions; in Extensions signals, the logger, the
-- directories of pid and log files, the rendering of templates and the class checks of the registries.
-- JSON, YAML, hashes, ciphers, random bytes, clocks, processes, database drivers, redis clients, the
-- kernel's watches, the tree of directories, importlib and the code of extensions are parameters.
pub mod Base
pub mod Sessions
pub mod Tests
pub mod Runtime
pub mod Sql
pub mod Redis
pub mod Abstract
pub mod Crypto
pub mod Notifiers
pub mod Inotify
pub mod Configuration
pub mod Extensions
pub mod Terminal
pub mod Dashboard
