-- ===== src/Tests.antt =====
-- Runs at concrete inputs, and the theorems applied where their hypotheses hold.
mod Sessions
mod Runtime
mod Sql
mod Redis
mod RedisSessions
mod Crypto
mod Notifiers
mod Inotify
mod Subprocess
mod Database
mod Formats
mod Configuration
mod Extensions
mod Terminal
mod Manager
mod Dashboard
