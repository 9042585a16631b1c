-- ===== src/Action.antt =====
-- The action plugins (plugins/action/*.py). Each has a method `run` over the connection object,
-- which returns the task's result or raises.
pub mod Stat
pub mod File
pub mod Apt
pub mod Systemd
pub mod Command
pub mod Copy
