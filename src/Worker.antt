-- ===== src/Worker.antt =====
-- The worker of apps/worker: when a backup policy runs, what retention deletes, where a backup is
-- copied to, and how a text is quoted for a shell.
pub mod Cron
pub mod Retention
pub mod Shell
pub mod Replication
pub mod Maintenance
