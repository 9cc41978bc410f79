-- ===== src/Dev.antt =====
-- The development server of devkit/devserver.
pub mod Accounts
pub mod Scheduler
pub mod Proxy
pub mod Api
