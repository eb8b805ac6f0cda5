-- ===== src/Management.antt =====
-- policyd_py/management: the configuration file, the service and the HTTP API of the management.
pub mod ConfigManager
pub mod Api
pub mod Service
pub mod Routes
