-- ===== src/Setup.antt =====
-- How the program starts: src/config-comp/ reads the configuration, src/main.c the options, and
-- src/replica-sys/replica.c sets up its node.
pub mod Settings
pub mod NodeConfig
pub mod ProxyConfig
pub mod Start
pub mod Options
