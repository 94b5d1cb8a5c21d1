-- ===== src/Cli.antt =====
-- The command line client: output.go, config.go and main.go.
pub mod Output
pub mod Settings
pub mod Run
pub mod Filter
pub mod Display
pub mod Items
mod Tests
