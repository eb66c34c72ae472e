-- ===== src/Command.antt =====
-- internal/cli: the commands of the command line tool, less the wiring of its flags.
pub mod Build
pub mod Export
pub mod Flags
pub mod Run
pub mod Domains
mod Examples
