-- ===== src/Loader.antt =====
-- Homeworks/Executable Loader: an ELF parser and a page-fault handler that loads pages on demand.
pub mod Types
pub mod Align
pub mod Parser
pub mod Kernel
pub mod Fault
pub mod Program
pub mod Start
pub mod Tests
