-- ===== src/Parser/Total.antt =====
-- The termination of each parsing function of src/amun_parser.cpp.
pub mod Checks
pub mod Types
pub mod Primary
pub mod Conditional
pub mod Postfix
pub mod Levels
pub mod Statements
pub mod Control
pub mod Functions
pub mod Declarations
pub mod Unit
pub mod Given
pub mod Reads
pub mod Sources
