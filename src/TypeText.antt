-- ===== src/TypeText.antt =====
-- src/catalog_utils.cpp: the texts of types.
pub mod Names
pub mod Segments
pub mod Parser
pub mod Lengths
pub mod Children
pub mod Termination
pub mod Completion
pub mod Written
pub mod Walk
pub mod Balanced
pub mod Loops
pub mod Reads
pub mod RoundTrip
pub mod Printed
pub mod Decimals
pub mod Trailing
