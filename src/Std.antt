-- ===== src/Std.antt =====
-- What the program uses of the C and C++ standard libraries.
pub mod Strtol
pub mod Str
pub mod Number
pub mod Run
pub mod Convert
pub mod ReadFloat
pub mod Split
