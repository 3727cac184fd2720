-- ===== src/Json/Progress.antt =====
-- How the JSON readers consume their input, and that they end.
pub mod Text
pub mod Number
pub mod Strings
pub mod Value
pub mod Item
pub mod Skip
pub mod Pointer
pub mod Get
pub mod Ends
