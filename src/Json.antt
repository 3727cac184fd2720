-- ===== src/Json.antt =====
-- JSON: strings, pointers, the builder and the parser.
pub mod Text
pub mod Token
pub mod Stack
pub mod Number
pub mod Parser
pub mod Skip
pub mod Pointer
pub mod Get
pub mod Builder
pub mod Progress
