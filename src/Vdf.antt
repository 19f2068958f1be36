-- ===== src/Vdf.antt =====
-- forza_bootstrap/proton.py: the file `compatibilitytool.vdf` of a Steam compatibility tool, read into
-- tokens (Tokens), parsed into nested objects (Entries), and renamed (Identity).
pub mod Tokens
pub mod Entries
pub mod Identity
pub mod Pieces
pub mod Lexing
pub mod Modes
pub mod Reading
pub mod Grammar
pub mod Running
pub mod Parsing
pub mod Positions
pub mod Moved
pub mod Places
pub mod Spots
pub mod Cutting
pub mod Naming
pub mod Rewriting
mod Tests
