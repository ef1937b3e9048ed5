-- ===== src/Tests.antt =====
-- The theorems at concrete inputs.
pub mod Connection
pub mod Texts
pub mod Pages
pub mod Requests
pub mod Addresses
pub mod Cards
pub mod Marks
pub mod Board
