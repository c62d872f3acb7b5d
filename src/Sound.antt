-- ===== src/Sound.antt =====
-- The rows of bids stay sound through every handler: amounts in whole units, and a position only
-- on an active bid.
pub mod Rows
pub mod Bids
pub mod Place
pub mod Events
