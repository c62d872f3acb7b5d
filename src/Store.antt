-- ===== src/Store.antt =====
-- The database as the featured-spot code sees it: its rows, the transaction that a handler runs
-- in, and the queries of lib/db/queries/spots.ts, one function each.
pub mod Rows
pub mod Tx
pub mod Triple
pub mod Listings
pub mod Spots
pub mod Bids
pub mod Subscriptions
pub mod Frame
