-- ===== src/Lib.antt =====
-- The featured spots, the tier plans, the lead market with its credit, and the slugs of the
-- directory.
--
-- A spot is a city's or a region's page, on its own or with a category. Listings bid for its
-- few positions, and are charged through one PayPal subscription each, one unit of money a
-- month for each unit of quantity. Five parts of the program work on it together:
--   * lib/spots/rank.ts ranks the bids of a spot, sets the minimum bids and adds up what a
--     listing is charged. Module Rank.
--   * lib/db/queries/spots.ts reads and writes the tables. Modules Store.Spots, Store.Listings,
--     Store.Bids and Store.Subscriptions; the rows are in Store.Rows, and a transaction is
--     Store.Tx.
--   * lib/spots/engine.ts re-ranks the spots that changed and tells PayPal the new quantities;
--     lib/spots/notify.ts queues the notices of lost positions meanwhile. Modules Engine,
--     Engine.Sync and Notify.
--   * lib/spots/bidding.ts is what an owner can do. Modules Bidding.Place and Bidding.Cancel.
--   * lib/spots/webhook.ts is what PayPal's events do. Modules Webhook and Webhook.Reconcile.
-- The lead credit is a ledger of its own, lib/db/queries/credits.ts. Modules
-- Credits and Credits.Operations. The tier plans that a listing needs before it may bid are
-- billed apart: lib/billing/webhooks.ts decides what PayPal's events do to them, and
-- lib/billing/plans.ts names the tier of a plan. Modules Billing and Billing.Calendar.
--
-- The credit pays for leads, the enquiries that the directory sells:
--   * lib/leads/market.ts has the prices, the areas of a standing order and the reasons for a
--     refund. Module Leads.
--   * lib/db/queries/lead-market.ts sells a lead, keeps the standing orders, records and decides
--     the reports of bad leads and sweeps the leads that are due. Modules Leads.Sale,
--     Leads.Orders, Leads.Refunds and Leads.Sweep; the rows and the state `MarketDb` are in
--     Leads.Rows, and a transaction is Leads.Tx.
--   * lib/leads/allocate.ts offers a new lead to the standing orders that cover it, and an open
--     lead again to the orders that came later. Modules Leads.Allocate and Leads.Retry.
--   * lib/db/queries/leads.ts, lib/leads/rules.ts and lib/leads/hooks.ts make a lead of a
--     confirmed request or refuse it. Modules Leads.Create and Leads.Doors.
--   * lib/billing/credit-topup.ts starts a top-up, captures its order and credits the account.
--     Modules Topup and Topup.Settle.
-- The other children of Leads and of Topup are proofs, each named for what it proves.
--
-- The addresses of the pages are made by lib/routing/slugify.ts, lib/routing/slugs.ts keeps the
-- registry of slugs and the redirects of renames, and lib/routing/resolve.ts finds the page of a
-- path. Modules Routing, Routing.Slugs, Routing.Normalise and Routing.Paths, with the proofs in
-- the other children of Routing; the state is the record `RouteDb`.
--
-- Operations keep the source's names, in the spelling of this library: `placeBid` is
-- `place_bid`. A block of a long function is a definition with its own name, in the order of the
-- source, and the comment above it says which block it is.
--
-- The state of a transaction is the record `Db`: the tables, the audit log, the queue of jobs
-- and the calls that PayPal was sent. A transaction is a function from it to a result and the
-- next state, or to what was thrown, and then nothing is kept but the calls that PayPal was sent.
-- Row locks and the advisory lock of the ledger make the transactions of one listing or one
-- account follow one another, so an operation is one step here. Unique indexes are tests that
-- throw `conflict`.
--
-- Ids are natural numbers in the order of the texts of the uuids, an id that is no uuid is a
-- number that names no row, amounts are in cents and instants in milliseconds. The amounts of the
-- ledger are signed. Every loop of an operation runs over a list, and the 51 slugs at most that
-- an allocation tries are all listed. Only the digits of a number use fuel, one more than the
-- number, and the round trip of Topup.Amounts shows that this is enough.
--
-- PayPal is a parameter, the record `PayPalClient` (for the orders of a top-up the record
-- `OrdersClient`), whose answers may depend on all the calls before; `none` is an answer
-- that throws. The ids of new rows are a parameter too, and so is what the leads make of texts:
-- a normalised phone, a list of throwaway inboxes. For the slugs, whose texts are lists of codes,
-- `normalize` and `toLowerCase` are a parameter, as `Number` and `toUpperCase` are for the texts
-- of the top-ups.
--
-- Module Book is an abstract view of the table of bids, without positions and dates, on which
-- the effect of an event, of a reconciliation, of a closed spot and of an expired request is
-- specified in one line; its children set the transactions against it. Module Sound has the
-- invariant of the rows. Store.Triple has the rules for reasoning on a transaction, and
-- Store.Frame those for the queries that write no bid.
--
-- Not modelled: pages, forms, emails and the importer, which are input and output; the reads of
-- lib/db/queries/spots.ts and lib/db/queries/lead-market.ts that only fill pages, exports and
-- emails; the code that parses PayPal's messages; the queries that write the tier plans; the
-- payments for job posts, which share lib/billing/orders.ts with the top-ups; the texts of a
-- lead, of which only the numbers of their values are kept.
pub mod Common
pub mod Rank
pub mod Store
pub mod Provider
pub mod Notify
pub mod Engine
pub mod Bidding
pub mod Webhook
pub mod Book
pub mod Sound
pub mod Credits
pub mod Leads
pub mod Topup
pub mod Routing
pub mod Billing
pub mod Examples
