-- ===== src/Leads/Coverage.antt =====
-- The allocation query (lib/leads/allocate.ts) and `orderCovers` (lib/leads/market.ts) choose the
-- same orders.
