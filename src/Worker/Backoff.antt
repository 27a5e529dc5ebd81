-- ===== src/Worker/Backoff.antt =====
-- The bounds of calculateNextRetry.
