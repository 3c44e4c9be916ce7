-- ===== src/Tests/TransferTests.antt =====
-- The copy of attributes at a small database.
