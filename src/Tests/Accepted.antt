-- ===== src/Tests/Accepted.antt =====
-- The bill of the small shop meets what a bill must meet.
