-- ===== src/Array/New/Tests.antt =====
-- `new` for two elements on three PEs, and for ten.
