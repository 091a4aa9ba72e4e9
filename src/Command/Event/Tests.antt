-- ===== src/Command/Event/Tests.antt =====
-- The times of an event with binary data.
