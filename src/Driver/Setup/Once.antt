-- ===== src/Driver/Setup/Once.antt =====
-- driver/runner.go: a slot that is set up ends with exactly one vote.
