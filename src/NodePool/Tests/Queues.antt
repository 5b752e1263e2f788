-- ===== src/NodePool/Tests/Queues.antt =====
-- Several queues in small pools.
