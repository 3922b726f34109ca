-- ===== src/Cache/Curator/Retired.antt =====
-- The end of the curator thread of include/capy/amqp_cache.h.
use capy_amqp_cpp.Prelude.{length, ℕ, ◌+◌}
use capy_amqp_cpp.Cache.{Cache, shard_size}
use capy_amqp_cpp.Cache.Curator.{Stage, tests, sleeps, stopped, culls}

-- The steps that are left to a curator that finds its counter at 0.
abbrev pub left : Stage → ℕ
left stopped = 0
left tests = 1
left (culls n ns) = 2 + length ns
left sleeps = 2 + shard_size
