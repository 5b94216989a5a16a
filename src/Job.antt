-- ===== src/Job.antt =====
-- The worker, job/work.c, and the linked queue that it shares its shape with comm/comm_remote.c.
pub mod Queue
pub mod Work
