-- ===== src/Sync.antt =====
-- src/multiloop/_sync.py: the primitives that are safe across event loops. Every operation runs in
-- one critical section of its `threading.Lock`, so each is one atomic step.
pub mod Wake
pub mod Semaphore
pub mod Lock
pub mod CapacityLimiter
pub mod Event
pub mod Condition
pub mod Barrier
