-- ===== src/Nucleus.antt =====
-- The nucleus as a whole: where each PCB stands, and what every entry into the kernel keeps of it.
pub mod Boot
pub mod Capacity
pub mod Create
pub mod Devices
pub mod Dispatch
pub mod Blocking
pub mod Entry
pub mod Places
pub mod Routing
pub mod Semaphores
pub mod Services
pub mod Terminate
pub mod Tests
pub mod Timers
pub mod Withdraw
pub mod Yield
pub mod Resume
pub mod Tree
pub mod Search
pub mod Ended
pub mod Leaves
pub mod Subtree
pub mod Total
pub mod Kill
pub mod Doomed
pub mod Agrees
pub mod Handover
pub mod Reach
pub mod Soft
pub mod Count
pub mod Ticks
pub mod Steady
pub mod Deadlock
