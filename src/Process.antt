-- ===== src/Process.antt =====
-- Processes: src/kernel/process.c, by the parts of `struct process` that its functions use.
pub mod Files
pub mod Signals
pub mod Memory
pub mod Life
