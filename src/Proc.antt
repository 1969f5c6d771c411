-- ===== src/Proc.antt =====
-- kernel/proc: pipes, the process table, the scheduler, exit and wait, jobs, security.
pub mod Pipe
pub mod Kernel
pub mod Queue
pub mod Table
pub mod Sched
pub mod Timer
pub mod Life
pub mod Security
pub mod Wait
pub mod Job
mod Small
mod Tests
