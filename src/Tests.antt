-- ===== src/Tests.antt =====
-- The theorems at concrete memories of the nucleus, and runs of the model.
mod Blocking
mod Boot
mod Calls
mod Copy
mod Create
mod Data
mod Devices
mod Family
mod Klog
mod P1Program
mod P2Program
mod PassUp
mod Pcbs
mod Pools
mod Runs
mod Semaphores
mod Timers
mod Nucleus
