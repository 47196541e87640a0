-- ===== src/Tests.antt =====
-- Runs of the theorems at concrete states of the machine.
mod Memory
mod Heaps
mod Devices
mod Network
mod Processes
mod Sched
mod Waits
mod Paging
mod Ip
