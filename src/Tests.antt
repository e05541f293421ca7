-- ===== src/Tests.antt =====
-- Concrete runs of the bridge, and the theorems at inputs that meet their hypotheses.
mod Setup
mod Bridge
mod Route
mod Loop
mod Tables
mod Counters
mod Text
mod Kernel
mod Threads
mod Whole
mod Client
mod Far
mod Network
mod Ledger
mod Program
mod Drain
