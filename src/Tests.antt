-- ===== src/Tests.antt =====
-- Runs of the model at concrete inputs, and each property at an input where its hypotheses hold.
mod Machine
mod Disk
mod Grants
mod Ring
mod Frontend
mod Guest
mod Shared
mod Service
mod Args
mod Systems
mod Mapped
mod UnitTests
mod Threads
mod Program
