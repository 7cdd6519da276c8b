-- ===== src/Tests.antt =====
-- Concrete runs of the theorems.
pub mod MmRuns
pub mod VmRuns
pub mod ExitRuns
pub mod MachineRuns
pub mod SetUpRuns
pub mod TextRuns
pub mod BootRuns
pub mod VmcsRuns
pub mod LinuxRuns
