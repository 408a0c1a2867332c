-- ===== src/Tests.antt =====
-- Concrete runs.
pub mod LifecycleRuns
pub mod ContainerRuns
pub mod WiringRuns
pub mod BuildRuns
pub mod FutureRuns
pub mod AppRuns
pub mod ErrorRuns
