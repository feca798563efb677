-- ===== src/Tests.antt =====
-- Concrete inputs, on which the theorems are applied and the code is run.
mod Fixtures
mod OfConditions
mod OfMain
mod OfPatches
mod OfPatching
mod OfHelper
mod OfHelm
mod OfConfigured
mod OfProgram
mod OfLifecycle
mod OfLive
mod OfConvergence
mod OfDeletion
mod OfDiscovery
mod OfEncodings
mod OfControllers
mod OfRepository
