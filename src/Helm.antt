-- ===== src/Helm.antt =====
-- pkg/helm: the options of the helm client, its calls and its stored releases.
pub mod Options
pub mod Args
pub mod Client
pub mod Secrets
pub mod Metadata
pub mod Time
pub mod Archive
pub mod Index
pub mod Repository
