-- ===== src/Service.antt =====
-- src/service.ts: the verifier. `Backends` has the interfaces of the stores that it uses, `Setup`
-- the constructor, `Output` the checks of an adapter's answer, `Methods` the two methods.
pub mod Backends
pub mod Setup
pub mod Output
pub mod Methods
