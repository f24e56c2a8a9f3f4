-- ===== src/Tests.antt =====
-- Runs of the definitions at concrete inputs, and the theorems at inputs that meet their
-- hypotheses.
pub mod Fixtures
mod Managers
mod Routers
mod Limits
mod Stores
mod Settings
pub mod Certs
mod Proxies
mod Requests
mod Remote
mod Tables
mod Acmes
mod Sections
