-- ===== src/Persist.antt =====
-- The stores of back/go-assistant/cpn/persist, by the part of the package.
pub mod Records
pub mod Paging
pub mod Walk
pub mod Preview
pub mod Sessions
pub mod Events
pub mod Requests
pub mod Artefacts
pub mod Rollback
pub mod Costs
pub mod Flows
