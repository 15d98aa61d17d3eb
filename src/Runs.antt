-- ===== src/Runs.antt =====
-- What is proved of the firing loop of back/go-assistant/cpn/executor.go, by subject.
pub mod Conservation
pub mod Launch
pub mod SameEnd
pub mod Reported
pub mod Agrees
pub mod Exits
pub mod Routing
pub mod Typing
