-- ===== src/Behaviour.antt =====
-- What is proved of the net of back/go-assistant/cpn/cpn.go, by subject.
pub mod Guards
pub mod Delivery
pub mod Completion
pub mod Switching
