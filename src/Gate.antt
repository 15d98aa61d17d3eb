-- ===== src/Gate.antt =====
-- The host gate of back/go-assistant/infra/host/gate, by its parts, and what they satisfy.
pub mod Matcher
pub mod Policy
pub mod Budget
pub mod Introspection
pub mod Decisions
pub mod Audit
pub mod Evaluate
pub mod Approval
pub mod Allows
pub mod Learning
pub mod Remember
pub mod Blacklist
pub mod Passing
pub mod Charges
