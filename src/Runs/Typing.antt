-- ===== src/Runs/Typing.antt =====
-- The tokens of a net stay in places of their colour and space, whatever the executor does.
pub mod Deposits
pub mod Firing
pub mod Rounds
pub mod Loop
pub mod Fires
