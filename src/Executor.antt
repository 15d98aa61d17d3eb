-- ===== src/Executor.antt =====
-- back/go-assistant/cpn/executor.go: the firing loop of a net. `World` is the net with the number of
-- calls made of the code outside, and `Env` is that code: the clock, the answers of the context, and
-- the fire functions of the transition kinds that other files implement. The goroutines of a round
-- run whole, one after the other, in the order that a `Schedule` gives the firings: it stands for
-- the interleaving, and for the order in which `errCh` hands the errors over. The children of
-- sub-nets deposit where the loop waits for them (`await_children`). The clock is read once for all
-- checks of a round. Metrics and history flushes are left out.
mod Tools
mod Dispatch
mod Rounds
mod Loop
unfoldable pub use Tools.*
unfoldable pub use Dispatch.*
unfoldable pub use Rounds.*
unfoldable pub use Loop.*
