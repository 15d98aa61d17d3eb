-- ===== src/Net.antt =====
-- back/go-assistant/cpn/cpn.go: the state of a net (`CPN`). The maps are dictionaries, and the two
-- event channels hold what was sent and not yet read. `event_sink` says whether there is a sink, and
-- `sunk` is what it was handed, the oldest first. `seed_func` acts on the places. `drops` is the
-- counter of the metrics port for events that the full self bus lost, if the port is there.
-- Fields that no modelled code reads are left out. The methods' locks make each a single step.
mod Record
mod Events
mod Modes
mod Marking
unfoldable pub use Record.*
unfoldable pub use Events.*
unfoldable pub use Modes.*
unfoldable pub use Marking.*
