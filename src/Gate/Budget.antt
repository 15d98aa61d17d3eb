-- ===== src/Gate/Budget.antt =====
-- back/go-assistant/infra/host/gate/budget.go. The numbers are bit patterns of signed 64-bit numbers.
use liwaisi_assistant.Base.{
  ℕ, String, Option, none, some, Dict, lookup, insert, delete, if◌then◌else◌,
}
use liwaisi_assistant.Base.Words.{add64, less64}
use liwaisi_assistant.Gate.Policy.{Defaults}

pub record Budget : Type 0 where
  pub cpu_seconds : ℕ
  pub bytes_written : ℕ
  pub outbound_requests : ℕ

abbrev pub no_budget : Budget
no_budget = record { cpu_seconds = 0; bytes_written = 0; outbound_requests = 0 }

abbrev pub Budgets : Type 0
Budgets = Dict Budget

unfoldable pub current : String → Budgets → Budget
current session m = elim (lookup session m) [ none ↦ no_budget | some b ↦ b ]

-- The reason of a refusal, or nothing where there is headroom.
abbrev pub exceeded : Defaults → (estimate used : Budget) → Option String
exceeded limits estimate used =
    if less64 limits.cpu_seconds_budget (add64 used.cpu_seconds estimate.cpu_seconds)
    then some "cpu_budget_exceeded"
    else if less64 limits.bytes_written_budget (add64 used.bytes_written estimate.bytes_written)
    then some "bytes_budget_exceeded"
    else if less64 limits.outbound_requests_budget
        (add64 used.outbound_requests estimate.outbound_requests)
    then some "outbound_budget_exceeded"
    else none

unfoldable pub check_estimate : String → Defaults → Budget → Budgets → Option String
unfolding current
check_estimate session limits estimate m = exceeded limits estimate (current session m)

abbrev pub plus_usage : Budget → Budget → Budget
plus_usage used actual = record {
  cpu_seconds = add64 used.cpu_seconds actual.cpu_seconds;
  bytes_written = add64 used.bytes_written actual.bytes_written;
  outbound_requests = add64 used.outbound_requests actual.outbound_requests;
}

unfoldable pub record_actual : String → Budget → Budgets → Budgets
unfolding current
record_actual session actual m = insert session (plus_usage (current session m) actual) m

unfoldable pub reset_budget : String → Budgets → Budgets
reset_budget session m = delete session m

abbrev pub default_estimate : Budget
default_estimate = record { cpu_seconds = 1; bytes_written = 0; outbound_requests = 0 }
