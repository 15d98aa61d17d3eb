-- ===== src/Persist/Costs.antt =====
-- MemoryLedgerRepository and MemoryIntelligenceRepository of back/go-assistant/cpn/persist/memory.go.
-- An int64 is its bit pattern; a price is a float64, through the interface of the floats. The calendar
-- day of a time is an argument, since it depends on the location.
use liwaisi_assistant.Base.{
  ℕ, zero, suc, String, Bool, true, false, ◌&&◌, not, Option, none, some, List, [], ◌∷◌, ◌++◌, Dict,
  lookup, insert, values, Result, ok, err, ltb, nat_eq, if◌then◌else◌, keep, length, take, is_empty,
  ◌==◌,
}
use liwaisi_assistant.Base.Reals.{Reals}
use liwaisi_assistant.Base.Words.{add64, div64}
use liwaisi_assistant.Base.Sort.{sort_by}
use liwaisi_assistant.Persist.Records.{StoreError, ledger_not_found, alive}

pub record CostRecord (R : Type 0) : Type 0 where
  pub session_id : String
  pub input_tokens : ℕ
  pub output_tokens : ℕ
  pub calls : ℕ
  pub total_cost_usd : R
  pub daily_total_usd : R
  pub last_updated : ℕ

pub record CostAggregate (R : Type 0) : Type 0 where
  pub total_input_tokens : ℕ
  pub total_output_tokens : ℕ
  pub total_calls : ℕ
  pub total_cost_usd : R

pub record ExecutionRecord (R : Type 0) : Type 0 where
  pub cpn_id : String
  pub cpn_role : String
  pub llm_calls : ℕ
  pub tool_calls : ℕ
  pub total_cost_usd : R
  pub duration_ms : ℕ
  pub success : Bool
  pub started_at : ℕ

pub record RankingMetrics (R : Type 0) : Type 0 where
  pub role : String
  pub avg_llm_calls : R
  pub avg_tool_calls : R
  pub avg_cost_usd : R
  pub avg_duration_ms : R
  pub success_rate : R
  pub execution_count : ℕ

pub record FlowAgg (R : Type 0) : Type 0 where
  pub role : String
  pub count : ℕ
  pub success_sum : R
  pub cost_sum : R
  pub dur_sum : ℕ

pub record RankedFlow (R : Type 0) : Type 0 where
  pub hash : String
  pub role : String
  pub score : R
  pub execution_count : ℕ
  pub success_rate : R
  pub avg_cost_usd : R
  pub avg_duration_ms : ℕ

abbrev pub between : (from to at : ℕ) → Bool
between from to at = not (ltb at from) && not (ltb to at)

module _ {R : Type 0} (reals : Reals R) where
  unfoldable pub with_record : (now : ℕ) → CostRecord R → CostRecord R → CostRecord R
  with_record now rec old = record old {
    input_tokens = add64 old.input_tokens rec.input_tokens;
    output_tokens = add64 old.output_tokens rec.output_tokens;
    calls = add64 old.calls rec.calls;
    total_cost_usd = reals.add old.total_cost_usd rec.total_cost_usd;
    last_updated = now;
  }

  unfoldable pub record_cost :
      (now : ℕ)
      → Option StoreError
      → CostRecord R
      → Dict (CostRecord R)
      → Result StoreError (Dict (CostRecord R))
  unfolding with_record
  record_cost now ctx rec m = alive ctx (elim (lookup rec.session_id m) [
    | some old ↦ ok (insert rec.session_id (with_record now rec old) m)
    | none ↦ ok (insert rec.session_id (record rec { last_updated = now }) m)
  ])

  unfoldable pub get_by_session :
      Option StoreError → String → Dict (CostRecord R) → Result StoreError (CostRecord R)
  get_by_session ctx session_id m =
      alive ctx (elim (lookup session_id m) [ none ↦ err ledger_not_found | some l ↦ ok l ])

  unfoldable pub query_by_date :
      (day_of : ℕ → ℕ)
      → Option StoreError
      → ℕ
      → Dict (CostRecord R)
      → Result StoreError (List (CostRecord R))
  query_by_date day_of ctx date m =
      alive ctx (ok (keep (λ l. nat_eq (day_of l.last_updated) (day_of date)) (values m)))

  unfoldable pub set_daily_total :
      Option StoreError → String → R → Dict (CostRecord R) → Result StoreError (Dict (CostRecord R))
  set_daily_total ctx session_id total m = alive ctx (elim (lookup session_id m) [
    | none ↦ err ledger_not_found
    | some l ↦ ok (insert session_id (record l { daily_total_usd = total }) m)
  ])

  unfoldable pub aggregate_costs :
      (from to : ℕ) → List (CostRecord R) → CostAggregate R → CostAggregate R
  aggregate_costs from to [] agg = agg
  aggregate_costs from to (l ∷ ls) agg = aggregate_costs from to ls (
      if between from to l.last_updated
      then record {
        total_input_tokens = add64 agg.total_input_tokens l.input_tokens;
        total_output_tokens = add64 agg.total_output_tokens l.output_tokens;
        total_calls = add64 agg.total_calls l.calls;
        total_cost_usd = reals.add agg.total_cost_usd l.total_cost_usd;
      }
      else agg)

  abbrev pub no_costs : CostAggregate R
  no_costs = record {
    total_input_tokens = 0;
    total_output_tokens = 0;
    total_calls = 0;
    total_cost_usd = reals.of_nat 0;
  }

  unfoldable pub aggregate_by_date_range :
      Option StoreError → (from to : ℕ) → Dict (CostRecord R) → Result StoreError (CostAggregate R)
  unfolding aggregate_costs
  aggregate_by_date_range ctx from to m =
      alive ctx (ok (aggregate_costs from to (values m) no_costs))

  abbrev pub Executions : Type 0
  Executions = List (ExecutionRecord R)

  unfoldable pub record_execution :
      Option StoreError → ExecutionRecord R → Executions → Result StoreError Executions
  record_execution ctx rec recs = alive ctx (ok (recs ++ rec ∷ []))

  unfoldable pub query_by_role :
      Option StoreError → String → (from to : ℕ) → Executions → Result StoreError Executions
  query_by_role ctx role from to recs =
      alive ctx (ok (keep (λ r. r.cpn_role == role && between from to r.started_at) recs))

  unfoldable pub sum_of : (ExecutionRecord R → R) → Executions → R → R
  sum_of f [] total = total
  sum_of f (r ∷ rs) total = sum_of f rs (reals.add total (f r))

  abbrev pub one_if : Bool → R → R
  one_if true total = reals.add total (reals.of_nat 1)
  one_if false total = total

  unfoldable pub successes : Executions → R → R
  successes [] total = total
  successes (r ∷ rs) total = successes rs (one_if r.success total)

  unfoldable pub aggregate :
      Option StoreError → String → (from to : ℕ) → Executions → Result StoreError (RankingMetrics R)
  unfolding sum_of successes
  aggregate ctx role from to recs =
      let matching = keep (λ r. r.cpn_role == role && between from to r.started_at) recs in
      let zero_r = reals.of_nat 0 in
      let n = reals.of_nat (length matching) in
      alive ctx (
        ok (
          if is_empty matching
          then record {
            role = role;
            avg_llm_calls = zero_r;
            avg_tool_calls = zero_r;
            avg_cost_usd = zero_r;
            avg_duration_ms = zero_r;
            success_rate = zero_r;
            execution_count = 0;
          }
          else record {
            role = role;
            avg_llm_calls = reals.div (sum_of (λ r. reals.of_nat r.llm_calls) matching zero_r) n;
            avg_tool_calls = reals.div (sum_of (λ r. reals.of_nat r.tool_calls) matching zero_r) n;
            avg_cost_usd = reals.div (sum_of (λ r. r.total_cost_usd) matching zero_r) n;
            avg_duration_ms =
                reals.div (sum_of (λ r. reals.of_nat r.duration_ms) matching zero_r) n;
            success_rate = reals.div (successes matching zero_r) n;
            execution_count = length matching;
          }))

  abbrev pub first_agg : ExecutionRecord R → FlowAgg R
  first_agg r = record {
    role = r.cpn_role;
    count = 0;
    success_sum = reals.of_nat 0;
    cost_sum = reals.of_nat 0;
    dur_sum = 0;
  }

  unfoldable pub with_execution : ExecutionRecord R → FlowAgg R → FlowAgg R
  with_execution r a = record a {
    count = add64 a.count 1;
    success_sum = one_if r.success a.success_sum;
    cost_sum = reals.add a.cost_sum r.total_cost_usd;
    dur_sum = add64 a.dur_sum r.duration_ms;
  }

  unfoldable pub by_hash : Executions → Dict (FlowAgg R) → Dict (FlowAgg R)
  unfolding with_execution
  by_hash [] m = m
  by_hash (r ∷ rs) m = by_hash rs (elim (lookup r.cpn_id m) [
    | none ↦ insert r.cpn_id (with_execution r (first_agg r)) m
    | some a ↦ insert r.cpn_id (with_execution r a) m
  ])

  unfoldable pub ranked : Dict (FlowAgg R) → List (RankedFlow R)
  ranked [] = []
  ranked (e ∷ m) =
      let n = reals.of_nat e.1.count in
      let success_rate = reals.div e.1.success_sum n in
      let avg_cost = reals.div e.1.cost_sum n in
      record {
        hash = e.0;
        role = e.1.role;
        score =
            reals.sub (reals.mul success_rate (reals.of_nat 100))
              (reals.mul avg_cost (reals.of_nat 10));
        execution_count = e.1.count;
        success_rate = success_rate;
        avg_cost_usd = avg_cost;
        avg_duration_ms = div64 e.1.dur_sum e.1.count;
      }
      ∷ ranked m

  abbrev pub top : ℕ → List (RankedFlow R) → List (RankedFlow R)
  top zero flows = flows
  top (suc n) flows = take (suc n) flows

  -- A number of flows that is not positive stands for all of them: zero here.
  unfoldable pub top_flows :
      Option StoreError → ℕ → Executions → Result StoreError (List (RankedFlow R))
  unfolding by_hash ranked
  top_flows ctx n recs =
      alive ctx
        (ok (top n (sort_by (λ a b. reals.less b.score a.score) (ranked (by_hash recs [])))))
