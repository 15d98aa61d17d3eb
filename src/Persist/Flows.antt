-- ===== src/Persist/Flows.antt =====
-- MemoryFlowRepository of back/go-assistant/cpn/persist/memory.go, whose flows are deleted softly.
use liwaisi_assistant.Base.{
  ℕ, ℤ, pos, String, Bool, true, ◌&&◌, ◌||◌, not, Option, none, some, List, Dict, lookup, insert,
  values, Result, ok, err, ltb, is_some, if◌then◌else◌, keep, ◌==◌,
}
use liwaisi_assistant.Base.Sort.{sort_by}
use liwaisi_assistant.Persist.Records.{StoreError, flow_not_found, alive, Page}
use liwaisi_assistant.Persist.Paging.{default_page_limit, limit_or, offset_of, cut}

-- The two rates are float64 values, which are only stored.
pub record FlowStats (R : Type 0) : Type 0 where
  pub execution_count : ℕ
  pub success_rate : R
  pub avg_cost_usd : R
  pub avg_duration_ms : ℕ

pub record FlowRecord (R : Type 0) : Type 0 where
  pub hash : String
  pub role : String
  pub topology_json : String
  pub function_mapping : String
  pub stats : FlowStats R
  pub created_at : ℕ
  pub updated_at : ℕ
  pub deleted_at : Option ℕ

pub record FlowListOpts : Type 0 where
  pub role : String
  pub limit : ℤ
  pub cursor : String

abbrev pub Flows : (R : Type 0) → Type 0
Flows R = Dict (FlowRecord R)

module _ {R : Type 0} where
  unfoldable pub save : Option StoreError → FlowRecord R → Flows R → Result StoreError (Flows R)
  save ctx flow m = alive ctx (ok (insert flow.hash flow m))

  unfoldable pub get_by_hash :
      Option StoreError → String → Flows R → Result StoreError (FlowRecord R)
  get_by_hash ctx hash m = alive ctx (elim (lookup hash m) [
    | none ↦ err flow_not_found
    | some f ↦ if is_some f.deleted_at then err flow_not_found else ok f
  ])

  abbrev pub role_fits : Option FlowListOpts → FlowRecord R → Bool
  role_fits none f = true
  role_fits (some opts) f = opts.role == "" || f.role == opts.role

  abbrev pub flow_cut : Option FlowListOpts → List (FlowRecord R) → Option (Page (FlowRecord R))
  flow_cut none items = cut default_page_limit (pos 0) items
  flow_cut (some opts) items =
      cut (limit_or default_page_limit opts.limit) (offset_of opts.cursor) items

  unfoldable pub list_flows :
      Option StoreError
      → Option FlowListOpts
      → Flows R
      → Result StoreError (Option (Page (FlowRecord R)))
  list_flows ctx opts m = alive ctx (
      ok (
        flow_cut opts (
          sort_by (λ a b. ltb a.created_at b.created_at)
            (keep (λ f. not (is_some f.deleted_at) && role_fits opts f) (values m)))))

  unfoldable pub update_stats :
      (now : ℕ) → Option StoreError → String → FlowStats R → Flows R → Result StoreError (Flows R)
  update_stats now ctx hash stats m = alive ctx (elim (lookup hash m) [
    | none ↦ err flow_not_found
    | some f ↦
        if is_some f.deleted_at
        then err flow_not_found
        else ok (insert hash (record f { stats = stats; updated_at = now }) m)
  ])

  unfoldable pub delete_flow :
      (now : ℕ) → Option StoreError → String → Flows R → Result StoreError (Flows R)
  delete_flow now ctx hash m = alive ctx (elim (lookup hash m) [
    | none ↦ err flow_not_found
    | some f ↦ ok (insert hash (record f { deleted_at = some now }) m)
  ])
