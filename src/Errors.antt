-- ===== src/Errors.antt =====
-- back/go-assistant/cpn/errors.go and the errors that the modelled functions build with
-- `fmt.Errorf`: a constructor for each sentinel or message, with the values that the message names
-- and the error that it wraps. `external n` is an error of a callback, told apart by its number.
use liwaisi_assistant.Base.{ℕ, String, List}

-- One entry of `ValidationErrors` (validate.go).
pub data Problem : Type 0 where
  invalid_arc : (transition place : String) → Problem
  space_violation : (transition place : String) → Problem
  hitl_nil_config : (transition : String) → Problem
  hitl_nil_channel : (transition : String) → Problem
  bash_missing_config : (transition : String) → Problem
  bash_missing_command : (transition : String) → Problem
  bash_invalid_output_color : (transition place : String) → Problem

pub data Error : Type 0 where
  color_mismatch space_mismatch space_violation empty_place : (place : String) → Error
  deadlock timeout circuit_open children_completed : Error
  no_hitl_waiting already_registered nil_root not_in_root not_hitl : (transition : String) → Error
  canceled : (transition : String) → Error
  validation_errors : List Problem → Error
  nil_executor no_consumed : (transition : String) → Error
  output_not_found no_result_token : (transition place : String) → Error
  deposit_failed : (transition place : String) → Error → Error
  error_place_deposit_failed sub_net_failed : Error → Error
  deposits_failed : (number : ℕ) → Error
  invalid_node_kind : Error
  mutation_not_permitted missing_def empty_id unknown_mutation : Error
  already_exists not_found place_missing : String → Error
  hitl_misconfigured hitl_channel_closed hitl_unsupported : (transition : String) → Error
  hitl_closed not_human hitl_rejected hitl_max_revisions : Error
  correction_missing unknown_action : (transition : String) → Error
  revision_failed correction_failed : (round : ℕ) → Error → Error
  output_failed validation_failed : (transition : String) → Error → Error
  nil_validate_config error_place_missing : (transition : String) → Error
  external : ℕ → Error
