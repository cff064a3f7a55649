-- ===== src/Errors.antt =====
-- The errors of the interpreter: src/clarity/errors.rs and src/clarity/analysis/errors.rs.
-- `RuntimeErrorType` goes without `ASTError` and `JSONParseError`, whose payloads are values of the
-- parser and of serde, and `Error::Runtime` without its stack trace, which comparisons ignore.
use clarity_repl.Prelude.{ℕ, String, List}
use clarity_repl.Cost.{ExecutionCost, CostErrors}
use clarity_repl.Cost
use clarity_repl.Types.{TypeSignature, TypeMap}
use clarity_repl.Values.{Value}

pub data CheckErrors : Type 0 where
  cost_overflow : CheckErrors
  cost_balance_exceeded : ExecutionCost → ExecutionCost → CheckErrors
  memory_balance_exceeded : ℕ → ℕ → CheckErrors
  cost_computation_failed : String → CheckErrors
  value_too_large value_out_of_bounds type_signature_too_deep expected_name : CheckErrors
  bad_match_option_syntax bad_match_response_syntax : CheckErrors → CheckErrors
  bad_match_input : TypeSignature → CheckErrors
  unknown_list_construction_failure list_types_must_match constructed_list_too_large : CheckErrors
  type_error type_literal_error : TypeSignature → TypeSignature → CheckErrors
  type_value_error : TypeSignature → Value → CheckErrors
  no_super_type : TypeSignature → TypeSignature → CheckErrors
  invalid_type_description : CheckErrors
  unknown_type_name : String → CheckErrors
  union_type_error : List TypeSignature → TypeSignature → CheckErrors
  union_type_value_error : List TypeSignature → Value → CheckErrors
  expected_literal : CheckErrors
  expected_optional_type expected_response_type expected_optional_or_response_type :
      TypeSignature → CheckErrors
  expected_optional_value expected_response_value expected_optional_or_response_value :
      Value → CheckErrors
  could_not_determine_response_ok_type could_not_determine_response_err_type : CheckErrors
  unchecked_intermediary_responses could_not_determine_match_types type_already_annotated_failure :
      CheckErrors
  type_annotation_expected_failure checker_implementation_failure bad_token_name : CheckErrors
  define_ft_bad_signature define_nft_bad_signature : CheckErrors
  no_such_nft no_such_ft : String → CheckErrors
  bad_transfer_stx_arguments bad_transfer_ft_arguments bad_transfer_nft_arguments : CheckErrors
  bad_mint_ft_arguments bad_burn_ft_arguments bad_tuple_field_name : CheckErrors
  expected_tuple : TypeSignature → CheckErrors
  no_such_tuple_field : String → TypeMap → CheckErrors
  empty_tuples_not_allowed bad_tuple_construction tuple_expects_pairs : CheckErrors
  no_such_data_variable : String → CheckErrors
  bad_map_name : CheckErrors
  no_such_map : String → CheckErrors
  define_function_bad_signature bad_function_name bad_map_type_definition : CheckErrors
  public_function_must_return_response : TypeSignature → CheckErrors
  define_variable_bad_signature : CheckErrors
  return_types_must_match : TypeSignature → TypeSignature → CheckErrors
  circular_reference : List String → CheckErrors
  no_such_contract : String → CheckErrors
  no_such_public_function public_function_not_read_only : String → String → CheckErrors
  contract_already_exists : String → CheckErrors
  contract_call_expect_name : CheckErrors
  no_such_block_info_property : String → CheckErrors
  get_block_info_expect_property_name : CheckErrors
  name_already_used : String → CheckErrors
  non_function_application expected_list_application : CheckErrors
  expected_sequence : TypeSignature → CheckErrors
  max_length_overflow bad_let_syntax bad_syntax_binding bad_syntax_expected_list_of_pairs :
      CheckErrors
  max_context_depth_reached : CheckErrors
  undefined_function undefined_variable : String → CheckErrors
  requires_at_least_arguments incorrect_argument_count : ℕ → ℕ → CheckErrors
  if_arms_must_match match_arms_must_match default_types_must_match :
      TypeSignature → TypeSignature → CheckErrors
  too_many_expressions : CheckErrors
  illegal_or_unknown_function_application unknown_function trait_reference_unknown :
      String → CheckErrors
  trait_method_unknown : String → String → CheckErrors
  expected_trait_identifier import_trait_bad_signature trait_reference_not_allowed : CheckErrors
  bad_trait_implementation : String → String → CheckErrors
  define_trait_bad_signature unexpected_trait_or_field_reference
        trait_based_contract_call_in_read_only :
      CheckErrors
  contract_of_expects_trait invalid_characters_detected invalid_secp65k1_signature : CheckErrors
  write_attempted_in_read_only at_block_closure_must_be_read_only : CheckErrors

pub data InterpreterError : Type 0 where
  bad_sender : Value → InterpreterError
  bad_symbolic_representation interpreter_error : String → InterpreterError
  uninitialized_persisted_variable failed_to_construct_asset_table failed_to_construct_event_batch :
      InterpreterError
  bad_file_name failed_to_create_data_directory failure_constructing_tuple_with_type :
      InterpreterError
  failure_constructing_list_with_type insufficient_balance cost_contract_load_failure :
      InterpreterError

pub data RuntimeErrorType : Type 0 where
  arithmetic : String → RuntimeErrorType
  arithmetic_overflow arithmetic_underflow : RuntimeErrorType
  supply_overflow supply_underflow : ℕ → ℕ → RuntimeErrorType
  division_by_zero : RuntimeErrorType
  parse_error : String → RuntimeErrorType
  max_stack_depth_reached max_context_depth_reached list_dimension_too_high : RuntimeErrorType
  bad_type_construction value_too_large : RuntimeErrorType
  bad_block_height : String → RuntimeErrorType
  transfer_non_positive_amount no_such_token not_implemented no_sender_in_context : RuntimeErrorType
  non_positive_token_supply attempt_to_fetch_in_transient_context : RuntimeErrorType
  bad_name_value : String → String → RuntimeErrorType
  bad_block_hash : List ℕ → RuntimeErrorType
  unwrap_failure : RuntimeErrorType

pub data ShortReturnType : Type 0 where
  expected_value assertion_failed : Value → ShortReturnType

pub data Error : Type 0 where
  unchecked : CheckErrors → Error
  interpreter : InterpreterError → Error
  runtime : RuntimeErrorType → Error
  short_return : ShortReturnType → Error

-- `From<CostErrors> for CheckErrors`
unfoldable pub from_cost_errors : CostErrors → CheckErrors
from_cost_errors Cost.cost_overflow = CheckErrors.cost_overflow
from_cost_errors (Cost.cost_balance_exceeded a b) = CheckErrors.cost_balance_exceeded a b
from_cost_errors (Cost.memory_balance_exceeded a b) = CheckErrors.memory_balance_exceeded a b
from_cost_errors (Cost.cost_computation_failed s) = CheckErrors.cost_computation_failed s
from_cost_errors Cost.cost_contract_load_failure =
    CheckErrors.cost_computation_failed "Failed to load cost contract"
