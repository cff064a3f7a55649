-- ===== src/CostFunctions.antt =====
-- `ClarityCostFunction` of src/clarity/costs/cost_functions.rs, through `define_named_enum!` of
-- src/clarity/util/macros.rs. `if`, `let`, `map` and `mod` stand as `if_`, `let_`, `map_` and `mod_`.
use Prim.Native.String.{String}
use mathlib.Core.Path.{◌≡◌, refl}
use mathlib.Core.Option.{Option, none, some}
use mathlib.Core.List.{List, [], ◌∷◌}
use text.Mathlib.Text.{◌==◌}
use clarity_repl.Prelude.{if◌then◌else◌}

pub data ClarityCostFunction : Type 0 where
  analysis_type_annotate analysis_type_check analysis_type_lookup : ClarityCostFunction
  analysis_visit analysis_iterable_func analysis_option_cons : ClarityCostFunction
  analysis_option_check analysis_bind_name analysis_list_items_check : ClarityCostFunction
  analysis_check_tuple_get analysis_check_tuple_merge : ClarityCostFunction
  analysis_check_tuple_cons analysis_tuple_items_check : ClarityCostFunction
  analysis_check_let analysis_lookup_function : ClarityCostFunction
  analysis_lookup_function_types analysis_lookup_variable_const : ClarityCostFunction
  analysis_lookup_variable_depth ast_parse ast_cycle_detection : ClarityCostFunction
  analysis_storage analysis_use_trait_entry analysis_get_function_entry : ClarityCostFunction
  analysis_fetch_contract_entry lookup_variable_depth : ClarityCostFunction
  lookup_variable_size lookup_function bind_name inner_type_check_cost : ClarityCostFunction
  user_function_application let_ if_ asserts map_ filter len element_at : ClarityCostFunction
  index_of fold list_cons type_parse_step tuple_get tuple_merge : ClarityCostFunction
  tuple_cons add sub mul div geq leq le ge int_cast mod_ pow sqrti log2 : ClarityCostFunction
  xor not eq begin hash160 sha256 sha512 sha512t256 keccak256 : ClarityCostFunction
  secp256k1recover secp256k1verify print some_cons ok_cons err_cons : ClarityCostFunction
  default_to unwrap_ret unwrap_err_or_ret is_okay is_none is_err is_some : ClarityCostFunction
  unwrap unwrap_err try_ret match or and append concat as_max_len : ClarityCostFunction
  contract_call contract_of principal_of at_block load_contract : ClarityCostFunction
  create_map create_var create_nft create_ft fetch_entry set_entry : ClarityCostFunction
  fetch_var set_var contract_storage block_info stx_balance stx_transfer : ClarityCostFunction
  ft_mint ft_transfer ft_balance ft_supply ft_burn nft_mint nft_transfer : ClarityCostFunction
  nft_owner nft_burn poison_microblock : ClarityCostFunction

abbrev pub all_functions : List ClarityCostFunction
all_functions =
    analysis_type_annotate ∷ analysis_type_check ∷ analysis_type_lookup ∷ analysis_visit
    ∷ analysis_iterable_func ∷ analysis_option_cons ∷ analysis_option_check ∷ analysis_bind_name
    ∷ analysis_list_items_check ∷ analysis_check_tuple_get ∷ analysis_check_tuple_merge
    ∷ analysis_check_tuple_cons ∷ analysis_tuple_items_check ∷ analysis_check_let
    ∷ analysis_lookup_function ∷ analysis_lookup_function_types ∷ analysis_lookup_variable_const
    ∷ analysis_lookup_variable_depth ∷ ast_parse ∷ ast_cycle_detection ∷ analysis_storage
    ∷ analysis_use_trait_entry ∷ analysis_get_function_entry ∷ analysis_fetch_contract_entry
    ∷ lookup_variable_depth ∷ lookup_variable_size ∷ lookup_function ∷ bind_name
    ∷ inner_type_check_cost ∷ user_function_application ∷ let_ ∷ if_ ∷ asserts ∷ map_ ∷ filter ∷ len
    ∷ element_at ∷ index_of ∷ fold ∷ list_cons ∷ type_parse_step ∷ tuple_get ∷ tuple_merge
    ∷ tuple_cons ∷ add ∷ sub ∷ mul ∷ div ∷ geq ∷ leq ∷ le ∷ ge ∷ int_cast ∷ mod_ ∷ pow ∷ sqrti
    ∷ log2 ∷ xor ∷ not ∷ eq ∷ begin ∷ hash160 ∷ sha256 ∷ sha512 ∷ sha512t256 ∷ keccak256
    ∷ secp256k1recover ∷ secp256k1verify ∷ print ∷ some_cons ∷ ok_cons ∷ err_cons ∷ default_to
    ∷ unwrap_ret ∷ unwrap_err_or_ret ∷ is_okay ∷ is_none ∷ is_err ∷ is_some ∷ unwrap ∷ unwrap_err
    ∷ try_ret ∷ match ∷ or ∷ and ∷ append ∷ concat ∷ as_max_len ∷ contract_call ∷ contract_of
    ∷ principal_of ∷ at_block ∷ load_contract ∷ create_map ∷ create_var ∷ create_nft ∷ create_ft
    ∷ fetch_entry ∷ set_entry ∷ fetch_var ∷ set_var ∷ contract_storage ∷ block_info ∷ stx_balance
    ∷ stx_transfer ∷ ft_mint ∷ ft_transfer ∷ ft_balance ∷ ft_supply ∷ ft_burn ∷ nft_mint
    ∷ nft_transfer ∷ nft_owner ∷ nft_burn ∷ poison_microblock ∷ []

unfoldable pub get_name : ClarityCostFunction → String
get_name analysis_type_annotate = "cost_analysis_type_annotate"
get_name analysis_type_check = "cost_analysis_type_check"
get_name analysis_type_lookup = "cost_analysis_type_lookup"
get_name analysis_visit = "cost_analysis_visit"
get_name analysis_iterable_func = "cost_analysis_iterable_func"
get_name analysis_option_cons = "cost_analysis_option_cons"
get_name analysis_option_check = "cost_analysis_option_check"
get_name analysis_bind_name = "cost_analysis_bind_name"
get_name analysis_list_items_check = "cost_analysis_list_items_check"
get_name analysis_check_tuple_get = "cost_analysis_check_tuple_get"
get_name analysis_check_tuple_merge = "cost_analysis_check_tuple_merge"
get_name analysis_check_tuple_cons = "cost_analysis_check_tuple_cons"
get_name analysis_tuple_items_check = "cost_analysis_tuple_items_check"
get_name analysis_check_let = "cost_analysis_check_let"
get_name analysis_lookup_function = "cost_analysis_lookup_function"
get_name analysis_lookup_function_types = "cost_analysis_lookup_function_types"
get_name analysis_lookup_variable_const = "cost_analysis_lookup_variable_const"
get_name analysis_lookup_variable_depth = "cost_analysis_lookup_variable_depth"
get_name ast_parse = "cost_ast_parse"
get_name ast_cycle_detection = "cost_ast_cycle_detection"
get_name analysis_storage = "cost_analysis_storage"
get_name analysis_use_trait_entry = "cost_analysis_use_trait_entry"
get_name analysis_get_function_entry = "cost_analysis_get_function_entry"
get_name analysis_fetch_contract_entry = "cost_analysis_fetch_contract_entry"
get_name lookup_variable_depth = "cost_lookup_variable_depth"
get_name lookup_variable_size = "cost_lookup_variable_size"
get_name lookup_function = "cost_lookup_function"
get_name bind_name = "cost_bind_name"
get_name inner_type_check_cost = "cost_inner_type_check_cost"
get_name user_function_application = "cost_user_function_application"
get_name let_ = "cost_let"
get_name if_ = "cost_if"
get_name asserts = "cost_asserts"
get_name map_ = "cost_map"
get_name filter = "cost_filter"
get_name len = "cost_len"
get_name element_at = "cost_element_at"
get_name index_of = "cost_index_of"
get_name fold = "cost_fold"
get_name list_cons = "cost_list_cons"
get_name type_parse_step = "cost_type_parse_step"
get_name tuple_get = "cost_tuple_get"
get_name tuple_merge = "cost_tuple_merge"
get_name tuple_cons = "cost_tuple_cons"
get_name add = "cost_add"
get_name sub = "cost_sub"
get_name mul = "cost_mul"
get_name div = "cost_div"
get_name geq = "cost_geq"
get_name leq = "cost_leq"
get_name le = "cost_le"
get_name ge = "cost_ge"
get_name int_cast = "cost_int_cast"
get_name mod_ = "cost_mod"
get_name pow = "cost_pow"
get_name sqrti = "cost_sqrti"
get_name log2 = "cost_log2"
get_name xor = "cost_xor"
get_name not = "cost_not"
get_name eq = "cost_eq"
get_name begin = "cost_begin"
get_name hash160 = "cost_hash160"
get_name sha256 = "cost_sha256"
get_name sha512 = "cost_sha512"
get_name sha512t256 = "cost_sha512t256"
get_name keccak256 = "cost_keccak256"
get_name secp256k1recover = "cost_secp256k1recover"
get_name secp256k1verify = "cost_secp256k1verify"
get_name print = "cost_print"
get_name some_cons = "cost_some_cons"
get_name ok_cons = "cost_ok_cons"
get_name err_cons = "cost_err_cons"
get_name default_to = "cost_default_to"
get_name unwrap_ret = "cost_unwrap_ret"
get_name unwrap_err_or_ret = "cost_unwrap_err_or_ret"
get_name is_okay = "cost_is_okay"
get_name is_none = "cost_is_none"
get_name is_err = "cost_is_err"
get_name is_some = "cost_is_some"
get_name unwrap = "cost_unwrap"
get_name unwrap_err = "cost_unwrap_err"
get_name try_ret = "cost_try_ret"
get_name match = "cost_match"
get_name or = "cost_or"
get_name and = "cost_and"
get_name append = "cost_append"
get_name concat = "cost_concat"
get_name as_max_len = "cost_as_max_len"
get_name contract_call = "cost_contract_call"
get_name contract_of = "cost_contract_of"
get_name principal_of = "cost_principal_of"
get_name at_block = "cost_at_block"
get_name load_contract = "cost_load_contract"
get_name create_map = "cost_create_map"
get_name create_var = "cost_create_var"
get_name create_nft = "cost_create_nft"
get_name create_ft = "cost_create_ft"
get_name fetch_entry = "cost_fetch_entry"
get_name set_entry = "cost_set_entry"
get_name fetch_var = "cost_fetch_var"
get_name set_var = "cost_set_var"
get_name contract_storage = "cost_contract_storage"
get_name block_info = "cost_block_info"
get_name stx_balance = "cost_stx_balance"
get_name stx_transfer = "cost_stx_transfer"
get_name ft_mint = "cost_ft_mint"
get_name ft_transfer = "cost_ft_transfer"
get_name ft_balance = "cost_ft_balance"
get_name ft_supply = "cost_ft_get_supply"
get_name ft_burn = "cost_ft_burn"
get_name nft_mint = "cost_nft_mint"
get_name nft_transfer = "cost_nft_transfer"
get_name nft_owner = "cost_nft_owner"
get_name nft_burn = "cost_nft_burn"
get_name poison_microblock = "poison_microblock"

-- the `match` of `lookup_by_name`, over the variants that are left
abbrev pub find_name : String → List ClarityCostFunction → Option ClarityCostFunction
unfolding get_name
find_name name [] = none
find_name name (f ∷ rest) = if get_name f == name then some f else find_name name rest

unfoldable pub lookup_by_name : String → Option ClarityCostFunction
lookup_by_name name = find_name name all_functions

-- Looking up the name of a cost function gives the cost function.
pub lookup_by_name-get_name : (f : ClarityCostFunction) → lookup_by_name (get_name f) ≡ some f
unfolding lookup_by_name get_name
lookup_by_name-get_name analysis_type_annotate = refl
lookup_by_name-get_name _ = refl
