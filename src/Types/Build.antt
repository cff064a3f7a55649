-- ===== src/Types/Build.antt =====
-- The guarded constructors of types (src/clarity/types/signatures.rs): each fails rather than build
-- a type that is too large or too deep.
use clarity_repl.Prelude.{ℕ, ◌+◌, max, String, Bool, true, false, List, [], ◌∷◌, ltb, if◌then◌else◌}
use clarity_repl.Prelude.Int.{ℤ, pos, negsuc}
use clarity_repl.Prelude.Result.{Result, ok, err, panic, ok_or, ◌>>=◌}
use clarity_repl.Prelude.Machine.{checked_mul, u64_mod}
use clarity_repl.Prelude.Map.{is_some}
use clarity_repl.Errors.{
  CheckErrors, value_too_large, value_out_of_bounds, type_signature_too_deep, name_already_used,
  empty_tuples_not_allowed,
}
use clarity_repl.Types.{
  TypeSignature, TypeMap, no_type, list_type, tuple_type, optional_type, response_type, no_fields,
  field, field_type, max_value_size, max_type_depth, wrapper_value_size,
}
use clarity_repl.Types.Size.{Maybe, depth, inner_size, size}
use Prim.Native.String.{compare}
use Prim.Native.Nat.{Ordering}

abbrev pub Checked : Type 0 → Type 0
Checked A = Result CheckErrors A

-- `BufferLength::try_from` of a u32 or usize, and of an i128
unfoldable pub buffer_length : ℕ → Checked ℕ
buffer_length n = if ltb max_value_size n then err value_too_large else ok n

unfoldable pub buffer_length_of_int : ℤ → Checked ℕ
buffer_length_of_int (pos n) = if ltb max_value_size n then err value_too_large else ok n
buffer_length_of_int (negsuc n) = err value_out_of_bounds

-- `StringUTF8Length::try_from` of a usize: four bytes are charged for each character
unfoldable pub string_utf8_length : ℕ → Checked ℕ
string_utf8_length n = do
  bytes ← ok_or (checked_mul u64_mod n 4) value_too_large
  if ltb max_value_size bytes then err value_too_large else ok n

-- `if new_size > MAX_VALUE_SIZE { .. } else if new_depth > MAX_TYPE_DEPTH { .. } else { .. }`
abbrev pub guarded : ℕ → ℕ → TypeSignature → Checked TypeSignature
guarded new_size new_depth t =
    if ltb max_value_size new_size
    then err value_too_large
    else if ltb max_type_depth new_depth
    then err type_signature_too_deep
    else ok t

unfoldable pub new_option : TypeSignature → Checked TypeSignature
new_option inner_type = do
  s ← size inner_type
  guarded (wrapper_value_size + s) (1 + depth inner_type) (optional_type inner_type)

unfoldable pub new_response : TypeSignature → TypeSignature → Checked TypeSignature
new_response ok_type err_type = do
  s ← size ok_type
  r ← size err_type
  guarded (wrapper_value_size + max s r) (1 + max (depth ok_type) (depth err_type))
      (response_type ok_type err_type)

-- `inner_size().ok_or_else(|| ValueTooLarge)?` and the bound that follows, on the type `t`
abbrev pub bounded : TypeSignature → Maybe ℕ → Checked TypeSignature
bounded t (ok s) = if ltb max_value_size s then err value_too_large else ok t
bounded t (err _) = err value_too_large
bounded t panic = panic

-- `ListTypeData::new_list` and `TypeSignature::list_of`
unfoldable pub list_of : TypeSignature → ℕ → Checked TypeSignature
list_of entry_type max_len =
    if ltb max_type_depth (1 + depth entry_type)
    then err type_signature_too_deep
    else bounded (list_type entry_type max_len) (inner_size (list_type entry_type max_len))

abbrev pub empty_list : TypeSignature
empty_list = list_type no_type 0

-- the loop over `type_map.values()`
unfoldable pub fields_fit : TypeMap → Bool
fields_fit no_fields = true
fields_fit (field name t rest) = if ltb max_type_depth (1 + depth t) then false else fields_fit rest

-- `TupleTypeSignature::try_from(BTreeMap)`
unfoldable pub tuple_of : TypeMap → Checked TypeSignature
unfolding fields_fit
tuple_of no_fields = err empty_tuples_not_allowed
tuple_of m =
    if fields_fit m
    then bounded (tuple_type m) (inner_size (tuple_type m))
    else err type_signature_too_deep

-- `BTreeMap::insert` of a new name: before the first larger one
unfoldable pub insert_field : String → TypeSignature → TypeMap → TypeMap
insert_field name t no_fields = field name t no_fields
insert_field name t (field k s rest) = elim (compare name k) [
  | Ordering.lt ↦ field name t (field k s rest)
  | Ordering.eq ↦ field name t rest
  | Ordering.gt ↦ field k s (insert_field name t rest)
]

-- the loop of `TupleTypeSignature::try_from(Vec)`
unfoldable pub collect_fields : List (String × TypeSignature) → TypeMap → Checked TypeMap
unfolding insert_field field_type
collect_fields [] m = ok m
collect_fields ((name, t) ∷ rest) m =
    let more = collect_fields rest (insert_field name t m) in
    if is_some (field_type m name) then err (name_already_used name) else more

-- `TupleTypeSignature::try_from(Vec)`
unfoldable pub tuple_of_list : List (String × TypeSignature) → Checked TypeSignature
unfolding collect_fields tuple_of
tuple_of_list [] = err empty_tuples_not_allowed
tuple_of_list (p ∷ rest) = do m ← collect_fields (p ∷ rest) no_fields; tuple_of m
