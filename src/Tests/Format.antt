-- ===== src/Tests/Format.antt =====
-- Wrapping values, and writing and reading them.
use clarity_repl.Prelude.{
  ℕ, ◌≡◌, ◌↔◌, ◌⊎◌, refl, String, Bool, true, false, none, List, [], ◌∷◌, ◌++◌, arith,
}
use clarity_repl.Prelude.Int.{negsuc}
use clarity_repl.Prelude.Result.{ok}
use clarity_repl.Types.{optional_type, list_type, uint_type, int_type, bool_type, no_fields, field}
use clarity_repl.Values.{
  Value, int, uint, bool, list, tuple, string_ascii, none_value, some_value, response, nil, cons,
  no_entries, entry,
}
use clarity_repl.Functions.Options.{
  native_unwrap, native_unwrap_or_ret, native_unwrap_err, native_unwrap_err_or_ret, native_try_ret,
  native_some, native_is_some, native_is_none, native_is_okay, native_is_err, native_default_to,
}
use clarity_repl.Functions.Options.Laws.{IsSuccess, unwrap-some, unwrap_iff}
use clarity_repl.Types.{field_type, len}
use clarity_repl.Types.Build.{new_option, insert_field, tuple_of, list_of}
use clarity_repl.Types.Size.{inner_size, inner_type_size, depth}
use clarity_repl.Types.Admits.{least_supertype, type_beq}
use clarity_repl.Values.Make.{from_data, list_from}
use clarity_repl.Values.TypeOf.{type_of, some_of}
use clarity_repl.Values.Utf8.{as_bytes, encode}
use clarity_repl.Serialization.Write.{serialize_write}
use clarity_repl.Serialization.Read.{inner_deserialize_read}
use clarity_repl.Serialization.Rebuilt.{IsRebuilt}
use clarity_repl.Serialization.Steps.{IsName}
use clarity_repl.Serialization.RoundTrip.{inner_deserialize_read-serialize_write}

unwrap-some_example :
    (native_unwrap (some_value (uint 5)) ≡ ok (uint 5))
    × (native_unwrap_or_ret (some_value (uint 5)) (bool false) ≡ ok (uint 5))
    × (native_try_ret (some_value (uint 5)) ≡ ok (uint 5))
    × (native_default_to (bool false) (some_value (uint 5)) ≡ ok (uint 5))
    × (native_is_some (some_value (uint 5)) ≡ ok (bool true))
    × (native_is_none (some_value (uint 5)) ≡ ok (bool false))
unfolding native_some clarity_repl.Values.TypeOf.some_of clarity_repl.Values.TypeOf.type_of
    clarity_repl.Types.Size.inner_size clarity_repl.Types.Size.depth
unwrap-some_example = unwrap-some (uint 5) (some_value (uint 5)) (bool false) refl

unwrap_iff_example :
    ((native_unwrap (response false (uint 5)) ≡ ok (uint 5))
      ↔ IsSuccess (response false (uint 5)) (uint 5))
    × ((native_unwrap_or_ret (response false (uint 5)) (bool false) ≡ ok (uint 5))
        ↔ IsSuccess (response false (uint 5)) (uint 5))
    × ((native_try_ret (response false (uint 5)) ≡ ok (uint 5))
        ↔ IsSuccess (response false (uint 5)) (uint 5))
    × ((native_unwrap_err (response false (uint 5)) ≡ ok (uint 5))
        ↔ (response false (uint 5) ≡ response false (uint 5)))
    × ((native_unwrap_err_or_ret (response false (uint 5)) (bool false) ≡ ok (uint 5))
        ↔ (response false (uint 5) ≡ response false (uint 5)))
    × (((native_is_okay (response false (uint 5)) ≡ ok (bool true))
          ⊎ (native_is_some (response false (uint 5)) ≡ ok (bool true)))
        ↔ ((u : Value) × (native_unwrap (response false (uint 5)) ≡ ok u)))
    × ((native_is_err (response false (uint 5)) ≡ ok (bool true))
        ↔ ((u : Value) × (native_unwrap_err (response false (uint 5)) ≡ ok u)))
unwrap_iff_example = unwrap_iff (response false (uint 5)) (uint 5) (bool false)

-- (some (list u1 u2)) in a tuple beside a text
abbrev sample : Value
sample =
    tuple
      (entry "a" (some_value (list (cons (uint 1) (cons (uint 2) nil)) uint_type 2))
        (entry "b" (int (negsuc 4)) no_entries))
      (field "a" (optional_type (list_type uint_type 2)) (field "b" int_type no_fields))

abbrev any_name : String → Bool
any_name s = true

letter_a : IsName any_name "a"
unfolding as_bytes encode
letter_a = record { ascii = (omega arith, tt); short = ground arith; matches = refl }

letter_b : IsName any_name "b"
unfolding as_bytes encode
letter_b = record { ascii = (omega arith, tt); short = ground arith; matches = refl }

sample-IsRebuilt : IsRebuilt any_name any_name 16 sample
unfolding IsRebuilt from_data type_of new_option inner_size inner_type_size depth field_type
    insert_field tuple_of len some_of list_from least_supertype type_beq list_of
sample-IsRebuilt = (
  refl,
  omega arith,
  (
    letter_a,
    (refl, (refl, omega arith, (omega arith, (omega arith, tt)))),
    (letter_b, omega arith, tt),
  ),
)

inner_deserialize_read-serialize_write_example :
    (bytes : List ℕ) × (serialize_write sample ≡ ok bytes)
    × (inner_deserialize_read any_name any_name 16 none (bytes ++ (7 ∷ [])) ≡ (ok sample, 7 ∷ []))
inner_deserialize_read-serialize_write_example =
    inner_deserialize_read-serialize_write any_name any_name sample (7 ∷ []) sample-IsRebuilt
