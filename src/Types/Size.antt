-- ===== src/Types/Size.antt =====
-- `depth`, `size` and `type_size` of src/clarity/types/signatures.rs. `size` panics where
-- `inner_size` fails; u32 arithmetic is checked as the source checks it.
use Prim.Native.String.{len as byte_len}
use clarity_repl.Prelude.{ℕ, ◌+◌, ◌*◌, ◌%◌, max, ltb, if◌then◌else◌}
use clarity_repl.Prelude.Result.{Result, ok, err, expect, ok_or, ◌>>=◌}
use clarity_repl.Prelude.Machine.{checked_add, checked_mul, u32_mod}
use clarity_repl.Types.{
  TypeSignature, TypeMap, no_type, int_type, uint_type, bool_type, principal_type, buffer_type,
  string_ascii_type, string_utf8_type, list_type, tuple_type, optional_type, response_type,
  trait_reference_type, no_fields, field, len, max_value_size, wrapper_value_size,
}

-- `Option<A>` of code that may panic
abbrev pub Maybe : Type 0 → Type 0
Maybe A = Result (Unit {0}) A

abbrev pub add32 : ℕ → ℕ → Maybe ℕ
add32 a b = ok_or (checked_add u32_mod a b) tt

abbrev pub mul32 : ℕ → ℕ → Maybe ℕ
mul32 a b = ok_or (checked_mul u32_mod a b) tt

-- `if total_size > MAX_VALUE_SIZE { None } else { Some(total_size) }`
abbrev pub within_max : ℕ → Maybe ℕ
within_max n = if ltb max_value_size n then err tt else ok n

-- A u8 in the source, which only types deeper than any that a constructor builds overflow.
unfoldable mutual
  pub depth : TypeSignature → ℕ
  depth (tuple_type m) = 1 + max_depth m
  depth (list_type t n) = 1 + depth t
  depth (optional_type t) = 1 + depth t
  depth (response_type t s) = 1 + max (depth t) (depth s)
  depth _ = 1

  pub max_depth : TypeMap → ℕ
  max_depth no_fields = 0
  max_depth (field name t rest) = max (depth t) (max_depth rest)

-- The size of the type signature.
unfoldable mutual
  pub inner_type_size : TypeSignature → Maybe ℕ
  inner_type_size (tuple_type m) = do
    start ← mul32 (len m) 2
    total ← field_type_sizes m start
    within_max total
  inner_type_size (buffer_type n) = ok (1 + 4)
  inner_type_size (string_ascii_type n) = ok (1 + 4)
  inner_type_size (string_utf8_type n) = ok (1 + 4)
  inner_type_size (list_type t n) = do
    s ← inner_type_size t
    total ← add32 s (4 + 1)
    within_max total
  inner_type_size (optional_type t) = do s ← inner_type_size t; add32 s 1
  inner_type_size (response_type t s) = do
    a ← inner_type_size t
    b ← inner_type_size s
    c ← add32 a b
    add32 c 1
  inner_type_size _ = ok 1

  -- the loop of `TupleTypeSignature::type_size`
  pub field_type_sizes : TypeMap → ℕ → Maybe ℕ
  field_type_sizes no_fields acc = ok acc
  field_type_sizes (field name t rest) acc = do
    s ← inner_type_size t
    a ← add32 acc s
    b ← add32 a (byte_len name % u32_mod)
    field_type_sizes rest b

-- The size of the largest value of the type.
unfoldable mutual
  pub inner_size : TypeSignature → Maybe ℕ
  inner_size no_type = ok 1
  inner_size int_type = ok 16
  inner_size uint_type = ok 16
  inner_size bool_type = ok 1
  inner_size principal_type = ok 148
  inner_size (tuple_type m) = do
    start ← mul32 (len m) 2
    type_size ← inner_type_size (tuple_type m)
    begin ← add32 start type_size
    total ← field_sizes m begin
    within_max total
  inner_size (buffer_type n) = ok (4 + n)
  inner_size (string_ascii_type n) = ok (4 + n)
  inner_size (list_type t n) = do
    s ← expect (inner_size t)
    entries ← mul32 s n
    type_size ← inner_type_size (list_type t n)
    total ← add32 entries type_size
    within_max total
  inner_size (string_utf8_type n) = ok (4 + 4 * n)
  inner_size (optional_type t) = do s ← expect (inner_size t); add32 s wrapper_value_size
  inner_size (response_type t s) = do
    a ← expect (inner_size t)
    b ← expect (inner_size s)
    add32 (max a b) wrapper_value_size
  inner_size (trait_reference_type i) = ok 276

  -- the loop of `TupleTypeSignature::inner_size`
  pub field_sizes : TypeMap → ℕ → Maybe ℕ
  field_sizes no_fields acc = ok acc
  field_sizes (field name t rest) acc = do
    s ← expect (inner_size t)
    a ← add32 acc s
    b ← add32 a (byte_len name % u32_mod)
    field_sizes rest b

-- `size`: infallible, or a panic
abbrev pub size : {E : Type 0} → TypeSignature → Result E ℕ
size t = expect (inner_size t)
