-- ===== src/Types/Admits.antt =====
-- `admits_type` and `least_supertype` of src/clarity/types/signatures.rs.
use clarity_repl.Prelude.{
  ℕ, max, Option, Bool, true, false, ◌&&◌, none, some, leb, ltb, ◌==◌, if◌then◌else◌,
}
use clarity_repl.Prelude.Result.{ok, err, panic, expect, ok_or, ◌>>=◌}
use clarity_repl.Prelude.Keys.{string_eq}
use clarity_repl.Errors.{CheckErrors, type_error}
use clarity_repl.Types.{
  TypeSignature, TypeMap, no_type, int_type, uint_type, bool_type, principal_type, buffer_type,
  string_ascii_type, string_utf8_type, list_type, tuple_type, optional_type, response_type,
  trait_reference_type, no_fields, field, is_no_type, len, field_type,
}
use clarity_repl.Types.Keys.{trait_beq}
use clarity_repl.Types.Size.{Maybe}
use clarity_repl.Types.Build.{Checked, list_of, new_option, new_response, tuple_of}

-- The derived `PartialEq` of types.
unfoldable mutual
  pub type_beq : TypeSignature → TypeSignature → Bool
  type_beq no_type no_type = true
  type_beq int_type int_type = true
  type_beq uint_type uint_type = true
  type_beq bool_type bool_type = true
  type_beq principal_type principal_type = true
  type_beq (buffer_type m) (buffer_type n) = m == n
  type_beq (string_ascii_type m) (string_ascii_type n) = m == n
  type_beq (string_utf8_type m) (string_utf8_type n) = m == n
  type_beq (list_type t m) (list_type s n) = m == n && type_beq t s
  type_beq (tuple_type m) (tuple_type n) = map_beq m n
  type_beq (optional_type t) (optional_type s) = type_beq t s
  type_beq (response_type t u) (response_type s v) = type_beq t s && type_beq u v
  type_beq (trait_reference_type i) (trait_reference_type j) = trait_beq i j
  type_beq _ _ = false

  pub map_beq : TypeMap → TypeMap → Bool
  map_beq no_fields no_fields = true
  map_beq (field k t m) (field l s n) = string_eq.beq k l && (type_beq t s && map_beq m n)
  map_beq _ _ = false

-- The second test of `&&` where the tests may panic.
abbrev pub and_also : Maybe Bool → Maybe Bool → Maybe Bool
and_also a b = do x ← a; if x then b else ok false

-- `if let Some(other_type_sig) = other.type_map.get(name) { .. } else { return false; }`
abbrev pub with_field : Option TypeSignature → (TypeSignature → Maybe Bool) → Maybe Bool
with_field none test = ok false
with_field (some t) test = test t

-- The rule for two response types, from whether the sides of the other are `NoType`.
abbrev pub admits_response : Bool → Bool → Maybe Bool → Maybe Bool → Maybe Bool
admits_response ok_absent err_absent ok_side err_side =
    if ok_absent then err_side else if err_absent then ok_side else and_also err_side ok_side

-- Asking `NoType` to admit a type is a panic. The catch-all is the source's `_ => other == self`.
unfoldable mutual
  pub admits_type : TypeSignature → TypeSignature → Maybe Bool
  admits_type (list_type t m) (list_type s n) =
      let entry = admits_type t s in if n == 0 then ok true else if leb n m then entry else ok false
  admits_type (list_type t m) _ = ok false
  admits_type (buffer_type m) (buffer_type n) = ok (leb n m)
  admits_type (buffer_type m) _ = ok false
  admits_type (string_ascii_type m) (string_ascii_type n) = ok (leb n m)
  admits_type (string_ascii_type m) _ = ok false
  admits_type (string_utf8_type m) (string_utf8_type n) = ok (leb n m)
  admits_type (string_utf8_type m) _ = ok false
  admits_type (optional_type t) (optional_type s) =
      let inner = admits_type t s in if is_no_type s then ok true else inner
  admits_type (optional_type t) _ = ok false
  admits_type (response_type t u) (response_type s v) =
      admits_response (is_no_type s) (is_no_type v) (admits_type t s) (admits_type u v)
  admits_type (response_type t u) _ = ok false
  admits_type (tuple_type m) (tuple_type n) =
      let fields = admits_fields m n in if len m == len n then fields else ok false
  admits_type (tuple_type m) _ = ok false
  admits_type no_type _ = panic
  admits_type int_type other = ok (type_beq other int_type)
  admits_type uint_type other = ok (type_beq other uint_type)
  admits_type bool_type other = ok (type_beq other bool_type)
  admits_type principal_type other = ok (type_beq other principal_type)
  admits_type (trait_reference_type i) other = ok (type_beq other (trait_reference_type i))

  -- the loop of `TupleTypeSignature::admits`
  pub admits_fields : TypeMap → TypeMap → Maybe Bool
  admits_fields no_fields n = ok true
  admits_fields (field name t rest) n =
      with_field (field_type n name) (λ s. and_also (admits_type t s) (admits_fields rest n))

-- `factor_out_no_type`, from the supertype that it may ask for
abbrev pub factored : TypeSignature → TypeSignature → Checked TypeSignature → Checked TypeSignature
factored a b supertype = if is_no_type a then ok b else if is_no_type b then ok a else supertype

-- `if u32::from(a) > u32::from(b) { a } else { b }`
abbrev pub longer : ℕ → ℕ → ℕ
longer a b = if ltb b a then a else b

unfoldable mutual
  pub least_supertype : TypeSignature → TypeSignature → Checked TypeSignature
  least_supertype (tuple_type m) (tuple_type n) = do
    out ← supertype_fields m n (type_error (tuple_type m) (tuple_type n))
    expect (tuple_of out)
  least_supertype (list_type t m) (list_type s n) = do
    let both = least_supertype t s
    entry ← if m == 0 then ok s else if n == 0 then ok t else both
    expect (list_of entry (max m n))
  least_supertype (response_type t u) (response_type s v) = do
    ok_type ← factored t s (least_supertype t s)
    err_type ← factored u v (least_supertype u v)
    new_response ok_type err_type
  least_supertype (optional_type t) (optional_type s) = do
    some_type ← factored t s (least_supertype t s)
    new_option some_type
  least_supertype (buffer_type m) (buffer_type n) = ok (buffer_type (longer m n))
  least_supertype (string_ascii_type m) (string_ascii_type n) = ok (string_ascii_type (longer m n))
  least_supertype (string_utf8_type m) (string_utf8_type n) = ok (string_utf8_type (longer m n))
  least_supertype no_type b = ok b
  least_supertype a no_type = ok a
  least_supertype a b = if type_beq a b then ok a else err (type_error a b)

  -- the loop over the fields of the first tuple
  pub supertype_fields : TypeMap → TypeMap → CheckErrors → Checked TypeMap
  supertype_fields no_fields n missing = ok no_fields
  supertype_fields (field name t rest) n missing = do
    s ← ok_or (field_type n name) missing
    out ← least_supertype t s
    more ← supertype_fields rest n missing
    ok (field name out more)

unfoldable pub factor_out_no_type : TypeSignature → TypeSignature → Checked TypeSignature
factor_out_no_type a b = factored a b (least_supertype a b)
