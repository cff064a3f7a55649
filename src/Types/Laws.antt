-- ===== src/Types/Laws.antt =====
-- `admits_type` of src/clarity/types/signatures.rs under composition.
use clarity_repl.Prelude.{
  ◌≡◌, ◌≢◌, refl, String, Bool, true, Option, none, arith, some, Bool-cases, inl, inr,
}
use mathlib.Core.Path.{subst}
use clarity_repl.Types.Keys.{trait_beq_iff}
use clarity_repl.Types.Size.{Maybe}
use clarity_repl.Prelude.Result.{ok}
use clarity_repl.Prelude.Keys.{string_eq}
use clarity_repl.Types.{
  TypeSignature, TypeMap, no_type, int_type, uint_type, bool_type, principal_type, buffer_type,
  string_ascii_type, string_utf8_type, list_type, tuple_type, optional_type, response_type,
  trait_reference_type, no_fields, field, is_no_type, len, field_type,
}
use clarity_repl.Types.Admits.{
  admits_type, admits_fields, and_also, with_field, admits_response, type_beq,
}

and_also-eq-true : (a b : Maybe Bool) → and_also a b ≡ ok true → (a ≡ ok true) × (b ≡ ok true)
and_also-eq-true a b h = ground arith

with_field-eq-true :
    (o : Option TypeSignature) (test : TypeSignature → Maybe Bool)
    → with_field o test ≡ ok true
    → (s : TypeSignature) × (o ≡ some s) × (test s ≡ ok true)
with_field-eq-true none test h = cc
with_field-eq-true (some s) test h = (s, refl, h)

with_field-some :
    (o : Option TypeSignature) (test : TypeSignature → Maybe Bool) (s : TypeSignature)
    → o ≡ some s
    → test s ≡ ok true
    → with_field o test ≡ ok true
with_field-some o test s e h = rw e h

-- The first field of a tuple type, and the fields behind it, where it admits `n`.
admits_fields-cons :
    (k : String) (t : TypeSignature) (rest n : TypeMap)
    → admits_fields (field k t rest) n ≡ ok true
    → (s : TypeSignature) × (field_type n k ≡ some s)
      × (admits_type t s ≡ ok true)
      × (admits_fields rest n ≡ ok true)
unfolding admits_fields
admits_fields-cons k t rest n h =
    let (s, found, both) =
      with_field-eq-true (field_type n k) (λ s. and_also (admits_type t s) (admits_fields rest n))
        h in
    let (a, b) = and_also-eq-true (admits_type t s) (admits_fields rest n) both in (s, found, a, b)

admits_fields_cons :
    (k : String) (t s : TypeSignature) (rest n : TypeMap)
    → field_type n k ≡ some s
    → admits_type t s ≡ ok true
    → admits_fields rest n ≡ ok true
    → admits_fields (field k t rest) n ≡ ok true
unfolding admits_fields
admits_fields_cons k t s rest n e a b =
    with_field-some (field_type n k) (λ s. and_also (admits_type t s) (admits_fields rest n)) s e
      (let both : and_also (admits_type t s) (admits_fields rest n) ≡ ok true = rw a b in both)

-- What a tuple type admits has a field for each of its own, which that one admits.
admits_fields-field_type :
    (m n : TypeMap) (k : String) (t : TypeSignature)
    → admits_fields m n ≡ ok true
    → field_type m k ≡ some t
    → (s : TypeSignature) × (field_type n k ≡ some s) × (admits_type t s ≡ ok true)
unfolding field_type
admits_fields-field_type no_fields n k t h e = cc
admits_fields-field_type (field j u rest) n k t h e =
    let (s, found, a, b) = admits_fields-cons j u rest n h in
    elim (Bool-cases (string_eq.beq j k)) [
      | inl same ↦
          let here : u ≡ t = cc (rw same at e) in
          (
            s,
            subst (λ i. field_type n i ≡ some s) ((string_eq.beq_iff j k).0 same) found,
            rw (← here) a,
          )
      | inr other ↦ admits_fields-field_type rest n k t b (rw other at e)
    ]

no_type_admits : (t u : TypeSignature) → is_no_type t ≡ true → admits_type t u ≢ ok true
unfolding is_no_type admits_type
no_type_admits no_type u e h = cc
no_type_admits _ u e h = cc

admits_response_trans :
    (sn sn' rn rn' : Bool) {a a' b b' c c' : Maybe Bool}
    → (a ≡ ok true → b ≡ ok true → c ≡ ok true)
    → (a' ≡ ok true → b' ≡ ok true → c' ≡ ok true)
    → (sn ≡ true → b ≢ ok true)
    → (sn' ≡ true → b' ≢ ok true)
    → admits_response sn sn' a a' ≡ ok true
    → admits_response rn rn' b b' ≡ ok true
    → admits_response rn rn' c c' ≡ ok true
admits_response_trans sn sn' rn rn' t t' n n' h g = ground arith

mutual
  unfolding admits_type field_type is_no_type len type_beq

  admits_trans :
      (t u w : TypeSignature)
      → admits_type t u ≡ ok true
      → admits_type u w ≡ ok true
      → admits_type t w ≡ ok true
  admits_trans (list_type t m) (list_type s n) (list_type r k) h g =
      ground (arith, admits_trans t s r)
  admits_trans (list_type t m) _ _ h g = cc
  admits_trans (buffer_type m) (buffer_type n) (buffer_type k) h g = ground arith
  admits_trans (buffer_type m) _ _ h g = cc
  admits_trans (string_ascii_type m) (string_ascii_type n) (string_ascii_type k) h g = ground arith
  admits_trans (string_ascii_type m) _ _ h g = cc
  admits_trans (string_utf8_type m) (string_utf8_type n) (string_utf8_type k) h g = ground arith
  admits_trans (string_utf8_type m) _ _ h g = cc
  admits_trans (optional_type t) (optional_type s) (optional_type r) h g =
      ground (arith, admits_trans t s r, no_type_admits s r)
  admits_trans (optional_type t) _ _ h g = cc
  admits_trans (response_type t t') (response_type s s') (response_type r r') h g =
      admits_response_trans (is_no_type s) (is_no_type s') (is_no_type r) (is_no_type r')
        (admits_trans t s r) (admits_trans t' s' r') (no_type_admits s r) (no_type_admits s' r') h g
  admits_trans (response_type t t') _ _ h g = cc
  admits_trans (tuple_type m) (tuple_type n) (tuple_type k) h g =
      ground (arith, admits_fields_trans m n k)
  admits_trans (tuple_type m) _ _ h g = cc
  admits_trans no_type _ _ h g = cc
  admits_trans int_type int_type w h g = g
  admits_trans int_type _ _ h g = cc
  admits_trans uint_type uint_type w h g = g
  admits_trans uint_type _ _ h g = cc
  admits_trans bool_type bool_type w h g = g
  admits_trans bool_type _ _ h g = cc
  admits_trans principal_type principal_type w h g = g
  admits_trans principal_type _ _ h g = cc
  admits_trans (trait_reference_type i) (trait_reference_type j) (trait_reference_type k) h g =
      ground (arith, trait_beq_iff j i, trait_beq_iff k j, trait_beq_iff k i)
  admits_trans (trait_reference_type i) _ _ h g = cc

  admits_fields_trans :
      (m n k : TypeMap)
      → admits_fields m n ≡ ok true
      → admits_fields n k ≡ ok true
      → admits_fields m k ≡ ok true
  admits_fields_trans no_fields n k h g = refl
  admits_fields_trans (field j t rest) n k h g =
      let (s, found, a, b) = admits_fields-cons j t rest n h in
      let (r, found', c) = admits_fields-field_type n k j s g found in
      admits_fields_cons j t r rest k found' (admits_trans t s r a c)
        (admits_fields_trans rest n k b g)

-- admits_type is transitive: where a type admits a second and the second admits a third, the
-- first admits the third, with no panic.
pub admits_type_trans :
    (t u w : TypeSignature)
    → admits_type t u ≡ ok true
    → admits_type u w ≡ ok true
    → admits_type t w ≡ ok true
admits_type_trans t u w = admits_trans t u w
