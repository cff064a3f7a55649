-- ===== src/Values/Make/Laws.antt =====
-- Tuples by their names, after the operations of src/clarity/types/mod.rs.
use clarity_repl.Prelude.{
  ℕ, zero, suc, get_elem?, ◌≡◌, refl, String, true, false, Option, none, some, List, [], ◌∷◌,
  if◌then◌else◌, arith,
}
use Prim.Native.String.{compare}
use Prim.Native.Nat.{Ordering}
use text.Mathlib.TextEquality.{path_by_compare}
use clarity_repl.Prelude.Result.{ok, err, panic, >>=-eq-ok, fail_if}
use clarity_repl.Prelude.Map.{is_some}
use clarity_repl.Prelude.Keys.{string_eq}
use clarity_repl.Errors.{unchecked, name_already_used}
use clarity_repl.Values.TypeOf.{type_of}
use clarity_repl.Types.{TypeSignature, TypeMap, field, no_fields, field_type}
use clarity_repl.Types.Build.{Checked, insert_field}
use clarity_repl.Values.{Value, Fields, entry, no_entries}
use clarity_repl.Values.Make.{checked, insert_entry, entry_value, insert_entries, collect_data}

equal_names : (name k : String) → compare name k ≡ Ordering.eq → string_eq.beq name k ≡ true
equal_names name k e = (string_eq.beq_iff name k).1 (path_by_compare name k e)

-- What the first comparison of an insertion leads to, in a map of any kind: `here` if the names are
-- equal, `below` if the rest takes the entry.
abbrev placed {ℓ} : {A : Type ℓ} → Ordering → A → A → A → A
placed Ordering.lt before here below = before
placed Ordering.eq before here below = here
placed Ordering.gt before here below = below

name-cases :
    (name j k : String) (o : Ordering)
    → compare name j ≡ o
    → {V : Type 0} (v w inside : Option V)
    → placed o
        (if string_eq.beq name k then v else (if string_eq.beq j k then w else inside))
        (if string_eq.beq name k then v else inside)
        (if string_eq.beq j k then w else (if string_eq.beq name k then v else inside))
      ≡ (if string_eq.beq name k then v else (if string_eq.beq j k then w else inside))
name-cases name j k Ordering.lt e v w inside = refl
name-cases name j k Ordering.eq e v w inside =
    ground (arith, string_eq.beq_iff name k, string_eq.beq_iff j k, path_by_compare name j e)
name-cases name j k Ordering.gt e v w inside =
    ground (arith, string_eq.beq_iff name k, string_eq.beq_iff j k, different)
  where
    different : name ≡ j → ⊥
    different same = ground (arith, e, (string_eq.beq_iff name j).1 same)

-- An entry that is put in is found under its name, and the others stay.
pub entry_value-insert_entry :
    (name k : String) (v : Value) (items : Fields)
    → entry_value (insert_entry name v items) k
      ≡ (if string_eq.beq name k then some v else entry_value items k)
unfolding entry_value insert_entry
entry_value-insert_entry name k v no_entries = refl
entry_value-insert_entry name k v (entry j w rest) = ground (
  arith,
  entry_value-insert_entry name k v rest,
  name-cases name j k (compare name j) refl (some v) (some w) (entry_value rest k),
)

pub field_type-insert_field :
    (name k : String) (t : TypeSignature) (fields : TypeMap)
    → field_type (insert_field name t fields) k
      ≡ (if string_eq.beq name k then some t else field_type fields k)
unfolding field_type insert_field
field_type-insert_field name k t no_fields = refl
field_type-insert_field name k t (field j s rest) = ground (
  arith,
  field_type-insert_field name k t rest,
  name-cases name j k (compare name j) refl (some t) (some s) (field_type rest k),
)

-- No name occurs twice, as in a `BTreeMap`.
abbrev pub AreDistinct : Fields → Type 0
AreDistinct no_entries = Unit {0}
AreDistinct (entry name v rest) = (entry_value rest name ≡ none) × AreDistinct rest

abbrev pub or_else {ℓ} : {A : Type ℓ} → Option A → Option A → Option A
or_else none o = o
or_else (some a) o = some a

pub entry_value-insert_entries :
    (updates base : Fields) (k : String)
    → AreDistinct updates
    → entry_value (insert_entries updates base) k
      ≡ or_else (entry_value updates k) (entry_value base k)
unfolding insert_entries entry_value
entry_value-insert_entries no_entries base k h = refl
entry_value-insert_entries (entry name v rest) base k (h, distinct) = ground (
  arith,
  h,
  entry_value-insert_entries rest (insert_entry name v base) k distinct,
  entry_value-insert_entry name k v base,
  string_eq.beq_iff name k,
)

-- What a tuple already has under a name stays while more pairs are collected.
collect_data-keeps :
    (items : List (String × Value)) (type_map out_types : TypeMap) (data_map out : Fields)
    (k : String) {t : TypeSignature}
    → collect_data items type_map data_map ≡ ok (out_types, out)
    → field_type type_map k ≡ some t
    → (field_type out_types k ≡ some t) × (entry_value out k ≡ entry_value data_map k)
unfolding collect_data
collect_data-keeps [] type_map out_types data_map out k h there = ground (arith, h, there)
collect_data-keeps ((name, v) ∷ items) type_map out_types data_map out k {t} h there =
    let (s, typed, rest) = >>=-eq-ok (checked (type_of v)) _ h in
    let (u, fresh, more) =
      >>=-eq-ok (fail_if (is_some (field_type type_map name)) (unchecked (name_already_used name)))
        _ rest in
    let apart : string_eq.beq name k ≡ false =
      ground (arith, fresh, there, string_eq.beq_iff name k) in
    let kept =
      collect_data-keeps items (insert_field name s type_map) out_types
        (insert_entry name v data_map) out k {t = t} more
        (ground (arith, field_type-insert_field name k s type_map, apart, there)) in
    ground (arith, kept, apart, entry_value-insert_entry name k v data_map)

checked-ok : {A : Type 0} (r : Checked A) {a : A} → checked r ≡ ok a → r ≡ ok a
checked-ok (ok b) h = ground (arith, h)
checked-ok (err e) h = ground (arith, h)
checked-ok panic h = ground (arith, h)

-- Every pair that a tuple is made from is in it, with its type.
pub collect_data-all :
    (items : List (String × Value)) (type_map out_types : TypeMap) (data_map out : Fields) (i : ℕ)
    (name : String) (v : Value)
    → collect_data items type_map data_map ≡ ok (out_types, out)
    → get_elem? items i ≡ some (name, v)
    → (entry_value out name ≡ some v)
      × ((t : TypeSignature) × (type_of v ≡ ok t) × (field_type out_types name ≡ some t))
unfolding collect_data
collect_data-all [] type_map out_types data_map out i name v h there = ground (arith, there)
collect_data-all ((n, w) ∷ items) type_map out_types data_map out zero name v h there =
    let (s, typed, rest) = >>=-eq-ok (checked (type_of w)) _ h in
    let (u, fresh, more) =
      >>=-eq-ok (fail_if (is_some (field_type type_map n)) (unchecked (name_already_used n))) _
        rest in
    let (same_type, same) =
      collect_data-keeps items (insert_field n s type_map) out_types (insert_entry n w data_map) out
        n {t = s} more
        (ground (arith, field_type-insert_field n n s type_map, string_eq.beq_iff n n)) in
    (
      ground (arith, there, same, entry_value-insert_entry n n w data_map, string_eq.beq_iff n n),
      (s, ground (arith, there, checked-ok (type_of w) typed), ground (arith, there, same_type)),
    )
collect_data-all ((n, w) ∷ items) type_map out_types data_map out (suc i) name v h there =
    let (s, typed, rest) = >>=-eq-ok (checked (type_of w)) _ h in
    let (u, fresh, more) =
      >>=-eq-ok (fail_if (is_some (field_type type_map n)) (unchecked (name_already_used n))) _
        rest in
    collect_data-all items (insert_field n s type_map) out_types (insert_entry n w data_map) out i
      name v more there
