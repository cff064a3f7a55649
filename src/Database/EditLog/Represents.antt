-- ===== src/Database/EditLog/Represents.antt =====
-- What an edit history stands for: a log of the edits themselves, last edit first.
use clarity_repl.Prelude.{
  String, List, [], ◌∷◌, ◌++◌, reverse, map, Option, none, some, is_empty, if◌then◌else◌, ◌≡◌, refl,
  sym, subst, ap, ◌∙◌, arith,
}
use mathlib.Core.Option
use mathlib.Core.List.{reverse-cons, map-append, append-nil}
use clarity_repl.Prelude.Result.{ok}
use clarity_repl.Prelude.Map.{
  Eq, lookup, insert, remove, lookup-insert, lookup-remove, beq_refl, contains_key-lookup,
}
use clarity_repl.Database.EditLog.{
  LookupMap, rollback_lookup_map, pop_edits, reverse_histories, rollback_check_pre_bottom_commit,
  inner_put, with_history,
}

abbrev pub non_empty : List String → Option (List String)
non_empty [] = none
non_empty (v ∷ vs) = some (v ∷ vs)

non_empty-append :
    (xs : List String) (x : String) → non_empty (xs ++ (x ∷ [])) ≡ some (xs ++ (x ∷ []))
non_empty-append [] x = refl
non_empty-append (y ∷ ys) x = refl

non_empty-reverse : (xs : List String) → Option.map reverse (non_empty xs) ≡ non_empty (reverse xs)
non_empty-reverse [] = refl
non_empty-reverse (x ∷ xs) = ground (arith, reverse-cons x xs, non_empty-append (reverse xs) x)

map-reverse : {A B : Type 0} (f : A → B) (xs : List A) → reverse (map f xs) ≡ map f (reverse xs)
map-reverse f [] = refl
map-reverse f (x ∷ xs) =
    reverse-cons (f x) (map f xs)
    ∙ ap (λ ys. ys ++ (f x ∷ [])) (map-reverse f xs)
    ∙ sym (map-append f (reverse xs) (x ∷ []))
    ∙ ap (map f) (sym (reverse-cons x xs))

module _ {T : Type 0} ⦃e : Eq T⦄ where
  -- the values that a log gives a key, last first
  abbrev pub values : T → List (T × String) → List String
  values k [] = []
  values k ((j, v) ∷ log) = if e.beq j k then v ∷ values k log else values k log

  -- A lookup map represents a log when the history of every key is what the log gives it.
  pub record Represents (lookup_map : LookupMap T) (log : List (T × String)) : Type 0 where
    pub histories : (k : T) → lookup k lookup_map ≡ non_empty (values k log)

  lookup-with_history :
      (m : LookupMap T) (log : List (T × String)) (key : T)
      → Represents m log
      → (k : T)
      → lookup k (with_history key m) ≡ (if e.beq key k then some (values key log) else lookup k m)
  unfolding with_history
  lookup-with_history m log key r k =
      ground (
        arith,
        lookup-insert key k [] m,
        contains_key-lookup key m,
        r.histories key,
        e.beq_iff key k,
      )

  -- A put never panics, and adds its edit to the log.
  pub inner_put-Represents :
      (m : LookupMap T) (log : List (T × String)) (edits : List T) (key : T) (v : String)
      → Represents m log
      → (m' : LookupMap T) × (inner_put m edits key v ≡ ok (m', key ∷ edits))
        × Represents m' ((key, v) ∷ log)
  unfolding inner_put
  inner_put-Represents m log edits key v r =
      let present = with_history key m in
      let m' = insert key (v ∷ values key log) present in
      (
        m',
        ground (arith, lookup-with_history m log key r key, beq_refl key),
        record {
          histories = λ k. ground (
            arith,
            lookup-insert key k (v ∷ values key log) present,
            lookup-with_history m log key r k,
            r.histories k,
            e.beq_iff key k,
          );
        },
      )

  -- What is left of a key's history stands in the map if it is not empty.
  lookup-popped :
      (m : LookupMap T) (key : T) (history : List String) (k : T)
      → lookup k (if is_empty history then remove key m else insert key history m)
        ≡ (if e.beq key k then non_empty history else lookup k m)
  lookup-popped m key [] k = lookup-remove key k m
  lookup-popped m key (v ∷ vs) k = lookup-insert key k (v ∷ vs) m

  pub rollback_lookup_map-Represents :
      (m : LookupMap T) (log : List (T × String)) (key : T) (v : String)
      → Represents m ((key, v) ∷ log)
      → (m' : LookupMap T) × (rollback_lookup_map key m ≡ ok (v, m')) × Represents m' log
  unfolding rollback_lookup_map
  rollback_lookup_map-Represents m log key v r =
      let m' = if is_empty (values key log) then remove key m else insert key (values key log) m in
      (
        m',
        ground (arith, r.histories key, beq_refl key),
        record {
          histories = λ k.
              ground
                (arith, lookup-popped m key (values key log) k, r.histories k, e.beq_iff key k);
        },
      )

  -- Popping an edit for each key of a log gives the log back, and leaves what lies under it.
  pub pop_edits-Represents :
      (m : LookupMap T) (top bottom : List (T × String))
      → Represents m (top ++ bottom)
      → (m' : LookupMap T) × (pop_edits (map (λ p. p.0) top) m ≡ ok (top, m'))
        × Represents m' bottom
  unfolding pop_edits
  pop_edits-Represents m [] bottom r = (m, refl, r)
  pop_edits-Represents m ((key, v) ∷ top) bottom r =
      let (m', h, r') = rollback_lookup_map-Represents m (top ++ bottom) key v r in
      let (m'', h', r'') = pop_edits-Represents m' top bottom r' in (m'', ground arith, r'')

  values-append :
      (k : T) (xs ys : List (T × String)) → values k (xs ++ ys) ≡ values k xs ++ values k ys
  values-append k [] ys = refl
  values-append k ((j, v) ∷ xs) ys = ground (arith, values-append k xs ys)

  values-reverse :
      (k : T) (log : List (T × String)) → values k (reverse log) ≡ reverse (values k log)
  values-reverse k [] = refl
  values-reverse k ((j, v) ∷ log) = ground (
    arith,
    reverse-cons (j, v) log,
    reverse-cons v (values k log),
    values-append k (reverse log) ((j, v) ∷ []),
    values-reverse k log,
    append-nil (reverse (values k log)),
  )

  lookup-reverse_histories :
      (k : T) (m : LookupMap T) → lookup k (reverse_histories m) ≡ Option.map reverse (lookup k m)
  unfolding lookup reverse_histories
  lookup-reverse_histories k [] = refl
  lookup-reverse_histories k ((j, h) ∷ m) = ground (arith, lookup-reverse_histories k m)

  reverse_histories-Represents :
      (m : LookupMap T) (log : List (T × String))
      → Represents m log
      → Represents (reverse_histories m) (reverse log)
  reverse_histories-Represents m log r = record {
    histories = λ k.
        lookup-reverse_histories k m
        ∙ ap (Option.map reverse) (r.histories k)
        ∙ non_empty-reverse (values k log)
        ∙ ap non_empty (sym (values-reverse k log));
  }

  empty_of_Represents : (m : LookupMap T) → Represents m [] → m ≡ []
  unfolding lookup
  empty_of_Represents [] r = refl
  empty_of_Represents ((k, h) ∷ m) r = ground (arith, r.histories k, beq_refl k)

  -- On an edit history that represents a log, rollback_check_pre_bottom_commit returns the log,
  -- first edit first, and empties the history, so that its assertion holds.
  pub pre_bottom_commit-Represents :
      (m : LookupMap T) (log : List (T × String))
      → Represents m log
      → rollback_check_pre_bottom_commit (map (λ p. p.0) log) m ≡ ok (reverse log, [])
  unfolding rollback_check_pre_bottom_commit
  pre_bottom_commit-Represents m log r =
      let (m', h, r') = pop_edits-Represents (reverse_histories m) (reverse log) [] (
        subst (Represents (reverse_histories m)) (sym (append-nil (reverse log)))
          (reverse_histories-Represents m log r)) in
      ground (arith, h, map-reverse (λ p. p.0) log, empty_of_Represents m' r')
