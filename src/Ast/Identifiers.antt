-- ===== src/Ast/Identifiers.antt =====
-- The ids of expressions: src/clarity/ast/expression_identifier/mod.rs, for `SymbolicExpression`.
use clarity_repl.Prelude.{ℕ, suc, ◌≤◌, ◌≡◌, refl, sym, subst, List, [], ◌∷◌, ◌++◌, arith}
use clarity_repl.Prelude.Result.{Result, ok, ok_or, ◌>>=◌, >>=-eq-ok, ok-pair}
use clarity_repl.Prelude.Machine.{checked_add, u64_mod}
use clarity_repl.Ast.{
  ParseErrors, too_many_expressions, SymbolicExpression, SymbolicExpressionType,
  SymbolicExpressions, expression, atom_value, literal_value, atom, list, field, trait_reference,
  no_expressions, expression_cons,
}

-- `checked_add(1).ok_or(..)`
abbrev pub next_id : ℕ → Result ParseErrors ℕ
next_id current = ok_or (checked_add u64_mod current 1) too_many_expressions

-- The loop of `inner_relabel` from the id `current`: the relabelled expressions and the next id.
unfoldable mutual
  pub relabel_each : SymbolicExpressions → ℕ → Result ParseErrors (SymbolicExpressions × ℕ)
  relabel_each no_expressions current = ok (no_expressions, current)
  relabel_each (expression_cons e rest) current = do
    (relabelled, next) ← relabel_expression e current
    (others, last) ← relabel_each rest next
    ok (expression_cons relabelled others, last)

  pub relabel_expression : SymbolicExpression → ℕ → Result ParseErrors (SymbolicExpression × ℕ)
  relabel_expression (expression content id span) current = do
    (relabelled, next) ← relabel_content content current
    ok (expression relabelled current span, next)

  pub relabel_content : SymbolicExpressionType → ℕ → Result ParseErrors (SymbolicExpressionType × ℕ)
  relabel_content (list exprs) current = do
    first ← next_id current
    (relabelled, next) ← relabel_each exprs first
    ok (list relabelled, next)
  relabel_content content current = do next ← next_id current; ok (content, next)

unfoldable pub inner_relabel :
    SymbolicExpressions → ℕ → Result ParseErrors (SymbolicExpressions × ℕ)
unfolding relabel_each
inner_relabel args index = do current ← next_id index; relabel_each args current

unfoldable pub update_expression_id : SymbolicExpressions → Result ParseErrors SymbolicExpressions
unfolding inner_relabel
update_expression_id exprs = do (relabelled, next) ← inner_relabel exprs 0; ok relabelled

-- The ids, an expression's before those of its parts.
unfoldable mutual
  pub ids_of : SymbolicExpressions → List ℕ
  ids_of no_expressions = []
  ids_of (expression_cons e rest) = expression_ids e ++ ids_of rest

  pub expression_ids : SymbolicExpression → List ℕ
  expression_ids (expression content id span) = id ∷ content_ids content

  pub content_ids : SymbolicExpressionType → List ℕ
  content_ids (list exprs) = ids_of exprs
  content_ids _ = []

-- Rising numbers from `low` on and below `high`.
abbrev pub AreRising : ℕ → List ℕ → ℕ → Type 0
AreRising low [] high = low ≤ high
AreRising low (n ∷ ns) high = (low ≤ n) × AreRising (suc n) ns high

AreRising-weaken :
    (lower low high : ℕ) (ns : List ℕ)
    → lower ≤ low
    → AreRising low ns high
    → AreRising lower ns high
AreRising-weaken lower low high [] h r = omega arith
AreRising-weaken lower low high (n ∷ ns) h (le, r) = (omega arith, r)

AreRising-append :
    (low middle high : ℕ) (ns ms : List ℕ)
    → AreRising low ns middle
    → AreRising middle ms high
    → AreRising low (ns ++ ms) high
AreRising-append low middle high [] ms r s = AreRising-weaken low middle high ms r s
AreRising-append low middle high (n ∷ ns) ms (le, r) s =
    (le, AreRising-append (suc n) middle high ns ms r s)

next_id-suc : (current : ℕ) {next : ℕ} → next_id current ≡ ok next → next ≡ suc current
next_id-suc current h = ground (arith, h)

abbrev advance_past : SymbolicExpressionType → ℕ → Result ParseErrors (SymbolicExpressionType × ℕ)
advance_past content current = do next ← next_id current; ok (content, next)

leaf-AreRising :
    (content : SymbolicExpressionType) (current : ℕ) (out : SymbolicExpressionType) (next : ℕ)
    → advance_past content current ≡ ok (out, next)
    → content_ids content ≡ []
    → AreRising (suc current) (content_ids out) next
leaf-AreRising content current out next h none =
    let (n, begun, done) = >>=-eq-ok (next_id current) _ h in
    let (same, same_next) = ok-pair done in
    subst (λ o. AreRising (suc current) (content_ids o) next) same
      (subst (λ ns. AreRising (suc current) ns next) (sym none)
        (subst (λ m. m ≤ next) (next_id-suc current begun)
          (subst (λ m. n ≤ m) same_next (omega arith))))

mutual
  unfolding relabel_each ids_of

  relabel_each-AreRising :
      (args : SymbolicExpressions) (current : ℕ) (out : SymbolicExpressions) (next : ℕ)
      → relabel_each args current ≡ ok (out, next)
      → AreRising current (ids_of out) next
  relabel_each-AreRising no_expressions current out next h =
      let (same, same_next) = ok-pair h in
      subst (λ o. AreRising current (ids_of o) next) same (omega arith)
  relabel_each-AreRising (expression_cons e rest) current out next h =
      let ((e', middle), first, more) = >>=-eq-ok (relabel_expression e current) _ h in
      let ((rest', last), second, done) = >>=-eq-ok (relabel_each rest middle) _ more in
      let (same, same_next) = ok-pair done in
      subst (λ o. AreRising current (ids_of o) next) same
        (subst (λ n. AreRising current (ids_of (expression_cons e' rest')) n) same_next
          (AreRising-append current middle last (expression_ids e') (ids_of rest')
            (relabel_expression-AreRising e current e' middle first)
            (relabel_each-AreRising rest middle rest' last second)))

  relabel_expression-AreRising :
      (e : SymbolicExpression) (current : ℕ) (out : SymbolicExpression) (next : ℕ)
      → relabel_expression e current ≡ ok (out, next)
      → AreRising current (expression_ids out) next
  relabel_expression-AreRising (expression content id span) current out next h =
      let ((content', last), first, done) = >>=-eq-ok (relabel_content content current) _ h in
      let (same, same_next) = ok-pair done in
      subst (λ o. AreRising current (expression_ids o) next) same
        (
          omega arith,
          subst (λ n. AreRising (suc current) (content_ids content') n) same_next
              (relabel_content-AreRising content current content' last first),
        )

  relabel_content-AreRising :
      (content : SymbolicExpressionType) (current : ℕ) (out : SymbolicExpressionType) (next : ℕ)
      → relabel_content content current ≡ ok (out, next)
      → AreRising (suc current) (content_ids out) next
  relabel_content-AreRising (list exprs) current out next h =
      let (start, begun, more) = >>=-eq-ok (next_id current) _ h in
      let ((exprs', last), first, done) = >>=-eq-ok (relabel_each exprs start) _ more in
      let (same, same_next) = ok-pair done in
      subst (λ o. AreRising (suc current) (content_ids o) next) same
        (subst (λ n. AreRising (suc current) (ids_of exprs') n) same_next
          (subst (λ n. AreRising n (ids_of exprs') last) (next_id-suc current begun)
            (relabel_each-AreRising exprs start exprs' last first)))
  relabel_content-AreRising (atom_value v) current out next h =
      leaf-AreRising (atom_value v) current out next h refl
  relabel_content-AreRising (literal_value v) current out next h =
      leaf-AreRising (literal_value v) current out next h refl
  relabel_content-AreRising (atom name) current out next h =
      leaf-AreRising (atom name) current out next h refl
  relabel_content-AreRising (field f) current out next h =
      leaf-AreRising (field f) current out next h refl
  relabel_content-AreRising (trait_reference name definition) current out next h =
      leaf-AreRising (trait_reference name definition) current out next h refl

-- The ids that a run of the pass gives, read from left to right with an expression before its
-- parts, rise strictly from the one after index on and stay below the id that the pass returns.
pub inner_relabel-AreRising :
    (args : SymbolicExpressions) (index : ℕ) (out : SymbolicExpressions) (next : ℕ)
    → inner_relabel args index ≡ ok (out, next)
    → AreRising (suc index) (ids_of out) next
unfolding inner_relabel
inner_relabel-AreRising args index out next h =
    let (start, begun, more) = >>=-eq-ok (next_id index) _ h in
    subst (λ n. AreRising n (ids_of out) next) (next_id-suc index begun)
      (relabel_each-AreRising args start out next more)
