-- ===== src/Ast/Sugar.antt =====
-- The expansion of sugared expressions: src/clarity/ast/sugar_expander/mod.rs.
use clarity_repl.Prelude.{
  String, ◌≡◌, refl, sym, ap, ◌∙◌, if◌then◌else◌, List, [], ◌∷◌, ◌++◌, Option, none, some, arith,
}
use clarity_repl.Prelude.Map.{Map, lookup, is_some}
use clarity_repl.Prelude.Keys.{string_eq}
use clarity_repl.Prelude.Result.{Result, ok, err, panic, ◌>>=◌, ◌>>◌}
use clarity_repl.Types.{StandardPrincipalData, contract}
use clarity_repl.Values.{principal}
use clarity_repl.Ast.{
  ParseErrors, trait_reference_unknown, Span, TraitDefinition, PreSymbolicExpression,
  PreSymbolicExpressionType, PreSymbolicExpressions, pre_expression, pre_atom_value, pre_atom,
  pre_list, pre_tuple, sugared_contract_identifier, sugared_field_identifier, field_identifier,
  pre_trait_reference, no_pre_expressions, pre_cons, SymbolicExpression, SymbolicExpressionType,
  SymbolicExpressions, expression, literal_value, atom, list, field, trait_reference,
  no_expressions, expression_cons,
}

-- `Span::zero`
abbrev pub zero_span : Span
zero_span = record { start_line = 0; start_column = 0; end_line = 0; end_column = 0 }

-- `SymbolicExpression::cons` with a content: the id is set by a later pass
abbrev pub fresh : SymbolicExpressionType → Span → SymbolicExpression
fresh content span = expression content 0 span

-- `.chunks(2)`, each a list
unfoldable pub pairs_of : SymbolicExpressions → SymbolicExpressions
pairs_of no_expressions = no_expressions
pairs_of (expression_cons a no_expressions) =
    expression_cons (fresh (list (expression_cons a no_expressions)) zero_span) no_expressions
pairs_of (expression_cons a (expression_cons b rest)) =
    expression_cons (fresh (list (expression_cons a (expression_cons b no_expressions))) zero_span)
      (pairs_of rest)

-- `contract_ast.get_referenced_trait(&name)` and its two branches
unfoldable pub expand_reference :
    Option TraitDefinition → String → Result ParseErrors SymbolicExpressionType
expand_reference (some definition) name = ok (trait_reference name definition)
expand_reference none name = err (trait_reference_unknown name)

module _ (issuer : StandardPrincipalData) (referenced_traits : Map String TraitDefinition) where
  -- The loop over the expressions.
  unfoldable mutual
    unfolding pairs_of expand_reference

    pub transform : PreSymbolicExpressions → Result ParseErrors SymbolicExpressions
    transform no_pre_expressions = ok no_expressions
    transform (pre_cons e rest) = do
      expanded ← transform_expression e
      others ← transform rest
      ok (expression_cons expanded others)

    pub transform_expression : PreSymbolicExpression → Result ParseErrors SymbolicExpression
    transform_expression (pre_expression pre_expr id span) = do
      content ← transform_content pre_expr
      ok (fresh content span)

    pub transform_content : PreSymbolicExpressionType → Result ParseErrors SymbolicExpressionType
    transform_content (pre_atom_value content) = ok (literal_value content)
    transform_content (pre_atom content) = ok (atom content)
    transform_content (pre_list pre_exprs) = do expanded ← transform pre_exprs; ok (list expanded)
    transform_content (pre_tuple pre_exprs) = do
      expanded ← transform pre_exprs
      ok (list (expression_cons (fresh (atom "tuple") zero_span) (pairs_of expanded)))
    transform_content (sugared_contract_identifier contract_name) =
        ok (literal_value (principal (contract (record { issuer = issuer; name = contract_name }))))
    transform_content (sugared_field_identifier contract_name name) = ok (
        field (record {
          name = name;
          contract_identifier = record { issuer = issuer; name = contract_name };
        }))
    transform_content (field_identifier trait_identifier) = ok (field trait_identifier)
    transform_content (pre_trait_reference name) =
        expand_reference (lookup name referenced_traits) name

-- The traits that a program names, from left to right.
unfoldable mutual
  pub trait_names : PreSymbolicExpressions → List String
  trait_names no_pre_expressions = []
  trait_names (pre_cons e rest) = expression_traits e ++ trait_names rest

  pub expression_traits : PreSymbolicExpression → List String
  expression_traits (pre_expression pre_expr id span) = content_traits pre_expr

  pub content_traits : PreSymbolicExpressionType → List String
  content_traits (pre_list pre_exprs) = trait_names pre_exprs
  content_traits (pre_tuple pre_exprs) = trait_names pre_exprs
  content_traits (pre_trait_reference name) = name ∷ []
  content_traits _ = []

-- Success, or the error for the first name that the map does not have.
abbrev pub all_known : Map String TraitDefinition → List String → Result ParseErrors (Unit {0})
all_known referenced [] = ok tt
all_known referenced (name ∷ names) =
    let rest = all_known referenced names in
    if is_some (lookup name referenced) then rest else err (trait_reference_unknown name)

-- Success or failure, without the value.
abbrev pub forget : {E A : Type 0} → Result E A → Result E (Unit {0})
forget (ok a) = ok tt
forget (err e) = err e
forget panic = panic

forget->>= :
    {E A B : Type 0} (m : Result E A) (k : A → Result E B)
    → ((a : A) → forget (k a) ≡ ok tt)
    → forget (m >>= k) ≡ forget m
forget->>= (ok a) k h = h a
forget->>= (err e) k h = refl
forget->>= panic k h = refl

forget-cons :
    {E A B C : Type 0} (m : Result E A) (n : Result E B) (f : A → B → C)
    → forget (m >>= λ a. n >>= λ b. ok (f a b)) ≡ (forget m >> forget n)
forget-cons (ok a) (ok b) f = refl
forget-cons (ok a) (err e) f = refl
forget-cons (ok a) panic f = refl
forget-cons (err e) n f = refl
forget-cons panic n f = refl

module _ (issuer : StandardPrincipalData) (referenced : Map String TraitDefinition) where
  all_known-append :
      (names more : List String)
      → all_known referenced (names ++ more)
        ≡ (all_known referenced names >> all_known referenced more)
  all_known-append [] more = refl
  all_known-append (name ∷ names) more = ground (arith, all_known-append names more)

  expand_reference-forget :
      (name : String)
      → forget (expand_reference (lookup name referenced) name) ≡ all_known referenced (name ∷ [])
  unfolding expand_reference
  expand_reference-forget name = ground arith

  mutual
    unfolding transform trait_names

    transform-forget :
        (args : PreSymbolicExpressions)
        → forget (transform issuer referenced args) ≡ all_known referenced (trait_names args)
    transform-forget no_pre_expressions = refl
    transform-forget (pre_cons e rest) =
        forget-cons (transform_expression issuer referenced e) (transform issuer referenced rest)
          expression_cons
        ∙ ap (λ m. m >> forget (transform issuer referenced rest)) (expression-forget e)
        ∙ ap (λ m. all_known referenced (expression_traits e) >> m) (transform-forget rest)
        ∙ sym (all_known-append (expression_traits e) (trait_names rest))

    expression-forget :
        (e : PreSymbolicExpression)
        → forget (transform_expression issuer referenced e)
          ≡ all_known referenced (expression_traits e)
    expression-forget (pre_expression pre_expr id span) =
        forget->>= (transform_content issuer referenced pre_expr) _ (λ a. refl)
        ∙ content-forget pre_expr

    content-forget :
        (content : PreSymbolicExpressionType)
        → forget (transform_content issuer referenced content)
          ≡ all_known referenced (content_traits content)
    content-forget (pre_list exprs) =
        forget->>= (transform issuer referenced exprs) _ (λ a. refl) ∙ transform-forget exprs
    content-forget (pre_tuple exprs) =
        forget->>= (transform issuer referenced exprs) _ (λ a. refl) ∙ transform-forget exprs
    content-forget (pre_trait_reference name) = expand_reference-forget name
    content-forget (pre_atom_value content) = refl
    content-forget (pre_atom content) = refl
    content-forget (sugared_contract_identifier contract_name) = refl
    content-forget (sugared_field_identifier contract_name name) = refl
    content-forget (field_identifier trait_identifier) = refl

-- The expansion succeeds exactly when every trait that the program names, in lists and tuples
-- too, is in the map, and otherwise it fails with the first name that is not.
pub transform-all_known :
    (issuer : StandardPrincipalData) (referenced : Map String TraitDefinition)
    (args : PreSymbolicExpressions)
    → forget (transform issuer referenced args) ≡ all_known referenced (trait_names args)
transform-all_known = transform-forget
