-- ===== src/Tests/Syntax.antt =====
-- Examples for the passes over expressions.
use clarity_repl.Prelude.{[], ◌∷◌, ◌≡◌, refl, String}
use clarity_repl.Prelude.Map.{Map}
use clarity_repl.Tests.{issuer, demo}
use clarity_repl.Ast.{
  Span, PreSymbolicExpressions, pre_expression, pre_atom, pre_list, pre_tuple, pre_trait_reference,
  no_pre_expressions, pre_cons, TraitDefinition, defined, SymbolicExpressions, expression, atom,
  list, no_expressions, expression_cons,
}
use clarity_repl.Ast.Cycles.{Graph, IsGrounded, get_cycling_dependencies-IsGrounded}
use clarity_repl.Ast.Depth.{check, verdict, list_depth, check-list_depth}
use clarity_repl.Ast.Identifiers.{AreRising, ids_of, inner_relabel-AreRising}
use clarity_repl.Ast.Sugar.{
  zero_span, transform, trait_names, all_known, forget, transform-all_known,
}

-- (f {a: <token>} (<other>))
abbrev program : PreSymbolicExpressions
program =
    pre_cons
      (pre_expression
        (pre_list (
          pre_cons (pre_expression (pre_atom "f") 0 zero_span) (
            pre_cons
              (pre_expression
                (pre_tuple (
                  pre_cons (pre_expression (pre_atom "a") 0 zero_span) (
                    pre_cons (pre_expression (pre_trait_reference "token") 0 zero_span)
                      no_pre_expressions)))
                0 zero_span)
              (pre_cons
                (pre_expression
                  (pre_list (
                    pre_cons (pre_expression (pre_trait_reference "other") 0 zero_span)
                      no_pre_expressions))
                  0 zero_span)
                no_pre_expressions))))
        0 zero_span)
      no_pre_expressions

abbrev referenced : Map String TraitDefinition
referenced = ("token", defined (record { name = "token"; contract_identifier = demo })) ∷ []

-- (f (g) h)
abbrev unnumbered : SymbolicExpressions
unnumbered =
    expression_cons
      (expression
        (list (
          expression_cons (expression (atom "f") 0 zero_span) (
            expression_cons
              (expression
                (list (expression_cons (expression (atom "g") 0 zero_span) no_expressions)) 0
                zero_span)
              (expression_cons (expression (atom "h") 0 zero_span) no_expressions))))
        0 zero_span)
      no_expressions

abbrev numbered : SymbolicExpressions
numbered =
    expression_cons
      (expression
        (list (
          expression_cons (expression (atom "f") 2 zero_span) (
            expression_cons
              (expression
                (list (expression_cons (expression (atom "g") 4 zero_span) no_expressions)) 3
                zero_span)
              (expression_cons (expression (atom "h") 5 zero_span) no_expressions))))
        1 zero_span)
      no_expressions

check-list_depth_example : check program 0 ≡ verdict (list_depth program)
check-list_depth_example = check-list_depth program

inner_relabel-AreRising_example : AreRising 1 (ids_of numbered) 6
unfolding clarity_repl.Ast.Identifiers.inner_relabel
inner_relabel-AreRising_example = inner_relabel-AreRising unnumbered 0 numbered 6 refl

transform-all_known_example :
    forget (transform issuer referenced program) ≡ all_known referenced (trait_names program)
transform-all_known_example = transform-all_known issuer referenced program

-- 0 depends on 1, and 2 and 3 depend on each other.
abbrev definitions : Graph
definitions = record { adjacency_list = (1 ∷ []) ∷ [] ∷ (3 ∷ []) ∷ (2 ∷ []) ∷ [] }

get_cycling_dependencies-IsGrounded_example : IsGrounded definitions 0
unfolding clarity_repl.Ast.Cycles.get_cycling_dependencies clarity_repl.Prelude.Map.contains_key
    clarity_repl.Prelude.Map.insert
get_cycling_dependencies-IsGrounded_example =
    get_cycling_dependencies-IsGrounded definitions (1 ∷ 0 ∷ 3 ∷ 2 ∷ []) (2 ∷ 3 ∷ []) 0 refl refl
      refl
