-- ===== src/Ast.antt =====
-- Expressions (src/clarity/representations.rs) and the passes over them in src/clarity/ast.
pub mod Cycles
pub mod Depth
pub mod Identifiers
pub mod Sugar
use clarity_repl.Prelude.{ℕ, String}
use clarity_repl.Types.{TraitIdentifier}
use clarity_repl.Values.{Value}

pub record Span : Type 0 where
  pub start_line : ℕ
  pub start_column : ℕ
  pub end_line : ℕ
  pub end_column : ℕ

-- The errors of the passes that are modelled.
pub data ParseErrors : Type 0 where
  too_many_expressions expression_stack_depth_too_deep : ParseErrors
  trait_reference_unknown : String → ParseErrors

-- An expression is its content, its id and its span.
mutual
  pub data PreSymbolicExpression : Type 0 where
    pre_expression : PreSymbolicExpressionType → ℕ → Span → PreSymbolicExpression

  pub data PreSymbolicExpressionType : Type 0 where
    pre_atom_value : Value → PreSymbolicExpressionType
    pre_atom : String → PreSymbolicExpressionType
    pre_list pre_tuple : PreSymbolicExpressions → PreSymbolicExpressionType
    sugared_contract_identifier : String → PreSymbolicExpressionType
    sugared_field_identifier : String → String → PreSymbolicExpressionType
    field_identifier : TraitIdentifier → PreSymbolicExpressionType
    pre_trait_reference : String → PreSymbolicExpressionType

  pub data PreSymbolicExpressions : Type 0 where
    no_pre_expressions : PreSymbolicExpressions
    pre_cons : PreSymbolicExpression → PreSymbolicExpressions → PreSymbolicExpressions

pub data TraitDefinition : Type 0 where
  defined imported : TraitIdentifier → TraitDefinition

mutual
  pub data SymbolicExpression : Type 0 where
    expression : SymbolicExpressionType → ℕ → Span → SymbolicExpression

  pub data SymbolicExpressionType : Type 0 where
    atom_value literal_value : Value → SymbolicExpressionType
    atom : String → SymbolicExpressionType
    list : SymbolicExpressions → SymbolicExpressionType
    field : TraitIdentifier → SymbolicExpressionType
    trait_reference : String → TraitDefinition → SymbolicExpressionType

  pub data SymbolicExpressions : Type 0 where
    no_expressions : SymbolicExpressions
    expression_cons : SymbolicExpression → SymbolicExpressions → SymbolicExpressions
