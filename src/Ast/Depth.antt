-- ===== src/Ast/Depth.antt =====
-- The check of the nesting of lists: src/clarity/ast/stack_depth_checker.rs.
use clarity_repl.Prelude.{
  ℕ, ◌+◌, ◌<◌, max, ◌≡◌, Bool-cases, inl, inr, ltb, ltb→lt, leb, if◌then◌else◌, arith,
}
use clarity_repl.Prelude.Result.{Result, ok, err, fail_if, ◌>>◌}
use clarity_repl.Ast.{
  ParseErrors, expression_stack_depth_too_deep, PreSymbolicExpression, PreSymbolicExpressionType,
  PreSymbolicExpressions, pre_expression, pre_list, no_pre_expressions, pre_cons,
}

abbrev pub max_call_stack_depth : ℕ
max_call_stack_depth = 64

abbrev pub ast_call_stack_depth_buffer : ℕ
ast_call_stack_depth_buffer = 5

-- `if depth >= .. { return Err(..) }`
abbrev pub too_deep : ℕ → Result ParseErrors (Unit {0})
too_deep depth =
    fail_if (leb (ast_call_stack_depth_buffer + max_call_stack_depth) depth)
      expression_stack_depth_too_deep

-- The loop of `check`, which the recursive call for a list enters one level deeper.
unfoldable mutual
  pub check_each : PreSymbolicExpressions → ℕ → Result ParseErrors (Unit {0})
  check_each no_pre_expressions depth = ok tt
  check_each (pre_cons e rest) depth = do check_expression e depth; check_each rest depth

  pub check_expression : PreSymbolicExpression → ℕ → Result ParseErrors (Unit {0})
  check_expression (pre_expression content id span) depth = check_content content depth

  pub check_content : PreSymbolicExpressionType → ℕ → Result ParseErrors (Unit {0})
  check_content (pre_list exprs) depth = do too_deep (depth + 1); check_each exprs (depth + 1)
  check_content _ depth = ok tt

unfoldable pub check : PreSymbolicExpressions → ℕ → Result ParseErrors (Unit {0})
unfolding check_each
check args depth = do too_deep depth; check_each args depth

-- How deep lists are nested in lists.
unfoldable mutual
  pub list_depth : PreSymbolicExpressions → ℕ
  list_depth no_pre_expressions = 0
  list_depth (pre_cons e rest) = max (expression_depth e) (list_depth rest)

  pub expression_depth : PreSymbolicExpression → ℕ
  expression_depth (pre_expression content id span) = content_depth content

  pub content_depth : PreSymbolicExpressionType → ℕ
  content_depth (pre_list exprs) = 1 + list_depth exprs
  content_depth _ = 0

abbrev pub verdict : ℕ → Result ParseErrors (Unit {0})
verdict deepest =
    if ltb deepest (ast_call_stack_depth_buffer + max_call_stack_depth)
    then ok tt
    else err expression_stack_depth_too_deep

list-verdict :
    (depth inside : ℕ) (checked : Result ParseErrors (Unit {0}))
    → (depth + 1 < 69 → checked ≡ verdict (depth + 1 + inside))
    → (do too_deep (depth + 1); checked) ≡ verdict (depth + (1 + inside))
list-verdict depth inside checked h = elim (Bool-cases (ltb (depth + 1) 69)) [
  | inl lt ↦ ground (arith, h (ltb→lt (depth + 1) 69 lt))
  | inr ge ↦ ground (arith, ge)
]

both-verdict :
    (depth a b : ℕ) {r s : Result ParseErrors (Unit {0})}
    → r ≡ verdict (depth + a)
    → s ≡ verdict (depth + b)
    → (do r; s) ≡ verdict (depth + max a b)
both-verdict depth a b g h = elim (Bool-cases (ltb (depth + a) 69)) [
  | inl lt ↦ elim (Bool-cases (ltb (depth + b) 69)) [
    | inl lt' ↦ ground (arith, g, h, lt, lt')
    | inr ge' ↦ ground (arith, g, h, lt, ge')
  ]
  | inr ge ↦ ground (arith, g, ge)
]

mutual
  unfolding check_each list_depth

  check_each-verdict :
      (args : PreSymbolicExpressions) (depth : ℕ)
      → depth < 69
      → check_each args depth ≡ verdict (depth + list_depth args)
  check_each-verdict no_pre_expressions depth h = ground arith
  check_each-verdict (pre_cons e rest) depth h =
      both-verdict depth (expression_depth e) (list_depth rest) (check_expression-verdict e depth h)
        (check_each-verdict rest depth h)

  check_expression-verdict :
      (e : PreSymbolicExpression) (depth : ℕ)
      → depth < 69
      → check_expression e depth ≡ verdict (depth + expression_depth e)
  check_expression-verdict (pre_expression content id span) depth h =
      check_content-verdict content depth h

  check_content-verdict :
      (content : PreSymbolicExpressionType) (depth : ℕ)
      → depth < 69
      → check_content content depth ≡ verdict (depth + content_depth content)
  check_content-verdict (pre_list exprs) depth h =
      list-verdict depth (list_depth exprs) (check_each exprs (depth + 1))
        (check_each-verdict exprs (depth + 1))
  check_content-verdict content depth h = ground arith

-- The check of a program succeeds when lists are nested in lists to less than 69 levels, the
-- depth of the call stack and the buffer, and otherwise fails with ExpressionStackDepthTooDeep.
pub check-list_depth : (args : PreSymbolicExpressions) → check args 0 ≡ verdict (list_depth args)
unfolding check
check-list_depth args = ground (arith, check_each-verdict args 0)
