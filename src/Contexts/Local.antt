-- ===== src/Contexts/Local.antt =====
-- `LocalContext` of src/clarity/contexts.rs: the scopes of local variables.
use clarity_repl.Prelude.{
  ℕ, ◌+◌, ◌≤◌, ◌≡◌, refl, String, Option, none, some, [], leb, if◌then◌else◌, arith,
}
use clarity_repl.Prelude.Result.{Result, ok, err}
use clarity_repl.Prelude.Map.{Map, lookup, insert, lookup-insert}
use clarity_repl.Prelude.Keys.{string_eq}
use clarity_repl.Types.{QualifiedContractIdentifier, TraitIdentifier}
use clarity_repl.Errors.{Error, runtime, max_context_depth_reached}
use clarity_repl.Values.{Value}

-- The variables, the callable contracts and the depth.
pub record Scope : Type 0 where
  pub variables : Map String Value
  pub callable_contracts : Map String (QualifiedContractIdentifier × TraitIdentifier)
  pub depth : ℕ

-- `function_context` and `parent` are both set or both not: a context is the outermost one of a
-- function, or is nested in a parent and refers to the outermost one.
pub data LocalContext : Type 0 where
  outermost : Scope → LocalContext
  nested : LocalContext → LocalContext → Scope → LocalContext

abbrev pub max_context_depth : ℕ
max_context_depth = 256

unfoldable pub scope : LocalContext → Scope
scope (outermost s) = s
scope (nested f p s) = s

-- a change of the variables and callable contracts of a context
unfoldable pub set_scope : Scope → LocalContext → LocalContext
set_scope s (outermost _) = outermost s
set_scope s (nested f p _) = nested f p s

unfoldable pub new : LocalContext
new = outermost (record { variables = []; callable_contracts = []; depth = 0 })

unfoldable pub depth : LocalContext → ℕ
unfolding scope
depth c = (scope c).depth

unfoldable pub function_context : LocalContext → LocalContext
function_context (nested f p s) = f
function_context (outermost s) = outermost s

unfoldable pub extend : LocalContext → Result Error LocalContext
unfolding depth function_context
extend c =
    if leb max_context_depth (depth c)
    then err (runtime max_context_depth_reached)
    else ok (
        nested (function_context c) c
          (record { variables = []; callable_contracts = []; depth = depth c + 1 }))

unfoldable pub lookup_variable : String → LocalContext → Option Value
lookup_variable name (outermost s) = lookup name s.variables
lookup_variable name (nested f p s) =
    let in_parent = lookup_variable name p in
    elim (lookup name s.variables) [ none ↦ in_parent | some value ↦ some value ]

unfoldable pub lookup_callable_contract :
    String → LocalContext → Option (QualifiedContractIdentifier × TraitIdentifier)
unfolding function_context scope
lookup_callable_contract name c = lookup name (scope (function_context c)).callable_contracts

-- The contexts that `new` and `extend` give, with any variables put in on the way.
pub data IsReachable : LocalContext → Type 0 where
  start : IsReachable new
  extended : {c c' : LocalContext} → IsReachable c → extend c ≡ ok c' → IsReachable c'
  bound :
      {c : LocalContext} (vs : Map String Value)
      → IsReachable c
      → IsReachable (set_scope (record (scope c) { variables = vs }) c)

depth-set_scope :
    (c : LocalContext) (vs : Map String Value)
    → depth (set_scope (record (scope c) { variables = vs }) c) ≡ depth c
unfolding depth set_scope scope
depth-set_scope (outermost s) vs = refl
depth-set_scope (nested f p s) vs = refl

-- No local context that new and extend can give, with any variables bound on the way, is deeper
-- than MAX_CONTEXT_DEPTH.
pub IsReachable-depth : {c : LocalContext} → IsReachable c → depth c ≤ max_context_depth
unfolding new extend depth set_scope scope
IsReachable-depth start = ground arith
IsReachable-depth (extended {c = b} r h) = ground (arith, h, IsReachable-depth r)
IsReachable-depth (bound {c = b} vs r) = ground (arith, depth-set_scope b vs, IsReachable-depth r)

-- A new scope shows the variables and callable contracts of its parent, and a variable bound in
-- it shadows the parent's variable of the same name and no other.
pub lookup_variable-extend :
    (c c' : LocalContext) (name other : String) (v : Value)
    → extend c ≡ ok c'
    → (lookup_variable other c' ≡ lookup_variable other c)
      × (lookup_callable_contract other c' ≡ lookup_callable_contract other c)
      × (lookup_variable other
            (set_scope (record (scope c') { variables = insert name v (scope c').variables }) c')
          ≡ (if string_eq.beq name other then some v else lookup_variable other c))
unfolding extend lookup_variable lookup_callable_contract function_context set_scope scope lookup
lookup_variable-extend c c' name other v h = ground (arith, h, lookup-insert name other v [])
