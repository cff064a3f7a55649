-- ===== src/Ast/Cycles.antt =====
-- The search for circular definitions: `Graph` and `get_cycling_dependencies` of
-- src/clarity/ast/definition_sorter/mod.rs. A `HashSet` is a map to the unit type.
use clarity_repl.Prelude.{
  ℕ, ◌+◌, ◌≤◌, ◌≡◌, sym, subst, Bool, true, false, not, ◌||◌, Option, none, some, List, [], ◌∷◌,
  length, get_elem?, is_empty, ◌==◌, ==_iff, if◌then◌else◌, Bool-cases, inl, inr, arith,
}
use clarity_repl.Prelude.Map.{Map, contains_key, insert, contains_key-lookup, lookup-insert}
use clarity_repl.Prelude.Keys.{nat_eq}
use clarity_repl.Prelude.Result.{Result, ok, unwrap, ◌>>=◌, >>=-eq-ok, ok-pair}
use clarity_repl.Ast.{ParseErrors}

pub record Graph : Type 0 where
  pub adjacency_list : List (List ℕ)

unfoldable pub nodes_count : Graph → ℕ
nodes_count graph = length graph.adjacency_list

-- An index out of range is a panic.
unfoldable pub get_node_descendants : Graph → ℕ → Result ParseErrors (List ℕ)
get_node_descendants graph expr_index = unwrap (get_elem? graph.adjacency_list expr_index)

unfoldable pub has_node_descendants : Graph → ℕ → Result ParseErrors Bool
unfolding get_node_descendants
has_node_descendants graph expr_index = do
  list ← get_node_descendants graph expr_index
  ok (not (is_empty list))

-- The inner loop: the tainted nodes and the count of tainted descendants.
unfoldable pub taint_descendants :
    Graph → List ℕ → Map ℕ (Unit {0}) → ℕ → Result ParseErrors (Map ℕ (Unit {0}) × ℕ)
unfolding has_node_descendants
taint_descendants graph [] tainted count = ok (tainted, count)
taint_descendants graph (descendant ∷ rest) tainted count = do
  has ← has_node_descendants graph descendant
  let hit = not has || contains_key descendant tainted
  taint_descendants graph rest (if hit then insert descendant tt tainted else tainted)
      (if hit then count + 1 else count)

-- The outer loop.
unfoldable pub taint_nodes :
    Graph → List ℕ → Map ℕ (Unit {0}) → Result ParseErrors (Map ℕ (Unit {0}))
unfolding taint_descendants
taint_nodes graph [] tainted = ok tainted
taint_nodes graph (node ∷ rest) tainted = do
  descendants ← get_node_descendants graph node
  (tainted', count) ← taint_descendants graph descendants tainted 0
  taint_nodes graph rest (if count == length descendants then insert node tt tainted' else tainted')

-- `HashSet::from_iter`
abbrev pub from_iter : List ℕ → Map ℕ (Unit {0})
from_iter [] = []
from_iter (n ∷ ns) = insert n tt (from_iter ns)

-- `nodes.difference(&tainted)`
abbrev pub difference : Map ℕ (Unit {0}) → Map ℕ (Unit {0}) → List ℕ
difference [] tainted = []
difference ((n, u) ∷ nodes) tainted =
    let rest = difference nodes tainted in if contains_key n tainted then rest else n ∷ rest

unfoldable pub get_cycling_dependencies : Graph → List ℕ → Result ParseErrors (Option (List ℕ))
unfolding taint_nodes
get_cycling_dependencies graph sorted_indexes = do
  tainted ← taint_nodes graph sorted_indexes []
  ok (
      if length tainted == length sorted_indexes
      then none
      else some (difference (from_iter sorted_indexes) tainted))

-- Every chain of dependencies from the node ends.
pub data IsGrounded (graph : Graph) : ℕ → Type 0 where
  grounded :
      (node : ℕ) (descendants : List ℕ)
      → get_node_descendants graph node ≡ ok descendants
      → ((d : ℕ) → contains_key d (from_iter descendants) ≡ true → IsGrounded graph d)
      → IsGrounded graph node

contains_key-insert :
    (n m : ℕ) (nodes : Map ℕ (Unit {0}))
    → contains_key m (insert n tt nodes) ≡ (if n == m then true else contains_key m nodes)
contains_key-insert n m nodes = ground (
  arith,
  contains_key-lookup m nodes,
  contains_key-lookup m (insert n tt nodes),
  lookup-insert n m tt nodes,
)

module _ (graph : Graph) where
  abbrev AreGrounded : Map ℕ (Unit {0}) → Type 0
  AreGrounded nodes = (n : ℕ) → contains_key n nodes ≡ true → IsGrounded graph n

  AreGrounded-none : AreGrounded []
  unfolding contains_key
  AreGrounded-none n h = cc

  insert-AreGrounded :
      (n : ℕ) (nodes : Map ℕ (Unit {0}))
      → IsGrounded graph n
      → AreGrounded nodes
      → AreGrounded (insert n tt nodes)
  insert-AreGrounded n nodes g gs m h = elim (Bool-cases (n == m)) [
    | inl same ↦ subst (IsGrounded graph) ((==_iff n m).0 same) g
    | inr other ↦ gs m (ground (arith, other, h, contains_key-insert n m nodes))
  ]

  leaf-IsGrounded : (n : ℕ) → has_node_descendants graph n ≡ ok false → IsGrounded graph n
  unfolding has_node_descendants
  leaf-IsGrounded n h =
      let (descendants, found, empty) = >>=-eq-ok (get_node_descendants graph n) _ h in
      let nothing : descendants ≡ [] = ground (arith, empty) in
      grounded n descendants found
        (subst (λ ds. AreGrounded (from_iter ds)) (sym nothing) AreGrounded-none)

  hit-IsGrounded :
      (n : ℕ) (has : Bool) (tainted : Map ℕ (Unit {0}))
      → has_node_descendants graph n ≡ ok has
      → AreGrounded tainted
      → (not has || contains_key n tainted) ≡ true
      → IsGrounded graph n
  hit-IsGrounded n false tainted found gs hit = leaf-IsGrounded n found
  hit-IsGrounded n true tainted found gs hit = gs n hit

  taint_descendants-AreGrounded :
      (descendants : List ℕ) (tainted : Map ℕ (Unit {0})) (count : ℕ) {out : Map ℕ (Unit {0})}
      {last : ℕ}
      → AreGrounded tainted
      → taint_descendants graph descendants tainted count ≡ ok (out, last)
      → AreGrounded out
        × (last ≤ count + length descendants)
        × ((last ≡ count + length descendants) → AreGrounded (from_iter descendants))
  unfolding taint_descendants
  taint_descendants-AreGrounded [] tainted count gs h =
      let (same, same_last) = ok-pair h in
      (subst AreGrounded same gs, omega arith, λ e. AreGrounded-none)
  taint_descendants-AreGrounded (d ∷ ds) tainted count {out} {last} gs h =
      let (has, found, more) = >>=-eq-ok (has_node_descendants graph d) _ h in
      elim (Bool-cases (not has || contains_key d tainted)) [
        | inl hit ↦
            let g = hit-IsGrounded d has tainted found gs hit in
            let (gs', le, all) =
              taint_descendants-AreGrounded ds (insert d tt tainted) (count + 1) {out = out}
                {last = last} (insert-AreGrounded d tainted g gs)
                (subst
                  (λ b.
                    taint_descendants graph ds (if b then insert d tt tainted else tainted)
                      (if b then count + 1 else count)
                    ≡ ok (out, last))
                  hit more) in
            (
              gs',
              omega (arith, le),
              λ e. insert-AreGrounded d (from_iter ds) g (all (omega (arith, e))),
            )
        | inr miss ↦
            let (gs', le, all) =
              taint_descendants-AreGrounded ds tainted count {out = out} {last = last} gs (
                subst
                  (λ b.
                    taint_descendants graph ds (if b then insert d tt tainted else tainted)
                      (if b then count + 1 else count)
                    ≡ ok (out, last))
                  miss more) in
            (gs', omega (arith, le), λ e. absurd (omega (arith, le, e)))
      ]

  taint_nodes-AreGrounded :
      (nodes : List ℕ) (tainted : Map ℕ (Unit {0})) {out : Map ℕ (Unit {0})}
      → AreGrounded tainted
      → taint_nodes graph nodes tainted ≡ ok out
      → AreGrounded out
  unfolding taint_nodes
  taint_nodes-AreGrounded [] tainted gs h = subst AreGrounded (ground (arith, h)) gs
  taint_nodes-AreGrounded (node ∷ rest) tainted {out} gs h =
      let (descendants, found, more) = >>=-eq-ok (get_node_descendants graph node) _ h in
      let ((tainted', count), counted, others) =
        >>=-eq-ok (taint_descendants graph descendants tainted 0) _ more in
      let (gs', le, all) = taint_descendants-AreGrounded descendants tainted 0 gs counted in
      elim (Bool-cases (count == length descendants)) [
        | inl same ↦
            taint_nodes-AreGrounded rest (insert node tt tainted') {out = out}
              (insert-AreGrounded node tainted'
                (grounded node descendants found
                  (all (omega (arith, (==_iff count (length descendants)).0 same))))
                gs')
              (subst
                (λ b.
                  taint_nodes graph rest (if b then insert node tt tainted' else tainted') ≡ ok out)
                same others)
        | inr other ↦ taint_nodes-AreGrounded rest tainted' {out = out} gs' (
            subst
              (λ b.
                taint_nodes graph rest (if b then insert node tt tainted' else tainted') ≡ ok out)
              other others)
      ]

abbrev listed : ℕ → List ℕ → Bool
listed n [] = false
listed n (m ∷ ms) = n == m || listed n ms

listed-difference :
    (n : ℕ) (nodes tainted : Map ℕ (Unit {0}))
    → contains_key n nodes ≡ true
    → listed n (difference nodes tainted) ≡ false
    → contains_key n tainted ≡ true
unfolding contains_key
listed-difference n [] tainted h l = cc
listed-difference n ((m, u) ∷ nodes) tainted h l =
    ground (arith, h, l, ==_iff n m, listed-difference n nodes tainted)

-- Where the search for circular definitions reports nodes, a node of the sorting that it does not
-- report has no endless chain of dependencies: all of them end, and so it is on no cycle and
-- depends on none.
pub get_cycling_dependencies-IsGrounded :
    (graph : Graph) (sorted_indexes deps : List ℕ) (node : ℕ)
    → get_cycling_dependencies graph sorted_indexes ≡ ok (some deps)
    → contains_key node (from_iter sorted_indexes) ≡ true
    → listed node deps ≡ false
    → IsGrounded graph node
unfolding get_cycling_dependencies
get_cycling_dependencies-IsGrounded graph sorted_indexes deps node h member unlisted =
    let (tainted, found, more) = >>=-eq-ok (taint_nodes graph sorted_indexes []) _ h in
    taint_nodes-AreGrounded graph sorted_indexes [] (AreGrounded-none graph) found node (
      listed-difference node (from_iter sorted_indexes) tainted member
        (ground (arith, unlisted, more)))
