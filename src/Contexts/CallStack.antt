-- ===== src/Contexts/CallStack.antt =====
-- `CallStack` of src/clarity/contexts.rs: the functions that are being called. The `HashSet` is a
-- map to the unit type, and a function identifier is its text.
use clarity_repl.Prelude.{
  ℕ, ◌+◌, ◌-◌, ◌%◌, ◌≡◌, String, Bool, true, false, List, [], ◌∷◌, length, if◌then◌else◌, arith,
}
use clarity_repl.Prelude.Machine.{u64_mod}
use clarity_repl.Prelude.Result.{ok, err, panic}
use clarity_repl.Prelude.Map.{
  Map, contains_key, insert as map_insert, remove as map_remove, lookup-insert, lookup-remove,
  contains_key-lookup,
}
use clarity_repl.Prelude.Keys.{string_eq}
use clarity_repl.Prelude.Method.{Method}
use clarity_repl.Errors.{Error, interpreter, interpreter_error}

-- The call that is made last comes first in `stack`.
pub record CallStack : Type 0 where
  pub stack : List String
  pub set : Map String (Unit {0})
  pub apply_depth : ℕ

unfoldable pub new : CallStack
new = record { stack = []; set = []; apply_depth = 0 }

unfoldable pub depth : CallStack → ℕ
depth c = length c.stack + c.apply_depth

unfoldable pub contains : String → CallStack → Bool
contains function c = contains_key function c.set

unfoldable pub insert : String → Bool → CallStack → CallStack
insert function track c = record c {
  stack = function ∷ c.stack;
  set = if track then map_insert function tt c.set else c.set;
}

-- `+= 1` and `-= 1` on a usize of 64 bits, unchecked: they wrap
unfoldable pub incr_apply_depth : CallStack → CallStack
incr_apply_depth c = record c { apply_depth = (c.apply_depth + 1) % u64_mod }

unfoldable pub decr_apply_depth : CallStack → CallStack
decr_apply_depth c = record c { apply_depth = (c.apply_depth + (u64_mod - 1)) % u64_mod }

unfoldable pub remove : String → Bool → Method CallStack Error (Unit {0})
remove function tracked c = elim c.stack [
  | [] ↦ (err (interpreter (interpreter_error "Tried to remove item from empty call stack.")), c)
  | (removed ∷ below) ↦
      if string_eq.beq removed function
      then (if tracked
          then (
            if contains_key function c.set then ok tt else panic,
            record c { stack = below; set = map_remove function c.set },
          )
          else (ok tt, record c { stack = below }))
      else (
        err (interpreter (interpreter_error "Tried to remove item from empty call stack.")),
        record c { stack = below },
      )
]

-- Entering and leaving a function that is not being called, tracked or not, succeeds, restores
-- the stack, the depth and the set of functions being called, and counts one level in between.
pub remove-insert :
    (f g : String) (track : Bool) (c : CallStack)
    → contains f c ≡ false
    → ((remove f track (insert f track c)).0 ≡ ok tt)
      × ((remove f track (insert f track c)).1.stack ≡ c.stack)
      × (depth (remove f track (insert f track c)).1 ≡ depth c)
      × (contains g (remove f track (insert f track c)).1 ≡ contains g c)
      × (depth (insert f track c) ≡ depth c + 1)
unfolding remove insert contains depth
remove-insert f g true c h = ground (
  arith,
  lookup-insert f f tt c.set,
  lookup-insert f g tt c.set,
  lookup-remove f g (map_insert f tt c.set),
  contains_key-lookup f (map_insert f tt c.set),
  contains_key-lookup g (map_remove f (map_insert f tt c.set)),
  contains_key-lookup g c.set,
  contains_key-lookup f c.set,
  string_eq.beq_iff f f,
  string_eq.beq_iff f g,
)
remove-insert f g false c h = ground (arith, string_eq.beq_iff f f)
