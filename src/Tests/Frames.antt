-- ===== src/Tests/Frames.antt =====
-- Contexts, scopes and the call stack.
use clarity_repl.Prelude.{
  ℕ, suc, ◌-◌, arith, ◌+◌, ◌≤◌, ◌≡◌, refl, ap, String, Option, none, some, List, [], ◌∷◌, ◌++◌,
  Bool, true, false, if◌then◌else◌,
}
use clarity_repl.Prelude.Result.{Result, ok, err}
use clarity_repl.Prelude.Machine.{u128_mod}
use clarity_repl.Prelude.Method.{raise}
use clarity_repl.Prelude.Map.{lookup, insert}
use clarity_repl.Prelude.Keys.{string_eq, pair_eq}
use clarity_repl.Types.Keys.{contract_eq, principal_eq}
use clarity_repl.Errors.{Error, runtime, arithmetic_overflow}
use clarity_repl.Tracker.{new_free}
use clarity_repl.Contexts.AssetMap
use clarity_repl.Contexts.AssetMap.{
  AssetMap, AssetIdentifier, commit_other, add_token_transfer, get_stx, get_stx_burned,
  get_fungible_tokens, or_zero,
}
use clarity_repl.Contexts.AssetMap.Commit.{commit_other_adds}
use clarity_repl.Contexts.Global.{GlobalContext, Transactional, begin, commit, roll_back, execute}
use clarity_repl.Contexts.Global.Laws.{commit_overflow, execute_error}
use clarity_repl.Contexts.Local
use clarity_repl.Contexts.Local.{
  LocalContext, nested, Scope, extend, lookup_variable, lookup_callable_contract, set_scope, scope,
  IsReachable, start, IsReachable-depth, lookup_variable-extend,
}
use clarity_repl.Contexts.CallStack
use clarity_repl.Contexts.CallStack.{CallStack, remove-insert}
use clarity_repl.Tests.{alice}

abbrev done : ℕ → Result Error (Unit {0}) × ℕ
done n = (ok tt, n)

one_less : (n : ℕ) → done (suc n - 1) ≡ done n
one_less n = ap done (omega arith)

-- Savepoints of nothing but their number.
abbrev counted : Transactional ℕ
counted = record {
  begin = λ n. suc n;
  commit = λ n. (ok tt, n - 1);
  roll_back = λ n. (ok tt, n - 1);
  roll_back-begin = one_less;
}

abbrev spent : AssetMap → AssetMap
spent m = record m { stx_map = (alice, 5) ∷ [] }

abbrev full : AssetMap
full = record AssetMap.new { stx_map = (alice, u128_mod - 1) ∷ [] }

abbrev context : GlobalContext ℕ (Unit {0})
context = record {
  asset_maps = spent AssetMap.new ∷ full ∷ [];
  event_batches = [] ∷ [] ∷ [];
  database = 2;
  read_only = false ∷ false ∷ [];
  cost_track = new_free;
}

commit_overflow_example :
    commit counted context ≡ (err (runtime arithmetic_overflow), (roll_back counted context).1)
unfolding commit_other lookup
commit_overflow_example =
    commit_overflow counted context (spent AssetMap.new) full full [] false (false ∷ []) []
      ([] ∷ []) (runtime arithmetic_overflow) 1 refl refl refl refl refl

execute_error_example :
    execute counted (raise {A = ℕ} (runtime arithmetic_overflow)) context
    ≡ (err (runtime arithmetic_overflow), context)
unfolding begin
execute_error_example =
    execute_error counted context (raise {A = ℕ} (runtime arithmetic_overflow))
      (runtime arithmetic_overflow) (begin counted context) AssetMap.new false [] refl refl refl
      refl refl

commit_other_adds_example :
    (or_zero (get_stx alice (spent AssetMap.new))
      ≡ or_zero (get_stx alice AssetMap.new) + or_zero (get_stx alice (spent AssetMap.new)))
    × (or_zero (get_stx_burned alice (spent AssetMap.new))
        ≡ or_zero (get_stx_burned alice AssetMap.new)
          + or_zero (get_stx_burned alice (spent AssetMap.new)))
unfolding lookup commit_other insert
commit_other_adds_example =
    commit_other_adds (spent AssetMap.new) AssetMap.new (spent AssetMap.new) alice (refl, tt) tt
      refl

IsReachable-depth_example : Local.depth Local.new ≤ Local.max_context_depth
IsReachable-depth_example = IsReachable-depth start

abbrev one_call : CallStack
one_call = record { stack = "f" ∷ []; set = ("f", tt) ∷ []; apply_depth = 2 }

remove-insert_example :
    ((CallStack.remove "g" true (CallStack.insert "g" true one_call)).0 ≡ ok tt)
    × ((CallStack.remove "g" true (CallStack.insert "g" true one_call)).1.stack ≡ one_call.stack)
    × (CallStack.depth (CallStack.remove "g" true (CallStack.insert "g" true one_call)).1
        ≡ CallStack.depth one_call)
    × (CallStack.contains "f" (CallStack.remove "g" true (CallStack.insert "g" true one_call)).1
        ≡ CallStack.contains "f" one_call)
    × (CallStack.depth (CallStack.insert "g" true one_call) ≡ CallStack.depth one_call + 1)
unfolding CallStack.contains clarity_repl.Prelude.Map.contains_key
remove-insert_example = remove-insert "g" "f" true one_call refl
