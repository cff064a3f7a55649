-- ===== src/Cost.antt =====
-- `ExecutionCost` of src/clarity/costs/mod.rs: five u64 dimensions with overflow-checked arithmetic.
pub mod Laws
use clarity_repl.Prelude.{ℕ, ◌-◌, ◌/◌, String, Bool, ◌||◌, ltb, max}
use clarity_repl.Prelude.Result.{Result, ok_or}
use clarity_repl.Prelude.Machine.{u64_mod, checked_add, checked_mul, checked_sub}
use clarity_repl.Prelude.Method.{Method, try, modify, ◌>>=◌, ◌>>◌}

pub record ExecutionCost : Type 0 where
  pub write_length : ℕ
  pub write_count : ℕ
  pub read_length : ℕ
  pub read_count : ℕ
  pub runtime : ℕ

pub data CostErrors : Type 0 where
  cost_computation_failed : String → CostErrors
  cost_overflow : CostErrors
  cost_balance_exceeded : ExecutionCost → ExecutionCost → CostErrors
  memory_balance_exceeded : ℕ → ℕ → CostErrors
  cost_contract_load_failure : CostErrors

-- `CostOverflowingMath<u64>`
unfoldable pub cost_overflow_mul : ℕ → ℕ → Result CostErrors ℕ
cost_overflow_mul a b = ok_or (checked_mul u64_mod a b) cost_overflow

unfoldable pub cost_overflow_add : ℕ → ℕ → Result CostErrors ℕ
cost_overflow_add a b = ok_or (checked_add u64_mod a b) cost_overflow

unfoldable pub cost_overflow_sub : ℕ → ℕ → Result CostErrors ℕ
cost_overflow_sub a b = ok_or (checked_sub a b) cost_overflow

abbrev pub zero_cost : ExecutionCost
zero_cost = record {
  write_length = 0;
  write_count = 0;
  read_length = 0;
  read_count = 0;
  runtime = 0;
}

abbrev u64_max : ℕ
u64_max = u64_mod - 1

abbrev pub max_value : ExecutionCost
max_value = record {
  write_length = u64_max;
  write_count = u64_max;
  read_length = u64_max;
  read_count = u64_max;
  runtime = u64_max;
}

-- The methods on `&mut self`: an error in the middle leaves the dimensions before it updated.
abbrev pub CostMethod : Type 0
CostMethod = Method ExecutionCost CostErrors (Unit {0})

abbrev set_runtime : ℕ → ExecutionCost → ExecutionCost
set_runtime n c = record c { runtime = n }

abbrev set_read_count : ℕ → ExecutionCost → ExecutionCost
set_read_count n c = record c { read_count = n }

abbrev set_read_length : ℕ → ExecutionCost → ExecutionCost
set_read_length n c = record c { read_length = n }

abbrev set_write_length : ℕ → ExecutionCost → ExecutionCost
set_write_length n c = record c { write_length = n }

abbrev set_write_count : ℕ → ExecutionCost → ExecutionCost
set_write_count n c = record c { write_count = n }

unfoldable pub add_runtime : ℕ → CostMethod
unfolding cost_overflow_add
add_runtime r = do n ← try (λ c. cost_overflow_add c.runtime r); modify (set_runtime n)

unfoldable pub add : ExecutionCost → CostMethod
unfolding cost_overflow_add
add other = do
  a ← try (λ c. cost_overflow_add c.runtime other.runtime)
  modify (set_runtime a)
  b ← try (λ c. cost_overflow_add c.read_count other.read_count)
  modify (set_read_count b)
  d ← try (λ c. cost_overflow_add c.read_length other.read_length)
  modify (set_read_length d)
  e ← try (λ c. cost_overflow_add c.write_length other.write_length)
  modify (set_write_length e)
  f ← try (λ c. cost_overflow_add c.write_count other.write_count)
  modify (set_write_count f)

unfoldable pub sub : ExecutionCost → CostMethod
unfolding cost_overflow_sub
sub other = do
  a ← try (λ c. cost_overflow_sub c.runtime other.runtime)
  modify (set_runtime a)
  b ← try (λ c. cost_overflow_sub c.read_count other.read_count)
  modify (set_read_count b)
  d ← try (λ c. cost_overflow_sub c.read_length other.read_length)
  modify (set_read_length d)
  e ← try (λ c. cost_overflow_sub c.write_length other.write_length)
  modify (set_write_length e)
  f ← try (λ c. cost_overflow_sub c.write_count other.write_count)
  modify (set_write_count f)

unfoldable pub multiply : ℕ → CostMethod
unfolding cost_overflow_mul
multiply times = do
  a ← try (λ c. cost_overflow_mul c.runtime times)
  modify (set_runtime a)
  b ← try (λ c. cost_overflow_mul c.read_count times)
  modify (set_read_count b)
  d ← try (λ c. cost_overflow_mul c.read_length times)
  modify (set_read_length d)
  e ← try (λ c. cost_overflow_mul c.write_length times)
  modify (set_write_length e)
  f ← try (λ c. cost_overflow_mul c.write_count times)
  modify (set_write_count f)

-- Does the cost exceed the other in any dimension?
unfoldable pub exceeds : ExecutionCost → ExecutionCost → Bool
exceeds self other =
    ltb other.runtime self.runtime
    || ltb other.write_length self.write_length
    || ltb other.write_count self.write_count
    || ltb other.read_count self.read_count
    || ltb other.read_length self.read_length

unfoldable pub max_cost : ExecutionCost → ExecutionCost → ExecutionCost
max_cost first second = record {
  runtime = max first.runtime second.runtime;
  write_length = max first.write_length second.write_length;
  write_count = max first.write_count second.write_count;
  read_count = max first.read_count second.read_count;
  read_length = max first.read_length second.read_length;
}

-- The largest percentage of `self` that `numerator` uses in one dimension.
unfoldable pub proportion_largest_dimension : ExecutionCost → ExecutionCost → ℕ
proportion_largest_dimension self numerator = max (numerator.runtime / max 1 (self.runtime / 100)) (
    max (numerator.write_length / max 1 (self.write_length / 100)) (
      max (numerator.write_count / max 1 (self.write_count / 100)) (
        max (numerator.read_length / max 1 (self.read_length / 100))
          (numerator.read_count / max 1 (self.read_count / 100)))))
