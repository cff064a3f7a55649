-- ===== src/Cost/Laws.antt =====
-- `ExecutionCost` of src/clarity/costs/mod.rs against exact arithmetic in each dimension.
use clarity_repl.Prelude.{◌+◌, ◌≤◌, ◌≡◌, ◌↔◌, false, arith}
use clarity_repl.Prelude.Result.{ok}
use clarity_repl.Prelude.Machine.{IsU64}
use clarity_repl.Cost.{ExecutionCost, add, sub, exceeds}

-- `a` is at most `b` in every dimension
pub record Le (a b : ExecutionCost) : Type 0 where
  pub write_length : a.write_length ≤ b.write_length
  pub write_count : a.write_count ≤ b.write_count
  pub read_length : a.read_length ≤ b.read_length
  pub read_count : a.read_count ≤ b.read_count
  pub runtime : a.runtime ≤ b.runtime

-- every dimension is a u64
pub record InRange (a : ExecutionCost) : Type 0 where
  pub write_length : IsU64 a.write_length
  pub write_count : IsU64 a.write_count
  pub read_length : IsU64 a.read_length
  pub read_count : IsU64 a.read_count
  pub runtime : IsU64 a.runtime

-- the exact sum, with no bound
abbrev pub plus : ExecutionCost → ExecutionCost → ExecutionCost
plus a b = record {
  write_length = a.write_length + b.write_length;
  write_count = a.write_count + b.write_count;
  read_length = a.read_length + b.read_length;
  read_count = a.read_count + b.read_count;
  runtime = a.runtime + b.runtime;
}

-- A cost does not exceed another exactly when it is at most the other in every dimension.
pub exceeds_iff : (a b : ExecutionCost) → (exceeds a b ≡ false) ↔ Le a b
unfolding exceeds
exceeds_iff a b = ground arith

-- `add` succeeds exactly when the exact sum fits in u64 in every dimension, and is then that sum.
pub add_iff : (a b : ExecutionCost) → (add b a ≡ (ok tt, plus a b)) ↔ InRange (plus a b)
unfolding add
add_iff a b = ground arith

-- Subtracting a cost from the total that a successful addition of it gave restores the total.
pub sub-add : (a b c : ExecutionCost) → add b a ≡ (ok tt, c) → sub b c ≡ (ok tt, a)
unfolding add sub
sub-add a b c h = ground arith
