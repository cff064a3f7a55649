-- ===== src/Functions/Arithmetic.antt =====
-- src/clarity/functions/arithmetic.rs: the operations that a macro makes for u128 and for i128, and
-- the native functions that choose between them by the values' types.
pub mod Laws
use clarity_repl.Prelude.{
  ℕ, ◌-◌, String, Bool, true, false, ◌&&◌, ◌||◌, Option, none, some, List, [], ◌∷◌, length,
  is_empty, ltb, if◌then◌else◌,
}
use clarity_repl.Prelude.Int.{ℤ, pos, negsuc}
use clarity_repl.Prelude.Result.{Result, ok, err, ok_or, ◌>>=◌}
use clarity_repl.Prelude.Machine.{u32_mod}
use clarity_repl.Errors.{
  Error, runtime, unchecked, arithmetic, arithmetic_overflow, arithmetic_underflow,
  division_by_zero, union_type_value_error, type_value_error, incorrect_argument_count,
}
use clarity_repl.Types.{int_type, uint_type}
use clarity_repl.Values.{Value, int, uint, bool}
use clarity_repl.Functions.Integer.{Integer, u128, i128, i128_half, bit_length}

-- `Iterator::try_fold` with a checked operation
unfoldable pub try_fold : {A : Type 0} → (A → A → Option A) → A → List A → Option A
try_fold f acc [] = some acc
try_fold f acc (x ∷ xs) = elim (f acc x) [ none ↦ none | some next ↦ try_fold f next xs ]

module _ {A : Type 0} (ops : Integer A) where
  abbrev pub made : A → Result Error Value
  made x = ok (ops.make_value x)

  unfoldable pub xor : A → A → Result Error Value
  xor x y = made (ops.xor x y)

  unfoldable pub leq : A → A → Result Error Value
  leq x y = ok (bool (ops.le x y))

  unfoldable pub geq : A → A → Result Error Value
  geq x y = ok (bool (ops.le y x))

  unfoldable pub greater : A → A → Result Error Value
  greater x y = ok (bool (ops.lt y x))

  unfoldable pub less : A → A → Result Error Value
  less x y = ok (bool (ops.lt x y))

  unfoldable pub add : List A → Result Error Value
  unfolding try_fold
  add args = do
    result ← ok_or (try_fold ops.add (ops.of_ℕ 0) args) (runtime arithmetic_overflow)
    made result

  unfoldable pub sub : List A → Result Error Value
  unfolding try_fold
  sub [] = err (unchecked (incorrect_argument_count 1 0))
  sub (first ∷ []) = do result ← ok_or (ops.neg first) (runtime arithmetic_underflow); made result
  sub (first ∷ second ∷ rest) = do
    result ← ok_or (try_fold ops.sub first (second ∷ rest)) (runtime arithmetic_underflow)
    made result

  unfoldable pub mul : List A → Result Error Value
  unfolding try_fold
  mul args = do
    result ← ok_or (try_fold ops.mul (ops.of_ℕ 1) args) (runtime arithmetic_overflow)
    made result

  unfoldable pub div : List A → Result Error Value
  unfolding try_fold
  div [] = err (unchecked (incorrect_argument_count 1 0))
  div (first ∷ rest) = do
    result ← ok_or (try_fold ops.div first rest) (runtime division_by_zero)
    made result

  unfoldable pub modulo : A → A → Result Error Value
  modulo numerator denominator = do
    result ← ok_or (ops.rem numerator denominator) (runtime division_by_zero)
    made result

  unfoldable pub pow : A → A → Result Error Value
  pow base power =
      if ops.eq base (ops.of_ℕ 0) && ops.eq power (ops.of_ℕ 0)
      then made (ops.of_ℕ 1)
      else if ops.eq base (ops.of_ℕ 1)
      then made (ops.of_ℕ 1)
      else if ops.eq base (ops.of_ℕ 0)
      then made (ops.of_ℕ 0)
      else if ops.eq power (ops.of_ℕ 1)
      then made base
      else if ops.lt power (ops.of_ℕ 0) || ops.lt (ops.of_ℕ (u32_mod - 1)) power
      then err (runtime (arithmetic "Power argument to (pow ...) must be a u32 integer"))
      else (do
        result ← ok_or (ops.pow base (ops.to_ℕ power)) (runtime arithmetic_overflow)
        made result)

  -- `integer_sqrt_checked` is of the crate integer-sqrt.
  unfoldable pub sqrti : (A → Option A) → A → Result Error Value
  sqrti integer_sqrt_checked n = do
    result ←
        ok_or (integer_sqrt_checked n)
          (runtime (arithmetic "sqrti must be passed a positive integer"))
    made result

  -- `size * 8 - 1 - n.leading_zeros()` is one less than the number of bits of n
  unfoldable pub log2 : A → Result Error Value
  log2 n =
      if ops.lt n (ops.of_ℕ 1)
      then err (runtime (arithmetic "log2 must be passed a positive integer"))
      else made (ops.of_ℕ (128 - 1 - (128 - bit_length 128 (ops.to_ℕ n))))

-- the dispatch of two arguments of one type
abbrev pub binary :
    (ℤ → ℤ → Result Error Value) → (ℕ → ℕ → Result Error Value) → Value → Value → Result Error Value
binary on_int on_uint (int x) (int y) = on_int x y
binary on_int on_uint (uint x) (uint y) = on_uint x y
binary on_int on_uint x y = err (unchecked (union_type_value_error (int_type ∷ uint_type ∷ []) x))

abbrev pub unary : (ℤ → Result Error Value) → (ℕ → Result Error Value) → Value → Result Error Value
unary on_int on_uint (int x) = on_int x
unary on_int on_uint (uint x) = on_uint x
unary on_int on_uint x = err (unchecked (union_type_value_error (int_type ∷ uint_type ∷ []) x))

-- the loops that check that the arguments have the type of the first
unfoldable pub int_args : List Value → Result Error (List ℤ)
int_args [] = ok []
int_args (int x ∷ rest) = do xs ← int_args rest; ok (x ∷ xs)
int_args (v ∷ rest) = err (unchecked (type_value_error int_type v))

unfoldable pub uint_args : List Value → Result Error (List ℕ)
uint_args [] = ok []
uint_args (uint x ∷ rest) = do xs ← uint_args rest; ok (x ∷ xs)
uint_args (v ∷ rest) = err (unchecked (type_value_error uint_type v))

unfoldable pub variadic :
    (List ℤ → Result Error Value) → (List ℕ → Result Error Value) → List Value → Result Error Value
unfolding int_args uint_args
variadic on_int on_uint [] = err (unchecked (incorrect_argument_count 1 0))
variadic on_int on_uint (int x ∷ rest) = do xs ← int_args (int x ∷ rest); on_int xs
variadic on_int on_uint (uint x ∷ rest) = do xs ← uint_args (uint x ∷ rest); on_uint xs
variadic on_int on_uint (first ∷ rest) =
    err (unchecked (union_type_value_error (int_type ∷ uint_type ∷ []) first))

unfoldable pub native_xor : Value → Value → Result Error Value
unfolding xor
native_xor a b = binary (xor i128) (xor u128) a b

unfoldable pub native_geq : Value → Value → Result Error Value
unfolding geq
native_geq a b = binary (geq i128) (geq u128) a b

unfoldable pub native_leq : Value → Value → Result Error Value
unfolding leq
native_leq a b = binary (leq i128) (leq u128) a b

unfoldable pub native_ge : Value → Value → Result Error Value
unfolding greater
native_ge a b = binary (greater i128) (greater u128) a b

unfoldable pub native_le : Value → Value → Result Error Value
unfolding less
native_le a b = binary (less i128) (less u128) a b

unfoldable pub native_pow : Value → Value → Result Error Value
unfolding pow
native_pow a b = binary (pow i128) (pow u128) a b

unfoldable pub native_mod : Value → Value → Result Error Value
unfolding modulo
native_mod a b = binary (modulo i128) (modulo u128) a b

unfoldable pub native_add : List Value → Result Error Value
unfolding add variadic
native_add args = variadic (add i128) (add u128) args

unfoldable pub native_sub : List Value → Result Error Value
unfolding sub variadic
native_sub args = variadic (sub i128) (sub u128) args

unfoldable pub native_mul : List Value → Result Error Value
unfolding mul variadic
native_mul args = variadic (mul i128) (mul u128) args

unfoldable pub native_div : List Value → Result Error Value
unfolding div variadic
native_div args = variadic (div i128) (div u128) args

unfoldable pub native_sqrti : (ℤ → Option ℤ) → (ℕ → Option ℕ) → Value → Result Error Value
unfolding sqrti
native_sqrti sqrt_i128 sqrt_u128 n = unary (sqrti i128 sqrt_i128) (sqrti u128 sqrt_u128) n

unfoldable pub native_log2 : Value → Result Error Value
unfolding log2
native_log2 n = unary (log2 i128) (log2 u128) n

unfoldable pub native_to_uint : Value → Result Error Value
native_to_uint (int (pos n)) = ok (uint n)
native_to_uint (int (negsuc n)) = err (runtime arithmetic_underflow)
native_to_uint input = err (unchecked (type_value_error int_type input))

unfoldable pub native_to_int : Value → Result Error Value
native_to_int (uint n) =
    if ltb n i128_half then ok (int (pos n)) else err (runtime arithmetic_overflow)
native_to_int input = err (unchecked (type_value_error uint_type input))
