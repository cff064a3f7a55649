-- ===== src/Functions/Assets/Laws.antt =====
-- The token functions of src/clarity/functions/assets.rs and the sums of balances.
use clarity_repl.Prelude.{
  ◌⊎◌, ℕ, ◌-◌, ◌+◌, ◌≤◌, ◌≡◌, ◌≢◌, refl, ap, String, true, Option, none, some, if◌then◌else◌, arith,
}
use clarity_repl.Prelude.Result.{ok}
use clarity_repl.Prelude.Map.{
  Map, lookup, insert, total, measure, total-insert, lookup-insert, beq_refl,
}
use clarity_repl.Prelude.Keys.{string_eq, pair_eq}
use clarity_repl.Types.{QualifiedContractIdentifier, PrincipalData}
use clarity_repl.Types.Keys.{contract_eq, principal_eq, principal_beq_iff}
use clarity_repl.Values.{Value, uint, principal}
use clarity_repl.Values.TypeOf.{okay_true, err_uint}
use clarity_repl.Database.Tables.{
  ClarityDatabase, FungibleTokenMetadata, Token, value_or, checked_increase_token_supply,
  checked_decrease_token_supply, get_ft_balance, set_ft_balance, load_ft,
}
use clarity_repl.Database.Tables.Stx.{get_stx_balance_snapshot, transfer_to}
use clarity_repl.Database.Tables.Conservation.{stx_total, transfer_to_total}
use clarity_repl.Contexts.Global.{
  GlobalContext, log_token_transfer, log_stx_transfer, on_asset_map, register_event,
}
use clarity_repl.Functions.Assets.{
  SavedTables, Environment, mint_amount, mint_token, move_amount, transfer_token, burn_amount,
  is_sender, burn_token, stx_transfer_consolidated, on_tables, add_memory, token,
}

-- one entry's part of the sum for a token
abbrev pub of_token : Token → Token × PrincipalData → ℕ → ℕ
of_token t (s, p) n =
    if (pair_eq {A = QualifiedContractIdentifier} {B = String}).beq s t then n else 0

abbrev pub ft_total : Token → ClarityDatabase → ℕ
ft_total t d = total (of_token t) d.ft_balances

-- The recorded supply of a token is the sum of all its balances.
pub record IsBacked (t : Token) (d : ClarityDatabase) : Type 0 where
  pub supply : lookup t d.circulating_supply ≡ some (ft_total t d)

of_token-measure :
    (t s : Token) (p : PrincipalData) (o : Option ℕ)
    → measure (of_token t) (s, p) o ≡ (
        if (pair_eq {A = QualifiedContractIdentifier} {B = String}).beq s t
        then value_or 0 o
        else 0)
of_token-measure t s p none = ground arith
of_token-measure t s p (some n) = refl

-- the database after one balance is set, for a token's total
pub ft_total-insert :
    (t s : Token) (p : PrincipalData) (n : ℕ) (m : Map (Token × PrincipalData) ℕ)
    → total (of_token t) (insert (s, p) n m)
        + (if (pair_eq {A = QualifiedContractIdentifier} {B = String}).beq s t
            then value_or 0 (lookup (s, p) m)
            else 0)
      ≡ total (of_token t) m
        + (if (pair_eq {A = QualifiedContractIdentifier} {B = String}).beq s t then n else 0)
ft_total-insert t s p n m =
    ground (arith, total-insert (of_token t) (s, p) n m, of_token-measure t s p (lookup (s, p) m))

-- one balance of the token itself
ft_total-own :
    (t : Token) (p : PrincipalData) (n : ℕ) (m : Map (Token × PrincipalData) ℕ)
    → total (of_token t) (insert (t, p) n m) + value_or 0 (lookup (t, p) m)
      ≡ total (of_token t) m + n
ft_total-own t p n m = ground (arith, ft_total-insert t t p n m, beq_refl t)

-- two balances of the token
ft_total-move :
    (t : Token) (from to : PrincipalData) (x y : ℕ) (m : Map (Token × PrincipalData) ℕ)
    → from ≢ to
    → total (of_token t) (insert (t, to) y (insert (t, from) x m))
        + value_or 0 (lookup (t, from) m)
        + value_or 0 (lookup (t, to) m)
      ≡ total (of_token t) m + x + y
ft_total-move t from to x y m ne = ground (
  arith,
  ft_total-own t from x m,
  ft_total-own t to y (insert (t, from) x m),
  lookup-insert (t, from) (t, to) x m,
  principal_beq_iff from to,
)

sender_is :
    (env : Environment) (from : PrincipalData) → is_sender env from ≡ true → env.sender ≡ some from
sender_is env from h = go env.sender refl
  where
    go : (o : Option PrincipalData) → env.sender ≡ o → env.sender ≡ some from
    go none e = ground (arith, e, h)
    go (some p) e = ground (arith, e, h, principal_beq_iff p from)

module _ {Contract : Type 0} where
  -- What a transfer of tokens writes: the two balances and nothing else of the tables.
  pub move_amount_writes :
      (env : Environment) (name : String) (amount : ℕ) (from to : PrincipalData) (from_bal : ℕ)
      (info : FungibleTokenMetadata) (g g' : GlobalContext SavedTables Contract) (v : Value)
      → move_amount env name amount from to from_bal info g ≡ (ok v, g')
      → let d = g.database.current in
        let t = token env name in
        (g'.database.current.ft_balances
          ≡ insert
              (t, to)
              (value_or 0 (lookup (t, to) d.ft_balances) + amount)
              (insert (t, from) (from_bal - amount) d.ft_balances))
        × (g'.database.current.circulating_supply ≡ d.circulating_supply)
  unfolding move_amount on_tables get_ft_balance set_ft_balance add_memory log_token_transfer
      on_asset_map register_event
  move_amount_writes env name amount from to from_bal info g g' v h = ground arith

  pub mint_amount_writes :
      (env : Environment) (name : String) (amount : ℕ) (to : PrincipalData)
      (g g' : GlobalContext SavedTables Contract) (v : Value) (supply : ℕ)
      → mint_amount env name amount to g ≡ (ok v, g')
      → lookup (token env name) g.database.current.circulating_supply ≡ some supply
      → let d = g.database.current in
        let t = token env name in
        (g'.database.current.ft_balances
          ≡ insert (t, to) (value_or 0 (lookup (t, to) d.ft_balances) + amount) d.ft_balances)
        × (g'.database.current.circulating_supply ≡ insert t (supply + amount) d.circulating_supply)
        × (v ≡ okay_true)
  unfolding mint_amount on_tables get_ft_balance set_ft_balance checked_increase_token_supply
      add_memory register_event
  mint_amount_writes env name amount to g g' v supply h k = ground arith

  pub burn_amount_writes :
      (env : Environment) (name : String) (amount : ℕ) (burner : PrincipalData) (bal : ℕ)
      (g g' : GlobalContext SavedTables Contract) (v : Value) (supply : ℕ)
      → burn_amount env name amount burner bal g ≡ (ok v, g')
      → lookup (token env name) g.database.current.circulating_supply ≡ some supply
      → let d = g.database.current in
        let t = token env name in
        (g'.database.current.ft_balances ≡ insert (t, burner) (bal - amount) d.ft_balances)
        × (g'.database.current.circulating_supply ≡ insert t (supply - amount) d.circulating_supply)
        × (amount ≤ supply)
  unfolding burn_amount on_tables set_ft_balance checked_decrease_token_supply add_memory
      log_token_transfer on_asset_map register_event
  burn_amount_writes env name amount burner bal g g' v supply h k = ground arith

  minted-within :
      (env : Environment) (name : String) (amount limit supply : ℕ) (to : PrincipalData)
      (g g' : GlobalContext SavedTables Contract) (v : Value)
      → lookup name env.meta_ft ≡ some (record { total_supply = some limit })
      → lookup (token env name) g.database.current.circulating_supply ≡ some supply
      → mint_amount env name amount to g ≡ (ok v, g')
      → supply + amount ≤ limit
  unfolding mint_amount on_tables checked_increase_token_supply
  minted-within env name amount limit supply to g g' v l k h = ground arith

  -- A successful mint adds the amount to the sum of the token's balances and to its supply.
  pub mint_amount-IsBacked :
      (env : Environment) (name : String) (amount : ℕ) (to : PrincipalData)
      (g g' : GlobalContext SavedTables Contract) (v : Value)
      → IsBacked (token env name) g.database.current
      → mint_amount env name amount to g ≡ (ok v, g')
      → IsBacked (token env name) g'.database.current
        × (ft_total (token env name) g'.database.current
            ≡ ft_total (token env name) g.database.current + amount)
  mint_amount-IsBacked env name amount to g g' v b h =
      let t = token env name in
      let d = g.database.current in
      let (e, f, _) = mint_amount_writes env name amount to g g' v (ft_total t d) h b.supply in
      let own =
        ft_total-own t to (value_or 0 (lookup (t, to) d.ft_balances) + amount) d.ft_balances in
      let new_total : ft_total t g'.database.current ≡ ft_total t d + amount =
        ground (arith, e, own) in
      (
        record {
          supply = ground (
            arith,
            f,
            new_total,
            lookup-insert t t (ft_total t d + amount) d.circulating_supply,
            beq_refl t,
          );
        },
        new_total,
      )

  -- A successful burn of at most what the burner holds takes the amount from the sum of the token's
  -- balances and from its supply.
  pub burn_amount-IsBacked :
      (env : Environment) (name : String) (amount : ℕ) (burner : PrincipalData)
      (g g' : GlobalContext SavedTables Contract) (v : Value)
      → IsBacked (token env name) g.database.current
      → amount ≤ value_or 0 (lookup (token env name, burner) g.database.current.ft_balances)
      → burn_amount env name amount burner
          (value_or 0 (lookup (token env name, burner) g.database.current.ft_balances))
          g
        ≡ (ok v, g')
      → IsBacked (token env name) g'.database.current
        × (ft_total (token env name) g'.database.current + amount
            ≡ ft_total (token env name) g.database.current)
  burn_amount-IsBacked env name amount burner g g' v b le h =
      let t = token env name in
      let d = g.database.current in
      let bal = value_or 0 (lookup (t, burner) d.ft_balances) in
      let (e, f, _) =
        burn_amount_writes env name amount burner bal g g' v (ft_total t d) h b.supply in
      let own = ft_total-own t burner (bal - amount) d.ft_balances in
      let new_total : ft_total t g'.database.current + amount ≡ ft_total t d =
        ground (arith, e, own) in
      (
        record {
          supply = ground (
            arith,
            f,
            new_total,
            lookup-insert t t (ft_total t d - amount) d.circulating_supply,
            beq_refl t,
          );
        },
        new_total,
      )

  -- A transfer between two principals of at most what the sender holds keeps the sum of the token's
  -- balances and its supply.
  pub move_amount-IsBacked :
      (env : Environment) (name : String) (amount : ℕ) (from to : PrincipalData)
      (info : FungibleTokenMetadata) (g g' : GlobalContext SavedTables Contract) (v : Value)
      → from ≢ to
      → amount ≤ value_or 0 (lookup (token env name, from) g.database.current.ft_balances)
      → IsBacked (token env name) g.database.current
      → move_amount env name amount from to
          (value_or 0 (lookup (token env name, from) g.database.current.ft_balances))
          info
          g
        ≡ (ok v, g')
      → IsBacked (token env name) g'.database.current
        × (ft_total (token env name) g'.database.current
            ≡ ft_total (token env name) g.database.current)
  move_amount-IsBacked env name amount from to info g g' v ne le b h =
      let t = token env name in
      let d = g.database.current in
      let bal = value_or 0 (lookup (t, from) d.ft_balances) in
      let (e, f) = move_amount_writes env name amount from to bal info g g' v h in
      let moved =
        ft_total-move t from to (bal - amount) (value_or 0 (lookup (t, to) d.ft_balances) + amount)
          d.ft_balances ne in
      let same : ft_total t g'.database.current ≡ ft_total t d = ground (arith, e, moved) in
      (record { supply = ground (arith, f, same) }, same)

  -- Whatever a transfer of tokens answers, if the recorded supply of the token was the sum of its
  -- balances, it still is, and the sum has not changed.
  pub transfer_token-IsBacked :
      (env : Environment) (name : String) (amount : ℕ) (from to : PrincipalData)
      (g g' : GlobalContext SavedTables Contract) (v : Value)
      → IsBacked (token env name) g.database.current
      → transfer_token env name (uint amount) (principal from) (principal to) g ≡ (ok v, g')
      → IsBacked (token env name) g'.database.current
        × (ft_total (token env name) g'.database.current
            ≡ ft_total (token env name) g.database.current)
  unfolding transfer_token on_tables get_ft_balance
  transfer_token-IsBacked env name amount from to g g' v b h = go (lookup name env.meta_ft) refl
    where
      go :
          (o : Option FungibleTokenMetadata)
          → lookup name env.meta_ft ≡ o
          → IsBacked (token env name) g'.database.current
            × (ft_total (token env name) g'.database.current
                ≡ ft_total (token env name) g.database.current)
      go none e = ground (arith, e)
      go (some info) e = ground (
        arith,
        e,
        move_amount-IsBacked env name amount from to info g g' v,
        principal_beq_iff from to,
      )

  -- If the recorded supply of a token is the sum of its balances, it is so after a mint that
  -- answers, and the sum has grown by exactly the amount.
  pub mint_token-IsBacked :
      (env : Environment) (name : String) (amount : ℕ) (to : PrincipalData)
      (g g' : GlobalContext SavedTables Contract) (v : Value)
      → IsBacked (token env name) g.database.current
      → mint_token env name (uint amount) (principal to) g ≡ (ok v, g')
      → IsBacked (token env name) g'.database.current
        × (ft_total (token env name) g'.database.current
            ≡ ft_total (token env name) g.database.current + amount)
  unfolding mint_token
  mint_token-IsBacked env name amount to g g' v b h =
      ground (arith, mint_amount-IsBacked env name amount to g g' v)

  -- If the recorded supply of a token is the sum of its balances, it is so after a burn that
  -- answers: the sum has shrunk by exactly the amount, or the answer is the error code 1 and the
  -- context is unchanged.
  pub burn_token-IsBacked :
      (env : Environment) (name : String) (amount : ℕ) (burner : PrincipalData)
      (g g' : GlobalContext SavedTables Contract) (v : Value)
      → IsBacked (token env name) g.database.current
      → burn_token env name (uint amount) (principal burner) g ≡ (ok v, g')
      → IsBacked (token env name) g'.database.current
        × ((ft_total (token env name) g'.database.current + amount
              ≡ ft_total (token env name) g.database.current)
            ⊎ ((v ≡ err_uint 1) × (g' ≡ g)))
  unfolding burn_token on_tables get_ft_balance load_ft
  burn_token-IsBacked env name amount burner g g' v b h =
      ground (arith, burn_amount-IsBacked env name amount burner g g' v)

  -- A mint that succeeds for a token with a limit and a recorded supply records a supply that is
  -- larger by exactly the amount and is at most the limit.
  pub mint_amount_limit :
      (env : Environment) (name : String) (amount limit supply : ℕ) (to : PrincipalData)
      (g g' : GlobalContext SavedTables Contract) (v : Value)
      → lookup name env.meta_ft ≡ some (record { total_supply = some limit })
      → lookup (token env name) g.database.current.circulating_supply ≡ some supply
      → mint_amount env name amount to g ≡ (ok v, g')
      → (supply' : ℕ) × (lookup (token env name) g'.database.current.circulating_supply
          ≡ some supply')
        × (supply' ≡ supply + amount)
        × (supply' ≤ limit)
  mint_amount_limit env name amount limit supply to g g' v l k h =
      let t = token env name in
      let (_, written, _) = mint_amount_writes env name amount to g g' v supply h k in
      (
        supply + amount,
        ground (
          arith,
          written,
          lookup-insert t t (supply + amount) g.database.current.circulating_supply,
          beq_refl t,
        ),
        refl,
        minted-within env name amount limit supply to g g' v l k h,
      )

  -- Whatever stx_transfer_consolidated answers, the sum of all STX balances has not changed, and
  -- it answers (ok true) only when the payer is the sender of the environment.
  pub stx_transfer_total :
      (env : Environment) (from to : PrincipalData) (amount : ℕ)
      (g g' : GlobalContext SavedTables Contract) (v : Value)
      → stx_transfer_consolidated env from to amount g ≡ (ok v, g')
      → (stx_total g'.database.current ≡ stx_total g.database.current)
        × ((v ≡ okay_true) → env.sender ≡ some from)
  unfolding stx_transfer_consolidated on_tables add_memory log_stx_transfer on_asset_map
      register_event
  stx_transfer_total env from to amount g g' v h =
      let d = g.database.current in
      let moved = transfer_to (get_stx_balance_snapshot from d) to amount d in
      let kept : (from ≢ to) → (moved.0 ≡ ok tt) → stx_total moved.1 ≡ stx_total d =
        λ ne e. transfer_to_total d from to amount moved.1 ne (ap (λ r. (r, moved.1)) e) in
      ground (arith, kept, principal_beq_iff from to, sender_is env from)
