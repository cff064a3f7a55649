-- ===== src/Database/Datastore/Runs.antt =====
-- Runs of the operations of src/clarity/database/datastore.rs that change the chain or the tip that is
-- read.
use clarity_repl.Database.Datastore.Growth.{advance_chain_tip-Follows}
use clarity_repl.Database.Datastore.Writes.{put_all-Follows}
use clarity_repl.Prelude.{
  ℕ, ◌+◌, ◌<◌, ◌≤◌, ◌≡◌, refl, ap, sym, subst, ◌∙◌, String, Option, List, [], ◌∷◌, arith,
}
use clarity_repl.Prelude.Result.{ok}
use clarity_repl.Prelude.Method.{Method, pure, ◌>>=◌, ◌>>◌, >>=-eq_ok}
use clarity_repl.Prelude.Machine.{u32_mod}
use clarity_repl.Prelude.Keys.{string_eq, pair_eq, list_eq, nat_eq}
use clarity_repl.Errors.{Error}
use clarity_repl.Database.{StacksBlockId}
use clarity_repl.Database.Datastore.{Datastore, get, set_block_hash, advance_chain_tip, put_all}
use clarity_repl.Database.Datastore.Chain.{HasDistinctIds}
use clarity_repl.Database.Datastore.History.{
  Chain, write, write_all, grow, read_at, Follows, get-Follows, set_block_hash-Follows,
}

pub data Action : Type 0 where
  add_blocks_action : ℕ → Action
  put_action : List (String × String) → Action
  read_block : ℕ → Action

abbrev pub effect : Action → Chain → Chain
effect (add_blocks_action n) c = grow n c
effect (put_action items) c = write_all items c
effect (read_block h) c = read_at h c

abbrev pub effects : List Action → Chain → Chain
effects [] c = c
effects (a ∷ actions) c = effects actions (effect a c)

-- The heights fit in u32, the blocks that are read exist, and writes are made while the open block is
-- the one that is read.
abbrev pub IsAllowed : Action → Chain → Type 0
IsAllowed (add_blocks_action n) c = c.height + n < u32_mod
IsAllowed (put_action items) c = c.reading ≡ c.height
IsAllowed (read_block h) c = h ≤ c.height

abbrev pub AreAllowed : List Action → Chain → Type 0
AreAllowed [] c = Unit {0}
AreAllowed (a ∷ actions) c = IsAllowed a c × AreAllowed actions (effect a c)

at-write_all :
    (items : List (String × String)) (c : Chain) (h : ℕ) (key : String)
    → h < c.height
    → (write_all items c).at h key ≡ c.at h key
at-write_all [] c h key lt = refl
at-write_all ((k, v) ∷ items) c h key lt = ground (arith, at-write_all items (write k v c) h key lt)

height-write_all :
    (items : List (String × String)) (c : Chain) → (write_all items c).height ≡ c.height
height-write_all [] c = refl
height-write_all ((k, v) ∷ items) c = height-write_all items (write k v c)

height-effect : (a : Action) (c : Chain) → c.height ≤ (effect a c).height
height-effect (add_blocks_action n) c = omega arith
height-effect (put_action items) c = omega (arith, height-write_all items c)
height-effect (read_block h) c = omega arith

at-effect :
    (a : Action) (c : Chain) (h : ℕ) (key : String)
    → h < c.height
    → (effect a c).at h key ≡ c.at h key
at-effect (add_blocks_action n) c h key lt = ground arith
at-effect (put_action items) c h key lt = at-write_all items c h key lt
at-effect (read_block _) c h key lt = refl

at-effects :
    (actions : List Action) (c : Chain) (h : ℕ) (key : String)
    → h < c.height
    → (h < (effects actions c).height) × ((effects actions c).at h key ≡ c.at h key)
at-effects [] c h key lt = (lt, refl)
at-effects (a ∷ actions) c h key lt =
    ground (arith, height-effect a c, at-effect a c h key lt, at-effects actions (effect a c) h key)

module _ (height_to_id : ℕ → StacksBlockId) where
  abbrev pub perform : Action → Method Datastore Error (Unit {0})
  perform (add_blocks_action n) = do height ← advance_chain_tip height_to_id n; pure tt
  perform (put_action items) = put_all items
  perform (read_block h) = do prior_tip ← set_block_hash (height_to_id h); pure tt

  abbrev pub perform_all : List Action → Method Datastore Error (Unit {0})
  perform_all [] = pure tt
  perform_all (a ∷ actions) = do perform a; perform_all actions

  -- a read of an earlier block, as `at-block` makes it, from any state
  abbrev pub read_key : ℕ → String → Method Datastore Error (Option String)
  read_key h key = do prior_tip ← set_block_hash (height_to_id h); get key

module _ (height_to_id : ℕ → StacksBlockId) (distinct : HasDistinctIds height_to_id) where
  perform-Follows :
      (a : Action) {d : Datastore} {c : Chain}
      → Follows height_to_id d c
      → IsAllowed a c
      → ((perform height_to_id a d).0 ≡ ok tt)
        × Follows height_to_id (perform height_to_id a d).1 (effect a c)
  unfolding set_block_hash
  perform-Follows (add_blocks_action n) {d} {c} f allowed =
      let (answer, next) = advance_chain_tip-Follows height_to_id distinct n f allowed in
      let eq = sym (>>=-eq_ok (advance_chain_tip height_to_id n) (λ height. pure tt) d answer) in
      subst (λ p. (p.0 ≡ ok tt) × Follows height_to_id p.1 (grow n c)) eq (refl, next)
  perform-Follows (put_action items) f allowed =
      put_all-Follows height_to_id distinct items f allowed
  perform-Follows (read_block h) f allowed =
      (refl, (set_block_hash-Follows height_to_id h f allowed).1)

  -- If the identifiers of any two heights in u32 differ, any run of added blocks, batches of
  -- writes and changes of the block that is read, with heights in u32, blocks that exist and
  -- writes made while the open block is read, succeeds without a panic on a datastore that
  -- follows a history, and leaves one that follows the history after the same run.
  pub perform_all-Follows :
      (actions : List Action) {d : Datastore} {c : Chain}
      → Follows height_to_id d c
      → AreAllowed actions c
      → ((perform_all height_to_id actions d).0 ≡ ok tt)
        × Follows height_to_id (perform_all height_to_id actions d).1 (effects actions c)
  perform_all-Follows [] f allowed = (refl, f)
  perform_all-Follows (a ∷ actions) {d} {c} f (allowed, rest) =
      let (answer, next) = perform-Follows a f allowed in
      let eq =
        sym (>>=-eq_ok (perform height_to_id a) (λ _. perform_all height_to_id actions) d answer) in
      subst (λ p. (p.0 ≡ ok tt) × Follows height_to_id p.1 (effects actions (effect a c))) eq
        (perform_all-Follows actions next rest)

  read_key-Follows :
      (h : ℕ) (key : String) {d : Datastore} {c : Chain}
      → Follows height_to_id d c
      → h ≤ c.height
      → (read_key height_to_id h key d).0 ≡ ok (c.at h key)
  unfolding set_block_hash
  read_key-Follows h key f le =
      ap (λ p. p.0) (get-Follows height_to_id key (set_block_hash-Follows height_to_id h f le).1)

  -- If the identifiers of any two heights in u32 differ, then on a datastore that follows a
  -- history, no run of added blocks, batches of writes and changes of the block that is read,
  -- each allowed when it is made, changes what is read of any key at a height below the block
  -- that was open before the run.
  pub earlier_blocks_unchanged :
      (actions : List Action) (h : ℕ) (key : String) {d : Datastore} {c : Chain}
      → Follows height_to_id d c
      → AreAllowed actions c
      → h < c.height
      → (read_key height_to_id h key (perform_all height_to_id actions d).1).0
        ≡ (read_key height_to_id h key d).0
  earlier_blocks_unchanged actions h key f allowed lt =
      let after = perform_all-Follows actions f allowed in
      let (lt_after, same) = at-effects actions _ h key lt in
      read_key-Follows h key after.1 (omega arith)
      ∙ ap ok same
      ∙ sym (read_key-Follows h key f (omega arith))
