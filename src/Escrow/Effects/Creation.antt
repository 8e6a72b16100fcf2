-- ===== src/Escrow/Effects/Creation.antt =====
-- What the creation of escrows does to the books.
use ahjoorxmr_contract.Base.{
  put, ltb, ℕ, ◌+◌, ◌≡◌, refl, ◌⊎◌, inl, inr, Bool, true, Option, none, some, List, [], ◌∷◌,
  unwrap_or, ◌++◌, ℤ, arith, Option-cases,
}
use ahjoorxmr_contract.Escrow.Admin.{require_not_paused}
use ahjoorxmr_contract.Host.{Env, require_auth, ◌>>◌, TokenCall, Outcome, ok, panic, trap}
use ahjoorxmr_contract.Escrow.Types.{Error, Escrow, EscrowBatchConfig}
use ahjoorxmr_contract.Escrow.Events.{Action, World}
use ahjoorxmr_contract.Escrow.Create.{
  add_bps, resolve_sellers, next_escrow_id, new_escrow, create_escrow_core, create_escrow,
  create_each, create_escrows_batch, create_escrow_w_timeout,
}
use ahjoorxmr_contract.Escrow.Ledger.{
  Books, books, bps_total, Opens, open_new, Moves, stay, one, both, amend,
}

-- A result that leaves the state as it was and meets `P`, or none.
abbrev Yields : {A : Type 0} → (A → Type 0) → World → Outcome Error (A × World) → Type 0
Yields P w (ok (a, w')) = (w' ≡ w) × P a
Yields P w (panic e) = Unit
Yields P w (trap t) = Unit

-- The loop overflows, or gives the sum.
pub add_bps-cases :
    (acc : ℕ) (sellers : List (ℕ × ℕ))
    → (add_bps acc sellers ≡ none) ⊎ (add_bps acc sellers ≡ some (acc + bps_total sellers))
unfolding add_bps
add_bps-cases acc [] = inr (ground arith)
add_bps-cases acc ((a, bps) ∷ rest) = ground (arith, add_bps-cases (acc + bps) rest)

resolve_sellers-Yields :
    (seller : ℕ) (sellers : List (ℕ × ℕ)) (env : Env) (w : World)
    → Yields (λ r. bps_total r ≡ 10000) w (resolve_sellers seller sellers env w)
unfolding resolve_sellers
resolve_sellers-Yields seller [] env w = (refl, ground arith)
resolve_sellers-Yields seller (s ∷ rest) env w = ground (arith, add_bps-cases 0 (s ∷ rest))

pub create_escrow_core-Opens :
    (buyer seller arbiter : ℕ) (amount : ℤ) (token deadline : ℕ) (metadata_hash : Option ℕ)
    (sellers : List (ℕ × ℕ)) (auto_renew : Bool) (renewal_count inactivity : ℕ) (env : Env)
    (w w' : World) (id : ℕ)
    → create_escrow_core buyer seller arbiter amount token deadline metadata_hash sellers auto_renew
        renewal_count inactivity env w
      ≡ ok (id, w')
    → (e : Escrow) × (c : TokenCall) × (e.buyer ≡ buyer)
      × (id ≡ (books w).counter)
      × Opens env (books w) (books w') e c
unfolding create_escrow_core next_escrow_id
create_escrow_core-Opens buyer seller arbiter amount token deadline metadata_hash sellers auto_renew
      renewal_count inactivity env w w' id h =
    go (resolve_sellers seller sellers env w) refl (resolve_sellers-Yields seller sellers env w)
  where
    go :
        (o : Outcome Error (List (ℕ × ℕ) × World))
        → resolve_sellers seller sellers env w ≡ o
        → Yields (λ r. bps_total r ≡ 10000) w o
        → (e : Escrow) × (c : TokenCall) × (e.buyer ≡ buyer)
          × (id ≡ (books w).counter)
          × Opens env (books w) (books w') e c
    go (ok ([], w1)) eq (same, allocated) = absurd (ground arith)
    go (ok ((p, bps) ∷ rest, w1)) eq (same, allocated) = (
      new_escrow (books w).counter buyer p arbiter amount token env.timestamp deadline metadata_hash
          ((p, bps) ∷ rest) auto_renew renewal_count inactivity,
      TokenCall.transfer token buyer env.current_contract_address amount,
      refl,
      ground arith,
      ground arith,
    )
    go (panic x) eq _ = absurd (ground arith)
    go (trap x) eq _ = absurd (ground arith)

pub create_escrow_core-Moves :
    (buyer seller arbiter : ℕ) (amount : ℤ) (token deadline : ℕ) (metadata_hash : Option ℕ)
    (sellers : List (ℕ × ℕ)) (auto_renew : Bool) (renewal_count inactivity : ℕ) (env : Env)
    (w w' : World) (id : ℕ)
    → env.authorized buyer ≡ true
    → create_escrow_core buyer seller arbiter amount token deadline metadata_hash sellers auto_renew
        renewal_count inactivity env w
      ≡ ok (id, w')
    → Moves env (books w) (books w')
create_escrow_core-Moves buyer seller arbiter amount token deadline metadata_hash sellers auto_renew
      renewal_count inactivity env w w' id auth h =
    let (e, c, same, _, o) =
      create_escrow_core-Opens buyer seller arbiter amount token deadline metadata_hash sellers
        auto_renew renewal_count inactivity env w w' id h in
    one (open_new e c (rw same auth) o)

-- A call that starts with the two usual guards went past them.
past_guards :
    {A : Type 0} (buyer : ℕ) (m : Action A) (env : Env) (w : World) {r : A × World}
    → (require_not_paused >> (require_auth buyer >> m)) env w ≡ ok r
    → (env.authorized buyer ≡ true) × (m env w ≡ ok r)
unfolding require_not_paused
past_guards buyer m env w h = (ground arith, ground arith)

pub create_escrow-Moves :
    (buyer seller arbiter : ℕ) (amount : ℤ) (token deadline : ℕ) (metadata_hash : Option ℕ)
    (sellers : List (ℕ × ℕ)) (auto_renew : Bool) (renewal_count inactivity : ℕ) (env : Env)
    (w w' : World) (id : ℕ)
    → create_escrow buyer seller arbiter amount token deadline metadata_hash sellers auto_renew
        renewal_count inactivity env w
      ≡ ok (id, w')
    → Moves env (books w) (books w')
unfolding create_escrow
create_escrow-Moves buyer seller arbiter amount token deadline metadata_hash sellers auto_renew
      renewal_count inactivity env w w' id h =
    create_escrow_core-Moves buyer seller arbiter amount token deadline metadata_hash sellers
      auto_renew renewal_count inactivity env w w' id (ground arith) (ground arith)

create_each-Moves :
    (buyer : ℕ) (cfgs : List EscrowBatchConfig) (first_id : Option ℕ) (last_id : ℕ) (ids : List ℕ)
    (env : Env) (w w' : World) (r : Option ℕ × ℕ × List ℕ)
    → env.authorized buyer ≡ true
    → create_each buyer cfgs first_id last_id ids env w ≡ ok (r, w')
    → Moves env (books w) (books w')
unfolding create_each
create_each-Moves buyer [] first_id last_id ids env w w' r auth h =
    stay (ground arith) (ground arith) (ground arith)
create_each-Moves buyer (cfg ∷ rest) first_id last_id ids env w w' r auth h =
    go
      (create_escrow_core buyer cfg.seller cfg.arbiter cfg.amount cfg.token cfg.deadline
        cfg.metadata_hash cfg.sellers cfg.auto_renew cfg.renewal_count 0 env w)
      refl (create_each-Moves buyer rest)
  where
    go :
        (o : Outcome Error (ℕ × World))
        → create_escrow_core buyer cfg.seller cfg.arbiter cfg.amount cfg.token cfg.deadline
            cfg.metadata_hash cfg.sellers cfg.auto_renew cfg.renewal_count 0 env w
          ≡ o
        → ((f : Option ℕ) (l : ℕ) (is : List ℕ) (env : Env) (w1 w2 : World)
              (r : Option ℕ × ℕ × List ℕ)
            → env.authorized buyer ≡ true
            → create_each buyer rest f l is env w1 ≡ ok (r, w2)
            → Moves env (books w1) (books w2))
        → Moves env (books w) (books w')
    go (ok (id, w1)) e ih =
        both
          (create_escrow_core-Moves buyer cfg.seller cfg.arbiter cfg.amount cfg.token cfg.deadline
            cfg.metadata_hash cfg.sellers cfg.auto_renew cfg.renewal_count 0 env w w1 id auth e)
          (ih (some (unwrap_or first_id id)) id (ids ++ (id ∷ [])) env w1 w' r auth (ground arith))
    go (panic x) e ih = absurd (ground arith)
    go (trap x) e ih = absurd (ground arith)

-- The bookkeeping around the creations changes nothing of the books.
Moves-after :
    {env : Env} {b : Books} (m b' : Books)
    → Moves env b m
    → b'.counter ≡ m.counter
    → b'.escrow ≡ m.escrow
    → b'.calls ≡ m.calls
    → Moves env b b'
Moves-after m b' ms p q r = both ms (stay p q r)

pub create_escrows_batch-Moves :
    (buyer : ℕ) (cfgs : List EscrowBatchConfig) (env : Env) (w w' : World) (ids : List ℕ)
    → create_escrows_batch buyer cfgs env w ≡ ok (ids, w')
    → Moves env (books w) (books w')
unfolding create_escrows_batch
create_escrows_batch-Moves buyer cfgs env w w' ids h =
    go (create_each buyer cfgs none 0 [] env w) refl
  where
    go :
        (o : Outcome Error ((Option ℕ × ℕ × List ℕ) × World))
        → create_each buyer cfgs none 0 [] env w ≡ o
        → Moves env (books w) (books w')
    go (ok (r, w1)) e =
        Moves-after (books w1) (books w')
          (create_each-Moves buyer cfgs none 0 [] env w w1 r (ground arith) e) (ground arith)
          (ground arith) (ground arith)
    go (panic x) e = absurd (ground arith)
    go (trap x) e = absurd (ground arith)

pub create_escrow_w_timeout-Moves :
    (buyer seller arbiter : ℕ) (amount : ℤ) (token deadline : ℕ) (metadata_hash : Option ℕ)
    (sellers : List (ℕ × ℕ)) (renewal_count timeout : ℕ) (env : Env) (w w' : World) (id : ℕ)
    → create_escrow_w_timeout buyer seller arbiter amount token deadline metadata_hash sellers
        renewal_count timeout env w
      ≡ ok (id, w')
    → Moves env (books w) (books w')
unfolding create_escrow_w_timeout
create_escrow_w_timeout-Moves buyer seller arbiter amount token deadline metadata_hash sellers
      renewal_count timeout env w w' id h =
    go
      (create_escrow buyer seller arbiter amount token deadline metadata_hash sellers
        (ltb 0 renewal_count) renewal_count 0 env w)
      refl
  where
    amended :
        (w1 : World) (e : Escrow)
        → w1.store.escrow id ≡ some e
        → books w' ≡ record (books w1) {
          escrow =
              put w1.store.escrow id (some (record e { dispute_timeout_seconds = some timeout }));
        }
        → Moves env (books w1) (books w')
    amended w1 e f b =
        one (amend id e (record e { dispute_timeout_seconds = some timeout }) (ground arith))

    go :
        (o : Outcome Error (ℕ × World))
        → create_escrow buyer seller arbiter amount token deadline metadata_hash sellers
            (ltb 0 renewal_count)
            renewal_count
            0
            env
            w
          ≡ o
        → Moves env (books w) (books w')
    go (ok (i, w1)) e = elim (Option-cases (w1.store.escrow i)) [
      | inl missing ↦ absurd (ground arith)
      | inr (x, f) ↦
          both
            (create_escrow-Moves buyer seller arbiter amount token deadline metadata_hash sellers
              (ltb 0 renewal_count) renewal_count 0 env w w1 i e)
            (amended w1 x (ground arith) (ground arith))
    ]
    go (panic x) e = absurd (ground arith)
    go (trap x) e = absurd (ground arith)
