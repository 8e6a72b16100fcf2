-- ===== src/Escrow/Config/Parts.antt =====
-- What the parts of the entry points of contracts/ahjoor-escrow/src/lib.rs do to the configuration:
-- the payments, the renewal and the loops.
use ahjoorxmr_contract.Base.{
  ℕ, ◌≡◌, refl, ◌∙◌, inl, inr, List, [], ◌∷◌, ◌++◌, Bool, true, false, Option, some, arith, ℤ, pos,
  unwrap_or, Bool-cases, Option-cases, ◌==◌, put, ◌*ℤ◌, ◌/ℤ◌, ◌+ℤ◌,
}
use ahjoorxmr_contract.Host.{Env, ok, panic, trap, Outcome, Outcome-cases, when, TokenCall}
use ahjoorxmr_contract.Escrow.Types.{Error, Escrow, EscrowStatus, EscrowBatchConfig}
use ahjoorxmr_contract.Escrow.Events.{World}
use ahjoorxmr_contract.Escrow.Create.{
  resolve_sellers, create_escrow_core, create_each, next_escrow_id,
}
use ahjoorxmr_contract.Escrow.Release
use ahjoorxmr_contract.Escrow.Release.{
  pay, pay_shares, pay_sellers, pay_out, renew, try_auto_renew, update_last_buyer_action,
}
use ahjoorxmr_contract.Escrow.Arbiters.{flag_escrows}
use ahjoorxmr_contract.Escrow.Config.{config, Keeps}

resolve_sellers-Keeps :
    (seller : ℕ) (sellers : List (ℕ × ℕ)) (env : Env) (w : World)
    → Keeps w (resolve_sellers seller sellers env w)
unfolding resolve_sellers
resolve_sellers-Keeps seller [] env w = refl
resolve_sellers-Keeps seller (s ∷ rest) env w = ground arith

pub create_escrow_core-Keeps :
    (buyer seller arbiter : ℕ) (amount : ℤ) (token deadline : ℕ) (metadata_hash : Option ℕ)
    (sellers : List (ℕ × ℕ)) (auto_renew : Bool) (renewal_count inactivity : ℕ) (env : Env)
    (w : World)
    → Keeps w (
        create_escrow_core buyer seller arbiter amount token deadline metadata_hash sellers
          auto_renew renewal_count inactivity env w)
unfolding create_escrow_core next_escrow_id
create_escrow_core-Keeps buyer seller arbiter amount token deadline metadata_hash sellers auto_renew
      renewal_count inactivity env w =
    ground (arith, resolve_sellers-Keeps seller sellers env w)

pay_shares-Keeps :
    (token : ℕ) (x : ℤ) (sellers : List (ℕ × ℕ)) (d : ℤ) (env : Env) (w : World)
    → Keeps w (pay_shares token x sellers d env w)
unfolding pay_shares pay
pay_shares-Keeps token x [] d env w = refl
pay_shares-Keeps token x ((a, bps) ∷ rest) d env w =
    let share = (x *ℤ pos bps) /ℤ 10000 in
    let paid : World = record w {
      calls = TokenCall.transfer token env.current_contract_address a share ∷ w.calls;
    } in
    ground (
      arith,
      pay_shares-Keeps token x rest (d +ℤ share) env w,
      pay_shares-Keeps token x rest (d +ℤ share) env paid,
    )

pay_sellers-Keeps :
    (token : ℕ) (x : ℤ) (sellers : List (ℕ × ℕ)) (env : Env) (w : World)
    → Keeps w (pay_sellers token x sellers env w)
unfolding pay_sellers
pay_sellers-Keeps token x [] env w = refl
pay_sellers-Keeps token x ((a, bps) ∷ rest) env w =
    ground (arith, pay_shares-Keeps token x rest (pos 0) env w)

pay_out-Keeps : (id : ℕ) (e : Escrow) (env : Env) (w : World) → Keeps w (pay_out id e env w)
unfolding pay_out
pay_out-Keeps id e env w = ground (arith, pay_sellers-Keeps e.token e.amount e.sellers env w)

renew-Keeps : (id : ℕ) (e : Escrow) (env : Env) (w : World) → Keeps w (renew id e env w)
unfolding renew next_escrow_id
renew-Keeps id e env w = ground arith

pub touch-Keeps :
    (b : Bool) (e : Escrow) (env : Env) (w : World)
    → (w1 : World) × (when b (update_last_buyer_action e) env w ≡ ok (tt, w1))
      × (config w1 ≡ config w)
unfolding update_last_buyer_action
touch-Keeps false e env w = (w, refl, refl)
touch-Keeps true e env w = elim (Bool-cases (e.buyer_inactivity_release_seconds == 0)) [
  | inl off ↦ (w, ground arith, refl)
  | inr on ↦ (
    record w {
      store = record w.store {
        last_buyer_action = put w.store.last_buyer_action e.id (some env.timestamp);
      };
    },
    ground arith,
    refl,
  )
]

try_auto_renew-Keeps :
    (id : ℕ) (e : Escrow) (env : Env) (w : World) → Keeps w (try_auto_renew id e env w)
unfolding try_auto_renew
try_auto_renew-Keeps id e env w = ground (arith, renew-Keeps id e env w)

pub release_escrow-Keeps :
    (caller id : ℕ) (env : Env) (w : World) → Keeps w (Release.release_escrow caller id env w)
unfolding Release.release_escrow
release_escrow-Keeps caller id env w = elim (Option-cases (w.store.escrow id)) [
  | inl missing ↦ ground arith
  | inr (e, f) ↦
      let (w1, t, p) = touch-Keeps (caller == e.buyer) e env w in
      elim (Outcome-cases (pay_out id e env w1)) [
        | inl ((_, w2), k) ↦
            let over = record e { status = EscrowStatus.released } in
            let m : World = record w2 {
              store = record w2.store { escrow = put w2.store.escrow id (some over) };
            } in
            ground (arith, pay_out-Keeps id e env w1, try_auto_renew-Keeps id e env m)
        | inr (inl (x, k)) ↦ ground arith
        | inr (inr (x, k)) ↦ ground arith
      ]
]

-- The rest of a block after its first step.
continue-Keeps :
    {A B : Type 0} (w : World) (o : Outcome Error (A × World))
    (k : A → World → Outcome Error (B × World))
    → Keeps w o
    → ((a : A) (w1 : World) → Keeps w1 (k a w1))
    → Keeps w (elim o [ ok (a, w1) ↦ k a w1 | panic x ↦ panic x | trap t ↦ trap t ])
continue-Keeps {B = B} w (ok (a, w1)) k p q = kept (k a w1) p (q a w1)
  where
    kept : (o : Outcome Error (B × World)) → config w1 ≡ config w → Keeps w1 o → Keeps w o
    kept (ok (b, w2)) p q = q ∙ p
    kept (panic x) p q = tt
    kept (trap t) p q = tt
continue-Keeps w (panic x) k p q = tt
continue-Keeps w (trap t) k p q = tt

pub create_each-Keeps :
    (buyer : ℕ) (cfgs : List EscrowBatchConfig) (first_id : Option ℕ) (last_id : ℕ) (ids : List ℕ)
    (env : Env) (w : World)
    → Keeps w (create_each buyer cfgs first_id last_id ids env w)
unfolding create_each
create_each-Keeps buyer [] first_id last_id ids env w = refl
create_each-Keeps buyer (cfg ∷ rest) first_id last_id ids env w =
    continue-Keeps w _
      (λ id. create_each buyer rest (some (unwrap_or first_id id)) id (ids ++ (id ∷ [])) env)
      (create_escrow_core-Keeps buyer cfg.seller cfg.arbiter cfg.amount cfg.token cfg.deadline
        cfg.metadata_hash cfg.sellers cfg.auto_renew cfg.renewal_count 0 env w)
      (λ id. create_each-Keeps buyer rest _ _ _ env)

pub flag_escrows-Keeps :
    (arbiter : ℕ) (ids : List ℕ) (env : Env) (w : World) → Keeps w (flag_escrows arbiter ids env w)
unfolding flag_escrows
flag_escrows-Keeps arbiter [] env w = refl
flag_escrows-Keeps arbiter (id ∷ ids) env w =
    let flagged : World = record w {
      store = record w.store {
        arbiter_needs_replacement = put w.store.arbiter_needs_replacement id (some true);
      };
    } in
    ground (arith, flag_escrows-Keeps arbiter ids env w, flag_escrows-Keeps arbiter ids env flagged)
