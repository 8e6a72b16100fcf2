-- ===== src/Escrow/Refinement.antt =====
-- The entry points of contracts/ahjoor-escrow/src/lib.rs against the moves of the ledger.
use ahjoorxmr_contract.Base.{
  without, ℕ, ◌≤◌, ◌≡◌, ◌≢◌, refl, inl, inr, List, [], ◌∷◌, true, some, arith, unwrap_or, put,
  Option-cases,
}
use ahjoorxmr_contract.Host.{Env, ok, panic, trap, Outcome, Outcome-cases, ⊤}
use ahjoorxmr_contract.Escrow.Types.{Error}
use ahjoorxmr_contract.Escrow.Events.{World, Action}
use ahjoorxmr_contract.Escrow.Admin
use ahjoorxmr_contract.Escrow.Create
use ahjoorxmr_contract.Escrow.Disputes
use ahjoorxmr_contract.Escrow.Templates
use ahjoorxmr_contract.Escrow.Arbiters
use ahjoorxmr_contract.Escrow.Arbiters.{flag_escrows}
use ahjoorxmr_contract.Escrow.Entry.{Call, invoke, void}
use ahjoorxmr_contract.Escrow.Ledger.{books, Moves, stay}
use ahjoorxmr_contract.Escrow.Ledger.Invariant.{Inv}
use ahjoorxmr_contract.Escrow.Effects.Creation.{
  create_escrow-Moves, create_escrows_batch-Moves, create_escrow_w_timeout-Moves,
}
use ahjoorxmr_contract.Escrow.Effects.Plain.{
  create_escrow_from_template-Moves, create_escrow_with_pool_arbiter-Moves,
}
use ahjoorxmr_contract.Escrow.Effects.Leaving.{
  partial_release-Moves, auto_release_expired-Moves, claim_inactivity_release-Moves,
}
use ahjoorxmr_contract.Escrow.Effects.Releasing.{release_escrow-Moves}
use ahjoorxmr_contract.Escrow.Effects.Disputing.{dispute_escrow-Moves, resolve_dispute-Moves}
use ahjoorxmr_contract.Escrow.Effects.Keeping.{
  accept_deadline_extension-Moves, cancel_auto_renew-Moves, transfer_buyer_role-Moves,
  update_metadata-Moves, submit_evidence-Moves, set_renewal_allowance-Moves,
  propose_deadline_extension-Moves,
}

-- The buyer's role is not handed to the contract itself.
abbrev pub StaysOutside : Env → Call → Type 0
StaysOutside env (Call.transfer_buyer_role _ _ new_buyer) = new_buyer ≢ env.current_contract_address
StaysOutside env _ = Unit

void-ok :
    {A : Type 0} (m : Action A) (env : Env) (w w' : World)
    → void m env w ≡ ok (tt, w')
    → (a : A) × (m env w ≡ ok (a, w'))
void-ok m env w w' h = elim (Outcome-cases (m env w)) [
  | inl ((a, w1), e) ↦ (a, ground arith)
  | inr (inl (x, e)) ↦ absurd (ground arith)
  | inr (inr (x, e)) ↦ absurd (ground arith)
]

-- A call that leaves the books as they are, if it succeeds.
abbrev SameBooks : World → Outcome Error (⊤ × World) → Type 0
SameBooks w (ok (_, w')) =
    (w'.store.escrow_counter ≡ w.store.escrow_counter)
    × (w'.store.escrow ≡ w.store.escrow)
    × (w'.calls ≡ w.calls)
SameBooks w (panic _) = Unit
SameBooks w (trap _) = Unit

flag_escrows-SameBooks :
    (arbiter : ℕ) (ids : List ℕ) (env : Env) (w : World)
    → SameBooks w (flag_escrows arbiter ids env w)
unfolding flag_escrows
flag_escrows-SameBooks arbiter [] env w = (refl, refl, refl)
flag_escrows-SameBooks arbiter (id ∷ ids) env w =
    let flagged : World = record w {
      store = record w.store {
        arbiter_needs_replacement = put w.store.arbiter_needs_replacement id (some true);
      };
    } in
    ground (
      arith,
      flag_escrows-SameBooks arbiter ids env w,
      flag_escrows-SameBooks arbiter ids env flagged,
    )

pub remove_arbiter-SameBooks :
    (admin arbiter : ℕ) (ids : List ℕ) (env : Env) (w : World)
    → SameBooks w (Arbiters.remove_arbiter admin arbiter ids env w)
unfolding Arbiters.remove_arbiter
remove_arbiter-SameBooks admin arbiter ids env w = elim (Option-cases w.store.arbiter_pool) [
  | inl empty ↦ ground arith
  | inr (pool, e) ↦
      let kept : World = record w {
        store = record w.store { arbiter_pool = some (without arbiter pool) };
      } in
      let reset : World = record w {
        store = record w.store {
          arbiter_pool = some (without arbiter pool);
          next_arbiter_index = some 0;
        };
      } in
      ground (
        arith,
        flag_escrows-SameBooks arbiter ids env kept,
        flag_escrows-SameBooks arbiter ids env reset,
      )
]

-- On books that satisfy their invariant, with a fee of at most 200 basis points, a call that
-- succeeds and does not hand a buyer's role to the contract makes only moves of the ledger: consents,
-- changes that move no money, settlements that a party has authorised and that pay out exactly what
-- is no longer held, and new escrows paid in full.
pub invoke-Moves :
    (c : Call) (env : Env) (w w' : World)
    → Inv env.current_contract_address (books w)
    → unwrap_or w.store.protocol_fee_bps 0 ≤ 200
    → StaysOutside env c
    → invoke c env w ≡ ok (tt, w')
    → Moves env (books w) (books w')
unfolding invoke Admin.initialize Admin.update_default_dispute_timeout Admin.update_protocol_fee
    Admin.pause_contract Admin.resume_contract Admin.add_allowed_token Admin.remove_allowed_token
    Admin.upgrade Admin.migrate Admin.get_version Disputes.check_escalation
    Templates.create_escrow_template Templates.update_escrow_template
    Templates.deactivate_escrow_template Arbiters.add_arbiter
invoke-Moves
      (Call.create_escrow buyer seller arbiter amount token deadline metadata_hash sellers
        auto_renew renewal_count inactivity)
      env w w' v fee outside h =
    let (id, e) =
      void-ok
        (Create.create_escrow buyer seller arbiter amount token deadline metadata_hash sellers
          auto_renew renewal_count inactivity)
        env w w' h in
    create_escrow-Moves buyer seller arbiter amount token deadline metadata_hash sellers auto_renew
      renewal_count inactivity env w w' id e
invoke-Moves (Call.create_escrows_batch buyer cfgs) env w w' v fee outside h =
    let (ids, e) = void-ok (Create.create_escrows_batch buyer cfgs) env w w' h in
    create_escrows_batch-Moves buyer cfgs env w w' ids e
invoke-Moves
      (Call.create_escrow_w_timeout buyer seller arbiter amount token deadline metadata_hash sellers
        renewal_count timeout)
      env w w' v fee outside h =
    let (id, e) =
      void-ok
        (Create.create_escrow_w_timeout buyer seller arbiter amount token deadline metadata_hash
          sellers renewal_count timeout)
        env w w' h in
    create_escrow_w_timeout-Moves buyer seller arbiter amount token deadline metadata_hash sellers
      renewal_count timeout env w w' id e
invoke-Moves (Call.create_escrow_from_template b s t a) env w w' v fee outside h =
    let (id, e) = void-ok (Templates.create_escrow_from_template b s t a) env w w' h in
    create_escrow_from_template-Moves b s t a env w w' id e
invoke-Moves (Call.create_escrow_with_pool_arbiter b s a t d) env w w' v fee outside h =
    let (id, e) = void-ok (Arbiters.create_escrow_with_pool_arbiter b s a t d) env w w' h in
    create_escrow_with_pool_arbiter-Moves b s a t d env w w' id e
invoke-Moves (Call.release_escrow caller id) env w w' v fee outside h =
    release_escrow-Moves caller id env w w' v h
invoke-Moves (Call.partial_release caller id x) env w w' v fee outside h =
    partial_release-Moves caller id x env w w' v h
invoke-Moves (Call.auto_release_expired id) env w w' v fee outside h =
    auto_release_expired-Moves id env w w' v h
invoke-Moves (Call.claim_inactivity_release seller id) env w w' v fee outside h =
    claim_inactivity_release-Moves seller id env w w' v h
invoke-Moves (Call.dispute_escrow caller id reason x) env w w' v fee outside h =
    dispute_escrow-Moves caller id reason x env w w' h
invoke-Moves (Call.resolve_dispute arbiter id to_seller) env w w' v fee outside h =
    resolve_dispute-Moves arbiter id to_seller env w w' v fee h
invoke-Moves (Call.submit_evidence party id hash uri) env w w' v fee outside h =
    submit_evidence-Moves party id hash uri env w w' h
invoke-Moves (Call.set_renewal_allowance buyer id n) env w w' v fee outside h =
    set_renewal_allowance-Moves buyer id n env w w' h
invoke-Moves (Call.cancel_auto_renew buyer id) env w w' v fee outside h =
    cancel_auto_renew-Moves buyer id env w w' h
invoke-Moves (Call.propose_deadline_extension caller id d) env w w' v fee outside h =
    propose_deadline_extension-Moves caller id d env w w' h
invoke-Moves (Call.accept_deadline_extension caller id) env w w' v fee outside h =
    accept_deadline_extension-Moves caller id env w w' h
invoke-Moves (Call.transfer_buyer_role current id new_buyer) env w w' v fee outside h =
    transfer_buyer_role-Moves current id new_buyer env w w' outside h
invoke-Moves (Call.update_metadata caller id hash) env w w' v fee outside h =
    update_metadata-Moves caller id hash env w w' h
invoke-Moves (Call.remove_arbiter admin arbiter ids) env w w' v fee outside h =
    let same = remove_arbiter-SameBooks admin arbiter ids env w in
    stay (ground (arith, same)) (ground (arith, same)) (ground (arith, same))
invoke-Moves _ env w w' v fee outside h = stay (ground arith) (ground arith) (ground arith)
