-- ===== src/Escrow/Config/Calls.antt =====
-- What each entry point of contracts/ahjoor-escrow/src/lib.rs does to the configuration.
use ahjoorxmr_contract.Base.{
  ℕ, ◌≡◌, refl, inl, inr, List, [], Bool, true, false, Option, none, String, arith, ℤ, Option-cases,
  ◌==◌, ltb,
}
use ahjoorxmr_contract.Host.{Env, ok, panic, trap, Outcome, ⊤}
use ahjoorxmr_contract.Escrow.Types.{Error}
use ahjoorxmr_contract.Escrow.Events.{World}
use ahjoorxmr_contract.Escrow.Admin
use ahjoorxmr_contract.Escrow.Create
use ahjoorxmr_contract.Escrow.Create.{
  resolve_sellers, create_escrow_core, create_each, next_escrow_id,
}
use ahjoorxmr_contract.Escrow.Release
use ahjoorxmr_contract.Escrow.Release.{
  pay, pay_shares, pay_sellers, pay_out, renew, try_auto_renew, update_last_buyer_action,
}
use ahjoorxmr_contract.Escrow.Disputes
use ahjoorxmr_contract.Escrow.Deadlines
use ahjoorxmr_contract.Escrow.Parties
use ahjoorxmr_contract.Escrow.Templates
use ahjoorxmr_contract.Escrow.Arbiters
use ahjoorxmr_contract.Escrow.Arbiters.{flag_escrows}
use ahjoorxmr_contract.Escrow.Entry.{Call, invoke}
use ahjoorxmr_contract.Escrow.Config.{config, Keeps}
use ahjoorxmr_contract.Escrow.Config.Parts.{
  create_escrow_core-Keeps, touch-Keeps, release_escrow-Keeps, create_each-Keeps,
}

create_escrow-Keeps :
    (buyer seller arbiter : ℕ) (amount : ℤ) (token deadline : ℕ) (metadata_hash : Option ℕ)
    (sellers : List (ℕ × ℕ)) (auto_renew : Bool) (renewal_count inactivity : ℕ) (env : Env)
    (w : World)
    → Keeps w (
        Create.create_escrow buyer seller arbiter amount token deadline metadata_hash sellers
          auto_renew renewal_count inactivity env w)
unfolding Create.create_escrow
create_escrow-Keeps buyer seller arbiter amount token deadline metadata_hash sellers auto_renew
      renewal_count inactivity env w =
    ground (
      arith,
      create_escrow_core-Keeps buyer seller arbiter amount token deadline metadata_hash sellers
          auto_renew renewal_count inactivity env w,
    )

Keeps-of :
    (w : World) (o : Outcome Error (⊤ × World))
    → ((w' : World) → o ≡ ok (tt, w') → config w' ≡ config w)
    → Keeps w o
Keeps-of w (ok (_, w')) k = k w' refl
Keeps-of w (panic x) k = tt
Keeps-of w (trap t) k = tt

dispute_escrow-config :
    (caller id : ℕ) (reason : String) (x : ℤ) (env : Env) (w w' : World)
    → Disputes.dispute_escrow caller id reason x env w ≡ ok (tt, w')
    → config w' ≡ config w
unfolding Disputes.dispute_escrow
dispute_escrow-config caller id reason x env w w' h = elim (Option-cases (w.store.escrow id)) [
  | inl missing ↦ absurd (ground arith)
  | inr (e, f) ↦ let (w1, t, p) = touch-Keeps (caller == e.buyer) e env w in ground arith
]

-- The calls that are there to change the configuration.
abbrev pub changes_config : Call → Bool
changes_config (Call.initialize _) = true
changes_config (Call.update_default_dispute_timeout _ _) = true
changes_config (Call.update_protocol_fee _ _ _) = true
changes_config (Call.pause_contract _ _) = true
changes_config (Call.resume_contract _) = true
changes_config (Call.add_allowed_token _ _) = true
changes_config (Call.remove_allowed_token _ _) = true
changes_config (Call.add_arbiter _ _) = true
changes_config (Call.remove_arbiter _ _ _) = true
changes_config _ = false

-- A call that is not one of the nine administrative ones, if it succeeds, leaves the whole
-- configuration as it was: the admin, the pause and its reason, the fee and its recipient, the
-- default timeout, the allowed tokens and the pool of arbiters.
pub invoke-Keeps :
    (c : Call) (env : Env) (w : World) → changes_config c ≡ false → Keeps w (invoke c env w)
unfolding invoke Create.create_escrows_batch Create.create_escrow_w_timeout Parties.submit_evidence
    Parties.set_renewal_allowance Parties.cancel_auto_renew Parties.transfer_buyer_role
    Parties.update_metadata Release.partial_release Release.auto_release_expired
    Release.claim_inactivity_release Disputes.resolve_dispute Disputes.check_escalation
    Deadlines.propose_deadline_extension Deadlines.accept_deadline_extension Admin.upgrade
    Admin.migrate Admin.get_version Templates.create_escrow_template
    Templates.create_escrow_from_template Templates.update_escrow_template
    Templates.deactivate_escrow_template Arbiters.create_escrow_with_pool_arbiter next_escrow_id
invoke-Keeps
      (Call.create_escrow buyer seller arbiter amount token deadline metadata_hash sellers
        auto_renew renewal_count inactivity)
      env w h =
    ground (
      arith,
      create_escrow-Keeps buyer seller arbiter amount token deadline metadata_hash sellers
          auto_renew renewal_count inactivity env w,
    )
invoke-Keeps
      (Call.create_escrow_w_timeout buyer seller arbiter amount token deadline metadata_hash sellers
        renewal_count timeout)
      env w h =
    ground (
      arith,
      create_escrow-Keeps buyer seller arbiter amount token deadline metadata_hash sellers
          (ltb 0 renewal_count) renewal_count 0 env w,
    )
invoke-Keeps (Call.create_escrows_batch buyer cfgs) env w h =
    ground (arith, create_each-Keeps buyer cfgs none 0 [] env w)
invoke-Keeps (Call.release_escrow caller id) env w h = release_escrow-Keeps caller id env w
invoke-Keeps (Call.dispute_escrow caller id reason x) env w h =
    Keeps-of w _ (dispute_escrow-config caller id reason x env w)
invoke-Keeps _ env w h = ground arith
