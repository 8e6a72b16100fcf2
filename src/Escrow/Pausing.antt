-- ===== src/Escrow/Pausing.antt =====
-- The guard `require_not_paused` of contracts/ahjoor-escrow/src/lib.rs at all entry points.
use ahjoorxmr_contract.Base.{◌≡◌, inl, inr, true, some, arith}
use ahjoorxmr_contract.Host.{Env, ok, Outcome-cases}
use ahjoorxmr_contract.Escrow.Events.{World}
use ahjoorxmr_contract.Escrow.Admin
use ahjoorxmr_contract.Escrow.Create
use ahjoorxmr_contract.Escrow.Release
use ahjoorxmr_contract.Escrow.Disputes
use ahjoorxmr_contract.Escrow.Deadlines
use ahjoorxmr_contract.Escrow.Parties
use ahjoorxmr_contract.Escrow.Templates
use ahjoorxmr_contract.Escrow.Arbiters
use ahjoorxmr_contract.Escrow.Entry.{Call, invoke, transact}
use ahjoorxmr_contract.Escrow.Refinement.{remove_arbiter-SameBooks}

invoke-paused :
    (c : Call) (env : Env) (w w' : World)
    → w.store.paused ≡ some true
    → invoke c env w ≡ ok (tt, w')
    → w'.calls ≡ w.calls
unfolding invoke Admin.initialize Admin.update_default_dispute_timeout Admin.update_protocol_fee
    Admin.pause_contract Admin.resume_contract Admin.add_allowed_token Admin.remove_allowed_token
    Admin.upgrade Admin.migrate Admin.get_version Create.create_escrow Create.create_escrows_batch
    Create.create_escrow_w_timeout Disputes.check_escalation Disputes.dispute_escrow
    Disputes.resolve_dispute Release.release_escrow Release.partial_release
    Release.auto_release_expired Release.claim_inactivity_release Parties.submit_evidence
    Parties.set_renewal_allowance Parties.cancel_auto_renew Parties.transfer_buyer_role
    Parties.update_metadata Deadlines.propose_deadline_extension Deadlines.accept_deadline_extension
    Templates.create_escrow_template Templates.create_escrow_from_template
    Templates.update_escrow_template Templates.deactivate_escrow_template Arbiters.add_arbiter
    Arbiters.create_escrow_with_pool_arbiter
invoke-paused (Call.remove_arbiter admin arbiter ids) env w w' p h =
    ground (arith, remove_arbiter-SameBooks admin arbiter ids env w)
invoke-paused _ env w w' p h = ground arith

-- While the contract is paused, no transaction makes a token call: no tokens come in and none go
-- out, whichever entry point is called and whether it succeeds or not.
pub paused-no_calls :
    (c : Call) (env : Env) (w : World)
    → w.store.paused ≡ some true
    → (transact env c w).calls ≡ w.calls
unfolding transact
paused-no_calls c env w p = elim (Outcome-cases (invoke c env w)) [
  | inl ((_, w'), h) ↦ rw (transact, h) (invoke-paused c env w w' p h)
  | inr (inl (x, h)) ↦ ground arith
  | inr (inr (x, h)) ↦ ground arith
]
