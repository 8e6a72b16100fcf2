-- ===== src/Refund/Refinement.antt =====
-- The entry points of contracts/ahjoor-refund/src/lib.rs against the moves of the ledger.
use ahjoorxmr_contract.Base.{
  ℕ, Option-cases, List, [], ◌∷◌, ◌≤◌, ◌≡◌, refl, inl, inr, Bool, true, false, is_some, unwrap_or,
  arith,
}
use ahjoorxmr_contract.Host.{Env, ok, Outcome-cases, SelfIsPassive}
use ahjoorxmr_contract.Refund.Types.{Payments}
use ahjoorxmr_contract.Refund.Events.{World, Action}
use ahjoorxmr_contract.Refund.Admin
use ahjoorxmr_contract.Refund.Request
use ahjoorxmr_contract.Refund.Decide
use ahjoorxmr_contract.Refund.Process
use ahjoorxmr_contract.Refund.Entry.{Call, invoke, void}
use ahjoorxmr_contract.Refund.Ledger.{books, Moves, stay}
use ahjoorxmr_contract.Refund.Ledger.Invariant.{Inv}
use ahjoorxmr_contract.Refund.Effects.Deciding.{
  approve_refund-Moves, reject_refund-Moves, cancel_refund_request-Moves,
  auto_cancel_expired_request-Moves, auto_reject_stale_refund-Moves, appeal_refund-Moves,
}
use ahjoorxmr_contract.Refund.Effects.Opening.{register_escrow_refund-Moves, merchant_refund-Moves}
use ahjoorxmr_contract.Refund.Effects.Requesting.{request_refund-Moves}
use ahjoorxmr_contract.Refund.Effects.Paying.{auto_approve_refund-Moves}
use ahjoorxmr_contract.Refund.Effects.Bulk.{Reads, process_refund-Moves, bulk_process_refunds-Moves}
use ahjoorxmr_contract.Refund.Effects.Appealing.{resolve_appeal-Moves}

pub check_tiers-Reads :
    (first : Bool) (prev_max : ℕ) (tiers : List (ℕ × ℕ)) (env : Env) (w : World)
    → Reads w (Admin.check_tiers first prev_max tiers env w)
unfolding Admin.check_tiers
check_tiers-Reads first prev_max [] env w = refl
check_tiers-Reads first prev_max ((m, bps) ∷ tiers) env w =
    ground (arith, check_tiers-Reads false m tiers env w)

abbrev pub is_appeal : Call → Bool
is_appeal (Call.appeal_refund _ _) = true
is_appeal _ = false

void-ok :
    {A : Type 0} (m : Action A) (env : Env) (w w' : World)
    → void m env w ≡ ok (tt, w')
    → (a : A) × (m env w ≡ ok (a, w'))
void-ok m env w w' h = elim (Outcome-cases (m env w)) [
  | inl ((a, w1), e) ↦ (a, ground arith)
  | inr (inl (x, e)) ↦ absurd (ground arith)
  | inr (inr (x, e)) ↦ absurd (ground arith)
]

-- In a contract that has been initialized, on books that satisfy their invariant, with a fee of at
-- most 200 basis points, a call that succeeds and is not made by the contract itself makes only moves
-- of the ledger: steps of a refund's life that pay out at most what was pending; new refunds, which
-- their customer authorises and pays in to the contract in full, or their merchant authorises and
-- pays to the customer in full, or which are stored as processed for an escrow without a token call;
-- and the two ends of an appeal. Only `appeal_refund` starts an appeal.
pub refund_call-Moves :
    (payments : Payments) (c : Call) (env : Env) (w w' : World)
    → SelfIsPassive env
    → is_some w.store.admin ≡ true
    → Inv (books w)
    → unwrap_or w.store.refund_fee_bps 0 ≤ 200
    → invoke payments c env w ≡ ok (tt, w')
    → Moves env (is_appeal c) (books w) (books w')
unfolding invoke Admin.initialize Admin.set_refund_tiers Admin.validate_refund_tiers
    Admin.update_refund_fee Admin.add_to_auto_approve Admin.remove_from_auto_approve
    Admin.waive_cooldown Admin.add_delegate Admin.remove_delegate Admin.upgrade Admin.migrate
    Admin.get_version Admin.pause_contract Admin.resume_contract Decide.extend_refund_deadline
refund_call-Moves payments (Call.request_refund customer pid x reason code) env w w' passive init v
      fee h =
    let (id, e) = void-ok (Request.request_refund payments customer pid x reason code) env w w' h in
    request_refund-Moves payments customer pid x reason code env w w' id passive e
refund_call-Moves payments (Call.merchant_refund merchant pid x code stored rejection) env w w'
      passive init v fee h =
    let (id, e) =
      void-ok (Process.merchant_refund payments merchant pid x code stored rejection) env w w' h in
    merchant_refund-Moves payments merchant pid x code stored rejection env w w' id passive e
refund_call-Moves payments (Call.register_escrow_refund escrow_id buyer x token) env w w' passive
      init v fee h =
    let (id, e) = void-ok (Process.register_escrow_refund escrow_id buyer x token) env w w' h in
    register_escrow_refund-Moves escrow_id buyer x token env w w' id e
refund_call-Moves payments (Call.approve_refund admin id) env w w' passive init v fee h =
    approve_refund-Moves admin id env w w' h
refund_call-Moves payments (Call.reject_refund admin id reason) env w w' passive init v fee h =
    reject_refund-Moves admin id reason env w w' v h
refund_call-Moves payments (Call.process_refund admin id) env w w' passive init v fee h =
    process_refund-Moves payments admin id env w w' v fee h
refund_call-Moves payments (Call.bulk_process_refunds admin ids) env w w' passive init v fee h =
    bulk_process_refunds-Moves payments admin ids env w w' v fee h
refund_call-Moves payments (Call.auto_approve_refund id) env w w' passive init v fee h =
    auto_approve_refund-Moves id env w w' v fee h
refund_call-Moves payments (Call.cancel_refund_request customer id) env w w' passive init v fee h =
    cancel_refund_request-Moves customer id env w w' v h
refund_call-Moves payments (Call.auto_cancel_expired_request id) env w w' passive init v fee h =
    auto_cancel_expired_request-Moves id env w w' v h
refund_call-Moves payments (Call.auto_reject_stale_refund id) env w w' passive init v fee h =
    auto_reject_stale_refund-Moves id env w w' v h
refund_call-Moves payments (Call.appeal_refund customer id) env w w' passive init v fee h =
    appeal_refund-Moves customer id env w w' h
refund_call-Moves payments (Call.resolve_appeal admin id approve) env w w' passive init v fee h =
    resolve_appeal-Moves admin id approve env w w' v fee h
refund_call-Moves payments (Call.initialize admin pc dw ec fee_bps fr ar aw tiers cd cc_window) env
      w w' passive init v fee h =
    elim (Option-cases w.store.admin) [
      | inl fresh ↦ absurd (ground arith)
      | inr (a, e) ↦ absurd (ground arith)
    ]
refund_call-Moves payments (Call.set_refund_tiers admin tiers) env w w' passive init v fee h =
    let same = check_tiers-Reads true 0 tiers env w in
    stay (ground (arith, same)) (ground (arith, same)) (ground (arith, same))
refund_call-Moves payments _ env w w' passive init v fee h =
    stay (ground arith) (ground arith) (ground arith)
