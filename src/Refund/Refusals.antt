-- ===== src/Refund/Refusals.antt =====
-- When the entry points of contracts/ahjoor-refund/src/lib.rs refuse, and when they do not.
use ahjoorxmr_contract.Base.{
  ℕ, is_some, ◌≡◌, ◌≢◌, inl, inr, Bool, true, false, ◌==◌, List, [], ◌∷◌, contains, Bool-cases,
  some, put, unwrap_or, Option-cases, arith, ℤ,
}
use ahjoorxmr_contract.Host.{Env, ok, TokenCall, Outcome-cases}
use ahjoorxmr_contract.Refund.Types.{
  RefundStatus, Refund, Payments, is_requested_status, is_approved_status, is_rejected_status,
  is_under_appeal_status,
}
use ahjoorxmr_contract.Refund.Events.{World}
use ahjoorxmr_contract.Refund.Admin
use ahjoorxmr_contract.Refund.Request
use ahjoorxmr_contract.Refund.Decide
use ahjoorxmr_contract.Refund.Process
use ahjoorxmr_contract.Refund.Entry.{Call, invoke}
use ahjoorxmr_contract.Refund.Lifecycle.{is_final}
use ahjoorxmr_contract.Refund.Refinement.{check_tiers-Reads}

-- Whether a call names a refund; a bulk payment names all that it lists.
abbrev pub names : Call → ℕ → Bool
names (Call.approve_refund _ i) id = i == id
names (Call.reject_refund _ i _) id = i == id
names (Call.process_refund _ i) id = i == id
names (Call.bulk_process_refunds _ ids) id = contains id ids
names (Call.auto_approve_refund i) id = i == id
names (Call.cancel_refund_request _ i) id = i == id
names (Call.auto_cancel_expired_request i) id = i == id
names (Call.auto_reject_stale_refund i) id = i == id
names (Call.extend_refund_deadline _ i _) id = i == id
names (Call.appeal_refund _ i) id = i == id
names (Call.resolve_appeal _ i _) id = i == id
names _ id = false

statuses :
    (s : RefundStatus)
    → is_final s ≡ true
    → (is_requested_status s ≡ false)
      × (is_approved_status s ≡ false)
      × (is_rejected_status s ≡ false)
      × (is_under_appeal_status s ≡ false)
unfolding is_requested_status is_approved_status is_rejected_status is_under_appeal_status
statuses s h = ground arith

-- The first loop of a bulk payment does not get past a refund that is not approved.
check_approved_refused :
    (ids : List ℕ) (id : ℕ) (r : Refund) (env : Env) (w w' : World)
    → contains id ids ≡ true
    → w.store.refund id ≡ some r
    → is_approved_status r.status ≡ false
    → Process.check_approved ids env w ≢ ok (tt, w')
unfolding Process.check_approved contains
check_approved_refused [] id r env w w' listed f b h = absurd (ground arith)
check_approved_refused (i ∷ ids) id r env w w' listed f b h = elim (Bool-cases (i == id)) [
  | inl here ↦ ground arith
  | inr further ↦ check_approved_refused ids id r env w w' (ground arith) f b (ground arith)
]

refused :
    (payments : Payments) (c : Call) (id : ℕ) (r : Refund) (env : Env) (w w' : World)
    → names c id ≡ true
    → w.store.refund id ≡ some r
    → (is_requested_status r.status ≡ false)
      × (is_approved_status r.status ≡ false)
      × (is_rejected_status r.status ≡ false)
      × (is_under_appeal_status r.status ≡ false)
    → invoke payments c env w ≢ ok (tt, w')
unfolding invoke Decide.approve_refund Decide.reject_refund Process.process_refund
    Process.process_refund_internal Process.bulk_process_refunds Process.auto_approve_refund
    Decide.cancel_refund_request Decide.auto_cancel_expired_request Decide.auto_reject_stale_refund
    Decide.extend_refund_deadline Decide.appeal_refund Process.resolve_appeal
refused payments (Call.approve_refund x i) id r env w w' t f (a, b, d, e) h = ground arith
refused payments (Call.reject_refund x i y) id r env w w' t f (a, b, d, e) h = ground arith
refused payments (Call.process_refund x i) id r env w w' t f (a, b, d, e) h = ground arith
refused payments (Call.bulk_process_refunds x ids) id r env w w' t f (a, b, d, e) h =
    elim (Outcome-cases (Process.check_approved ids env w)) [
      | inl ((_, w1), k) ↦ check_approved_refused ids id r env w w1 t f b k
      | inr (inl (x, k)) ↦ ground arith
      | inr (inr (x, k)) ↦ ground arith
    ]
refused payments (Call.auto_approve_refund i) id r env w w' t f (a, b, d, e) h = ground arith
refused payments (Call.cancel_refund_request x i) id r env w w' t f (a, b, d, e) h = ground arith
refused payments (Call.auto_cancel_expired_request i) id r env w w' t f (a, b, d, e) h =
    ground arith
refused payments (Call.auto_reject_stale_refund i) id r env w w' t f (a, b, d, e) h = ground arith
refused payments (Call.extend_refund_deadline x i y) id r env w w' t f (a, b, d, e) h = ground arith
refused payments (Call.appeal_refund x i) id r env w w' t f (a, b, d, e) h = ground arith
refused payments (Call.resolve_appeal x i y) id r env w w' t f (a, b, d, e) h = ground arith
refused payments _ id r env w w' t f (a, b, d, e) h = ground arith

-- No call that names a refund which is processed or cancelled succeeds; a bulk payment that lists one
-- among others does not succeed either.
pub invoke-final_refused :
    (payments : Payments) (c : Call) (id : ℕ) (r : Refund) (env : Env) (w w' : World)
    → names c id ≡ true
    → w.store.refund id ≡ some r
    → is_final r.status ≡ true
    → invoke payments c env w ≢ ok (tt, w')
invoke-final_refused payments c id r env w w' t f final h =
    refused payments c id r env w w' t f (statuses r.status final) h

-- While the contract is paused and has an admin, a call that succeeds makes no token call and leaves
-- every refund as it was.
pub paused-Still :
    (payments : Payments) (c : Call) (env : Env) (w w' : World)
    → w.store.paused ≡ some true
    → is_some w.store.admin ≡ true
    → invoke payments c env w ≡ ok (tt, w')
    → (w'.calls ≡ w.calls) × (w'.store.refund ≡ w.store.refund)
unfolding invoke Admin.initialize Admin.set_refund_tiers Admin.validate_refund_tiers
    Admin.update_refund_fee Admin.add_to_auto_approve Admin.remove_from_auto_approve
    Admin.waive_cooldown Admin.add_delegate Admin.remove_delegate Admin.upgrade Admin.migrate
    Admin.get_version Admin.pause_contract Admin.resume_contract Request.request_refund
    Decide.approve_refund Decide.reject_refund Process.process_refund Process.merchant_refund
    Process.bulk_process_refunds Process.auto_approve_refund Decide.cancel_refund_request
    Decide.auto_cancel_expired_request Decide.auto_reject_stale_refund Decide.extend_refund_deadline
    Decide.appeal_refund Process.resolve_appeal Process.register_escrow_refund
paused-Still payments (Call.initialize admin pc dw ec fee_bps fr ar aw tiers cd cc_window) env w w'
      paused init h =
    elim (Option-cases w.store.admin) [
      | inl fresh ↦ absurd (ground arith)
      | inr (a, e) ↦ absurd (ground arith)
    ]
paused-Still payments (Call.set_refund_tiers admin tiers) env w w' paused init h =
    let same = check_tiers-Reads true 0 tiers env w in (ground (arith, same), ground (arith, same))
paused-Still payments _ env w w' paused init h = (ground arith, ground arith)

-- A customer whose refund is requested can always cancel it: where the contract is not paused, the
-- customer authorises the call and the token accepts the payment, `cancel_refund_request` succeeds,
-- pays the whole amount back and leaves the refund cancelled.
pub cancel_refund_request-succeeds :
    (id : ℕ) (r : Refund) (env : Env) (w : World)
    → unwrap_or w.store.paused false ≡ false
    → w.store.refund id ≡ some r
    → r.status ≡ RefundStatus.requested
    → env.authorized r.customer ≡ true
    → env.token_accepts w.calls
        (TokenCall.transfer r.token env.current_contract_address r.customer r.amount)
      ≡ true
    → (w' : World) × (Decide.cancel_refund_request r.customer id env w ≡ ok (tt, w'))
      × (w'.store.refund
          ≡ put w.store.refund id (some (record r { status = RefundStatus.cancelled })))
      × (w'.calls
          ≡ TokenCall.transfer r.token env.current_contract_address r.customer r.amount ∷ w.calls)
unfolding Decide.cancel_refund_request is_requested_status
cancel_refund_request-succeeds id r env w unpaused f requested auth accepts =
    elim (Outcome-cases (Decide.cancel_refund_request r.customer id env w)) [
      | inl ((_, w'), k) ↦ (w', k, ground arith, ground arith)
      | inr (inl (x, k)) ↦ absurd (ground arith)
      | inr (inr (x, k)) ↦ absurd (ground arith)
    ]

-- `register_escrow_refund` succeeds only where the configured escrow contract is the refund contract
-- itself, and then it succeeds in the same way at the same address and time whoever has authorised the
-- call.
pub register_escrow_refund_self :
    (escrow_id buyer : ℕ) (amount : ℤ) (token : ℕ) (env env' : Env) (w w' : World) (id : ℕ)
    → Process.register_escrow_refund escrow_id buyer amount token env w ≡ ok (id, w')
    → env'.current_contract_address ≡ env.current_contract_address
    → env'.timestamp ≡ env.timestamp
    → (w.store.escrow_contract_address ≡ some env.current_contract_address)
      × (Process.register_escrow_refund escrow_id buyer amount token env' w ≡ ok (id, w'))
unfolding Process.register_escrow_refund
register_escrow_refund_self escrow_id buyer amount token env env' w w' id h here now =
    elim (Option-cases w.store.escrow_contract_address) [
      | inl unset ↦ absurd (ground arith)
      | inr (a, e) ↦ (ground arith, ground arith)
    ]
