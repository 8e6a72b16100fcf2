-- ===== src/Refund/Decide.antt =====
-- Decisions on requested refunds, and what ends them without a payment by the merchant:
-- contracts/ahjoor-refund/src/lib.rs (`approve_refund`, `reject_refund`, `cancel_refund_request`,
-- `auto_cancel_expired_request`, `auto_reject_stale_refund`, `extend_refund_deadline`,
-- `appeal_refund`).
use ahjoorxmr_contract.Base.{
  ℕ, ◌+◌, Bool, not, ◌&&◌, some, String, ltb, ◌==◌, ◌/=◌, unwrap_or, put, contains, [], checked_u64,
  checked_sub,
}
use ahjoorxmr_contract.Host.{
  ⊤, ◌>>=◌, ◌>>◌, panic_if, expect, checked, when, gets, modify, timestamp, require_auth,
}
use ahjoorxmr_contract.Refund.Types.{Error, RefundStatus, is_requested_status, is_rejected_status}
use ahjoorxmr_contract.Refund.Events.{
  Action, emit_refund_approved_by_delegate, emit_refund_approved, emit_refund_rejected,
  emit_refund_request_cancelled, emit_refund_auto_rejected, emit_refund_appealed,
}
use ahjoorxmr_contract.Refund.Admin.{require_not_paused, require_admin}
use ahjoorxmr_contract.Refund.Records.{
  get_refund, set_refund, remove_from_pending_queue, update_stats_on_approve,
  update_stats_on_reject, pay,
}

unfoldable pub is_merchant_delegate : ℕ → ℕ → Action Bool
is_merchant_delegate merchant caller =
    gets (λ s. contains caller (unwrap_or (s.merchant_delegates merchant) []))

unfoldable pub approve_refund : ℕ → ℕ → Action ⊤
unfolding require_not_paused get_refund set_refund is_merchant_delegate remove_from_pending_queue
    emit_refund_approved_by_delegate emit_refund_approved
approve_refund admin refund_id = do
  require_not_paused
  require_auth admin
  stored_admin ← expect (← gets (λ s. s.admin)) Error.not_initialized
  r ← get_refund refund_id
  delegated ← is_merchant_delegate r.merchant admin
  let is_admin = admin == stored_admin
  let is_delegate = not is_admin && delegated
  panic_if (not is_admin && not is_delegate) Error.not_admin_or_delegate
  panic_if (not (is_requested_status r.status)) Error.not_requested
  now ← timestamp
  set_refund refund_id (record r { status = RefundStatus.approved; approved_at = some now })
  remove_from_pending_queue refund_id
  update_stats_on_approve r.merchant
  when is_delegate (emit_refund_approved_by_delegate refund_id admin)
  emit_refund_approved refund_id admin now

unfoldable pub reject_refund : ℕ → ℕ → String → Action ⊤
unfolding require_not_paused get_refund set_refund is_merchant_delegate remove_from_pending_queue
    emit_refund_rejected
reject_refund admin refund_id rejection_reason = do
  require_not_paused
  require_auth admin
  stored_admin ← expect (← gets (λ s. s.admin)) Error.not_initialized
  r ← get_refund refund_id
  delegated ← is_merchant_delegate r.merchant admin
  let is_admin = admin == stored_admin
  let is_delegate = not is_admin && delegated
  panic_if (not is_admin && not is_delegate) Error.not_admin_or_delegate
  panic_if (not (is_requested_status r.status)) Error.not_requested
  now ← timestamp
  set_refund refund_id (record r { status = RefundStatus.rejected; rejected_at = some now })
  remove_from_pending_queue refund_id
  update_stats_on_reject r.merchant
  emit_refund_rejected refund_id admin rejection_reason now

unfoldable pub cancel_refund_request : ℕ → ℕ → Action ⊤
unfolding require_not_paused get_refund set_refund pay remove_from_pending_queue
    emit_refund_request_cancelled
cancel_refund_request customer refund_id = do
  require_not_paused
  require_auth customer
  r ← get_refund refund_id
  panic_if (r.customer /= customer) Error.not_requesting_customer
  panic_if (not (is_requested_status r.status)) Error.cannot_cancel
  pay r.token r.customer r.amount
  set_refund refund_id (record r { status = RefundStatus.cancelled })
  remove_from_pending_queue refund_id
  emit_refund_request_cancelled refund_id customer

unfoldable pub auto_cancel_expired_request : ℕ → Action ⊤
unfolding require_not_paused get_refund set_refund pay remove_from_pending_queue
    emit_refund_request_cancelled
auto_cancel_expired_request refund_id = do
  require_not_paused
  r ← get_refund refund_id
  panic_if (not (is_requested_status r.status)) Error.cannot_cancel
  cancel_window ← expect (← gets (λ s. s.customer_cancel_window)) Error.cancel_window_not_configured
  now ← timestamp
  window_end ← checked (checked_u64 (r.requested_at + cancel_window))
  panic_if (ltb now window_end) Error.cancel_window_not_elapsed
  pay r.token r.customer r.amount
  set_refund refund_id (record r { status = RefundStatus.cancelled })
  remove_from_pending_queue refund_id
  emit_refund_request_cancelled refund_id r.customer

unfoldable pub auto_reject_stale_refund : ℕ → Action ⊤
unfolding require_not_paused get_refund set_refund pay remove_from_pending_queue
    emit_refund_auto_rejected
auto_reject_stale_refund refund_id = do
  require_not_paused
  r ← get_refund refund_id
  panic_if (not (is_requested_status r.status)) Error.not_requested
  auto_reject_window ←
      expect (← gets (λ s. s.auto_reject_window)) Error.auto_reject_window_not_configured
  extension ← gets (λ s. unwrap_or (s.refund_deadline_extension refund_id) 0)
  window_end ← checked (checked_u64 (r.requested_at + auto_reject_window))
  deadline ← checked (checked_u64 (window_end + extension))
  now ← timestamp
  panic_if (ltb now deadline) Error.auto_reject_window_not_elapsed
  elapsed_seconds ← checked (checked_sub now r.requested_at)
  pay r.token r.customer r.amount
  set_refund refund_id (record r { status = RefundStatus.rejected; rejected_at = some now })
  remove_from_pending_queue refund_id
  update_stats_on_reject r.merchant
  emit_refund_auto_rejected refund_id elapsed_seconds

unfoldable pub extend_refund_deadline : ℕ → ℕ → ℕ → Action ⊤
unfolding require_admin get_refund
extend_refund_deadline admin refund_id extra_seconds = do
  require_admin admin
  r ← get_refund refund_id
  panic_if (not (is_requested_status r.status)) Error.not_requested
  current_extension ← gets (λ s. unwrap_or (s.refund_deadline_extension refund_id) 0)
  extension ← checked (checked_u64 (current_extension + extra_seconds))
  modify (λ s. record s {
    refund_deadline_extension = put s.refund_deadline_extension refund_id (some extension);
  })

unfoldable pub appeal_refund : ℕ → ℕ → Action ⊤
unfolding require_not_paused get_refund set_refund emit_refund_appealed
appeal_refund customer refund_id = do
  require_not_paused
  require_auth customer
  r ← get_refund refund_id
  panic_if (not (is_rejected_status r.status)) Error.not_rejected
  panic_if (r.customer /= customer) Error.not_original_customer
  appeal_window ← expect (← gets (λ s. s.appeal_window)) Error.appeal_window_not_configured
  rejected_at ← expect r.rejected_at Error.rejection_timestamp_missing
  now ← timestamp
  window_end ← checked (checked_u64 (rejected_at + appeal_window))
  panic_if (ltb window_end now) Error.appeal_window_expired
  set_refund refund_id (record r { status = RefundStatus.under_appeal })
  emit_refund_appealed refund_id customer
