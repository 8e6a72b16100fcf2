-- ===== src/Refund/Process.antt =====
-- The payments of refunds: contracts/ahjoor-refund/src/lib.rs (`process_refund`,
-- `bulk_process_refunds`, `process_refund_internal`, `auto_approve_refund`, `resolve_appeal`,
-- `merchant_refund`, `register_escrow_refund`).
use ahjoorxmr_contract.Base.{
  ℕ, ◌+◌, Bool, not, List, [], ◌∷◌, Option, none, some, if◌then◌else◌, ltb, ◌==◌, ◌/=◌, unwrap_or,
  put, length, ℤ, pos, ◌+ℤ◌, ◌-ℤ◌, ◌/ℤ◌, ltb_ℤ, leb_ℤ, checked_u64, checked_i128,
  saturating_sub_i128,
}
use ahjoorxmr_contract.Host.{
  ⊤, ◌>>=◌, ◌>>◌, pure, panic_if, fail, expect, checked, when, gets, modify, timestamp,
  current_contract_address, require_auth, call_token, TokenCall,
}
use ahjoorxmr_contract.Refund.Types.{
  Error, Refund, RefundStatus, Payment, Payments, is_requested_status, is_approved_status,
  is_under_appeal_status,
}
use ahjoorxmr_contract.Refund.Events.{
  Action, emit_partial_refund_cap_applied, emit_refund_processed, emit_bulk_refund_processed,
  emit_refund_auto_approved, emit_appeal_resolved, emit_merchant_initiated_refund,
  emit_escrow_refund_registered,
}
use ahjoorxmr_contract.Refund.Admin.{require_not_paused, require_admin, require_initialized_admin}
use ahjoorxmr_contract.Refund.Records.{
  get_payment, get_refund, set_refund, next_refund_id, append_index, update_stats_on_request,
  update_stats_on_process, update_stats_on_reject, pay, pay_refund, recorded_fee, add_refunded,
}

-- The event when at most a tenth of a payment is left to refund, where the payment is found.
unfoldable pub note_cap : ℕ → ℤ → Option Payment → Action ⊤
unfolding emit_partial_refund_cap_applied
note_cap refund_id new_total none = pure tt
note_cap refund_id new_total (some payment) = do
  remaining_refundable ← checked (checked_i128 (payment.amount -ℤ new_total))
  when (leb_ℤ remaining_refundable (payment.amount /ℤ 10))
      (emit_partial_refund_cap_applied refund_id remaining_refundable)

unfoldable pub process_refund_internal : Payments → ℕ → Action ⊤
unfolding get_refund set_refund add_refunded emit_refund_processed
process_refund_internal payments refund_id = do
  r ← get_refund refund_id
  panic_if (not (is_approved_status r.status)) Error.not_approved
  (fee_amount, customer_amount) ← pay_refund refund_id r
  new_total ← add_refunded r.payment_id r.amount
  address ← expect (← gets (λ s. s.payment_contract_address)) Error.payment_contract_not_configured
  note_cap refund_id new_total (payments address r.payment_id)
  now ← timestamp
  set_refund refund_id (record r {
    status = RefundStatus.processed;
    processed_at = some now;
    fee_amount = recorded_fee fee_amount;
  })
  update_stats_on_process r.merchant r.amount
  emit_refund_processed refund_id r.customer customer_amount now

unfoldable pub process_refund : Payments → ℕ → ℕ → Action ⊤
unfolding require_not_paused require_initialized_admin
process_refund payments admin refund_id = do
  require_not_paused
  require_initialized_admin admin
  process_refund_internal payments refund_id

-- The first loop of `bulk_process_refunds`: all are approved.
unfoldable pub check_approved : List ℕ → Action ⊤
unfolding get_refund
check_approved [] = pure tt
check_approved (rid ∷ refund_ids) = do
  r ← get_refund rid
  panic_if (not (is_approved_status r.status)) Error.not_approved
  check_approved refund_ids

-- The second loop: all are processed, and their amounts added up.
unfoldable pub process_each : Payments → List ℕ → ℤ → Action ℤ
unfolding get_refund
process_each payments [] total_amount = pure total_amount
process_each payments (rid ∷ refund_ids) total_amount = do
  r ← get_refund rid
  total ← checked (checked_i128 (total_amount +ℤ r.amount))
  process_refund_internal payments rid
  process_each payments refund_ids total

unfoldable pub bulk_process_refunds : Payments → ℕ → List ℕ → Action ⊤
unfolding require_not_paused require_initialized_admin emit_bulk_refund_processed
bulk_process_refunds payments admin refund_ids = do
  require_not_paused
  require_initialized_admin admin
  panic_if (length refund_ids == 0) Error.batch_empty
  panic_if (ltb 20 (length refund_ids)) Error.batch_too_large
  check_approved refund_ids
  total_amount ← process_each payments refund_ids (pos 0)
  emit_bulk_refund_processed (length refund_ids) total_amount

unfoldable pub auto_approve_refund : ℕ → Action ⊤
unfolding require_not_paused get_refund set_refund emit_refund_auto_approved
auto_approve_refund refund_id = do
  require_not_paused
  r ← get_refund refund_id
  panic_if (not (is_requested_status r.status)) Error.already_acted_on
  dispute_window ← expect (← gets (λ s. s.dispute_window)) Error.dispute_window_not_configured
  now ← timestamp
  window_end ← checked (checked_u64 (r.requested_at + dispute_window))
  panic_if (ltb now window_end) Error.dispute_window_not_elapsed
  (fee_amount, _) ← pay_refund refund_id r
  set_refund refund_id (record r {
    status = RefundStatus.processed;
    processed_at = some now;
    auto_approved_source = some "dispute_window";
    fee_amount = recorded_fee fee_amount;
  })
  update_stats_on_process r.merchant r.amount
  emit_refund_auto_approved refund_id r.customer r.amount

-- The two ends of an appeal: the refund is paid, or its amount goes back to the customer.
unfoldable pub grant_appeal : ℕ → Refund → ℕ → Action Refund
unfolding add_refunded
grant_appeal refund_id r now = do
  (fee_amount, _) ← pay_refund refund_id r
  new_total ← add_refunded r.payment_id r.amount
  update_stats_on_process r.merchant r.amount
  pure (record r {
    status = RefundStatus.processed;
    processed_at = some now;
    fee_amount = recorded_fee fee_amount;
  })

unfoldable pub dismiss_appeal : Refund → ℕ → Action Refund
unfolding pay
dismiss_appeal r now = do
  pay r.token r.customer r.amount
  update_stats_on_reject r.merchant
  pure (record r { status = RefundStatus.rejected; rejected_at = some now })

unfoldable pub resolve_appeal : ℕ → ℕ → Bool → Action ⊤
unfolding require_not_paused require_admin get_refund set_refund emit_appeal_resolved
resolve_appeal admin refund_id approve = do
  require_not_paused
  require_admin admin
  r ← get_refund refund_id
  panic_if (not (is_under_appeal_status r.status)) Error.not_under_appeal
  now ← timestamp
  resolved ← if approve then grant_appeal refund_id r now else dismiss_appeal r now
  set_refund refund_id resolved
  emit_appeal_resolved refund_id approve

-- The record that `merchant_refund` stores. Its literal in the source leaves out two fields,
-- `reason_code` and `rejected_at`; here they are arguments, the last two.
abbrev pub merchant_record : ℕ → ℕ → ℕ → Payment → ℤ → ℕ → ℕ → Option ℕ → Refund
merchant_record id payment_id merchant payment amount now reason_code rejected_at = record {
  id = id;
  payment_id = payment_id;
  customer = payment.customer;
  merchant = merchant;
  amount = amount;
  token = payment.token;
  status = RefundStatus.processed;
  reason = "merchant_initiated";
  reason_code = reason_code;
  requested_at = now;
  approved_at = some now;
  processed_at = some now;
  rejected_at = rejected_at;
  auto_approved_source = some "merchant_direct";
  escrow_id = none;
  fee_amount = none;
}

-- The last two arguments are those of `merchant_record`.
unfoldable pub merchant_refund : Payments → ℕ → ℕ → ℤ → ℕ → ℕ → Option ℕ → Action ℕ
unfolding require_not_paused get_payment next_refund_id set_refund emit_merchant_initiated_refund
merchant_refund payments merchant payment_id amount reason_code stored_code stored_rejection = do
  require_not_paused
  require_auth merchant
  panic_if (leb_ℤ amount (pos 0)) Error.amount_not_positive
  payment ← get_payment payments payment_id
  panic_if (payment.merchant /= merchant) Error.not_payment_merchant
  panic_if (ltb_ℤ payment.amount amount) Error.exceeds_refundable_amount
  already_refunded ← gets (λ s. unwrap_or (s.refunded_amount payment_id) (pos 0))
  let remaining = saturating_sub_i128 payment.amount already_refunded
  panic_if (ltb_ℤ remaining amount) Error.merchant_balance_insufficient
  call_token (TokenCall.transfer payment.token merchant payment.customer amount)
  refund_id ← next_refund_id
  now ← timestamp
  set_refund refund_id (
      merchant_record refund_id payment_id merchant payment amount now stored_code stored_rejection)
  modify (λ s. record s {
    customer_refunds =
        put s.customer_refunds payment.customer
          (append_index (s.customer_refunds payment.customer) refund_id);
  })
  modify (λ s. record s {
    merchant_refunds =
        put s.merchant_refunds merchant (append_index (s.merchant_refunds merchant) refund_id);
  })
  modify (λ s. record s {
    payment_refunds =
        put s.payment_refunds payment_id (append_index (s.payment_refunds payment_id) refund_id);
  })
  new_total ← checked (checked_i128 (already_refunded +ℤ amount))
  modify (λ s. record s { refunded_amount = put s.refunded_amount payment_id (some new_total) })
  update_stats_on_request merchant
  update_stats_on_process merchant amount
  emit_merchant_initiated_refund refund_id payment_id merchant amount reason_code
  pure refund_id

check_escrow_contract : Option ℕ → Action ⊤
check_escrow_contract none = fail Error.escrow_contract_not_configured
check_escrow_contract (some escrow_address) = do
  self ← current_contract_address
  panic_if (self /= escrow_address) Error.not_escrow_contract

unfoldable pub register_escrow_refund : ℕ → ℕ → ℤ → ℕ → Action ℕ
unfolding require_not_paused check_escrow_contract next_refund_id set_refund
    emit_escrow_refund_registered
register_escrow_refund escrow_id buyer amount token = do
  require_not_paused
  configured ← gets (λ s. s.escrow_contract_address)
  check_escrow_contract configured
  panic_if (leb_ℤ amount (pos 0)) Error.amount_not_positive
  refund_id ← next_refund_id
  now ← timestamp
  set_refund refund_id (record {
    id = refund_id;
    payment_id = 0;
    customer = buyer;
    merchant = buyer;
    amount = amount;
    token = token;
    status = RefundStatus.processed;
    reason = "escrow_refund";
    reason_code = 4;
    requested_at = now;
    approved_at = some now;
    processed_at = some now;
    rejected_at = none;
    auto_approved_source = none;
    escrow_id = some escrow_id;
    fee_amount = none;
  })
  modify (λ s. record s {
    customer_refunds =
        put s.customer_refunds buyer (append_index (s.customer_refunds buyer) refund_id);
  })
  emit_escrow_refund_registered refund_id escrow_id buyer amount
  pure refund_id
