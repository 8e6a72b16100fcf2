-- ===== src/Refund/Request.antt =====
-- Requests for refunds: contracts/ahjoor-refund/src/lib.rs (`request_refund`).
use ahjoorxmr_contract.Base.{
  ℕ, ◌+◌, ◌-◌, Bool, not, ◌&&◌, List, [], ◌∷◌, Option, none, some, String, if◌then◌else◌, ltb, leb,
  unwrap_or, put, contains, ℤ, pos, ◌+ℤ◌, ltb_ℤ, leb_ℤ, checked_u32, checked_u64, checked_i128,
  saturating_sub_i128,
}
use ahjoorxmr_contract.Host.{
  ⊤, ◌>>=◌, ◌>>◌, pure, panic_if, fail, checked, when, gets, modify, timestamp,
  current_contract_address, require_auth, call_token, TokenCall,
}
use ahjoorxmr_contract.Refund.Types.{
  Error, Refund, RefundStatus, Payment, Payments, is_completed_status,
}
use ahjoorxmr_contract.Refund.Events.{
  Action, emit_refund_cooldown_active, emit_refund_requested, emit_refund_reason_recorded,
  emit_refund_tier_applied, emit_refund_auto_approved_whitelist,
}
use ahjoorxmr_contract.Refund.Admin.{require_not_paused}
use ahjoorxmr_contract.Refund.Records.{
  get_payment, set_refund, next_refund_id, append_index, append_to_pending_queue,
  update_stats_on_request, bps_of,
}

-- The cooldown between two requests of a customer.
unfoldable pub check_cooldown : ℕ → ℕ → Action ⊤
unfolding emit_refund_cooldown_active
check_cooldown customer cooldown = do
  last_request ← gets (λ s. unwrap_or (s.last_refund_request customer) 0)
  now ← timestamp
  when (ltb 0 last_request && ltb (now - last_request) cooldown) do
    next_eligible_at ← checked (checked_u64 (last_request + cooldown))
    emit_refund_cooldown_active customer next_eligible_at
    fail Error.refund_cooldown_active

-- The loop over the tiers: the first that the payment is not too old for caps what is refunded. The
-- results are the amount, the tier's basis points and what was left under it.
unfoldable pub match_tier : List (ℕ × ℕ) → ℕ → ℤ → ℤ → ℤ → Action (ℤ × ℕ × ℤ)
unfolding bps_of
match_tier [] elapsed paid already_refunded amount = fail Error.refund_window_expired
match_tier ((max_seconds, tier_bps) ∷ tiers) elapsed paid already_refunded amount =
    let later = match_tier tiers elapsed paid already_refunded amount in
    if leb elapsed max_seconds
    then (do
      absolute_cap ← bps_of paid tier_bps
      let remaining_under_tier = saturating_sub_i128 absolute_cap already_refunded
      panic_if (leb_ℤ remaining_under_tier (pos 0)) Error.exceeds_refundable_amount
      pure (
        if ltb_ℤ remaining_under_tier amount then remaining_under_tier else amount,
        tier_bps,
        remaining_under_tier,
      ))
    else later

-- The amount that is refunded, and the tier applied.
unfoldable pub apply_tiers : List (ℕ × ℕ) → ℕ → ℤ → ℤ → ℤ → Action (ℤ × Option (ℕ × ℤ))
unfolding match_tier
apply_tiers [] elapsed paid already_refunded amount = pure (amount, none)
apply_tiers (t ∷ tiers) elapsed paid already_refunded amount = do
  (effective_amount, tier_bps, left) ← match_tier (t ∷ tiers) elapsed paid already_refunded amount
  pure (effective_amount, some (tier_bps, left))

-- The refund that `request_refund` stores.
abbrev pub new_refund : ℕ → ℕ → ℕ → Payment → ℤ → String → ℕ → ℕ → Bool → Refund
new_refund id payment_id customer payment amount reason reason_code now is_whitelisted = record {
  id = id;
  payment_id = payment_id;
  customer = customer;
  merchant = payment.merchant;
  amount = amount;
  token = payment.token;
  status = if is_whitelisted then RefundStatus.approved else RefundStatus.requested;
  reason = reason;
  reason_code = reason_code;
  requested_at = now;
  approved_at = if is_whitelisted then some now else none;
  processed_at = none;
  rejected_at = none;
  auto_approved_source = if is_whitelisted then some "whitelist" else none;
  escrow_id = none;
  fee_amount = none;
}

-- The four indexes and the count of a reason code.
unfoldable pub index_refund : Refund → Action ⊤
index_refund r = do
  modify (λ s. record s {
    customer_refunds =
        put s.customer_refunds r.customer (append_index (s.customer_refunds r.customer) r.id);
  })
  modify (λ s. record s {
    merchant_refunds =
        put s.merchant_refunds r.merchant (append_index (s.merchant_refunds r.merchant) r.id);
  })
  modify (λ s. record s {
    payment_refunds =
        put s.payment_refunds r.payment_id (append_index (s.payment_refunds r.payment_id) r.id);
  })
  modify (λ s. record s {
    reason_code_refunds = put s.reason_code_refunds r.merchant (
        put (s.reason_code_refunds r.merchant) r.reason_code
          (append_index (s.reason_code_refunds r.merchant r.reason_code) r.id));
  })
  prev_count ← gets (λ s. unwrap_or (s.reason_code_count r.merchant r.reason_code) 0)
  count ← checked (checked_u32 (prev_count + 1))
  modify (λ s. record s {
    reason_code_count =
        put s.reason_code_count r.merchant
          (put (s.reason_code_count r.merchant) r.reason_code (some count));
  })

emit_tier : ℕ → Option (ℕ × ℤ) → Action ⊤
unfolding emit_refund_tier_applied
emit_tier refund_id none = pure tt
emit_tier refund_id (some (tier_bps, max_refundable)) =
    emit_refund_tier_applied refund_id tier_bps max_refundable

-- What `request_refund` does with the new refund once it has a number and the tokens have come in.
unfoldable pub store_request : Refund → ℕ → Option (ℕ × ℤ) → Bool → Action ⊤
unfolding set_refund append_to_pending_queue emit_refund_requested emit_refund_reason_recorded
    emit_tier emit_refund_auto_approved_whitelist
store_request r cooldown applied is_whitelisted = do
  set_refund r.id r
  index_refund r
  when (not is_whitelisted) (append_to_pending_queue r.id)
  update_stats_on_request r.merchant
  now ← timestamp
  when (ltb 0 cooldown) (
      modify
        (λ s. record s { last_refund_request = put s.last_refund_request r.customer (some now) }))
  emit_refund_requested r.id r.customer r.amount r.token r.reason
  emit_refund_reason_recorded r.id r.reason_code
  emit_tier r.id applied
  when is_whitelisted (emit_refund_auto_approved_whitelist r.id r.merchant r.amount)

unfoldable pub request_refund : Payments → ℕ → ℕ → ℤ → String → ℕ → Action ℕ
unfolding require_not_paused get_payment next_refund_id
request_refund payments customer payment_id amount reason reason_code = do
  require_not_paused
  require_auth customer
  panic_if (leb_ℤ amount (pos 0)) Error.amount_not_positive
  panic_if (ltb 4 reason_code) Error.invalid_reason_code
  cooldown ← gets (λ s. unwrap_or s.refund_cooldown 0)
  when (ltb 0 cooldown) (check_cooldown customer cooldown)
  payment ← get_payment payments payment_id
  panic_if (not (is_completed_status payment.status)) Error.payment_not_completed
  already_refunded ← gets (λ s. unwrap_or (s.refunded_amount payment_id) (pos 0))
  tiers ← gets (λ s. unwrap_or s.refund_tiers [])
  now ← timestamp
  (effective_amount, applied) ←
      apply_tiers tiers (now - payment.created_at) payment.amount already_refunded amount
  sum ← checked (checked_i128 (effective_amount +ℤ already_refunded))
  panic_if (ltb_ℤ payment.amount sum) Error.exceeds_refundable_amount
  self ← current_contract_address
  call_token (TokenCall.transfer payment.token customer self effective_amount)
  refund_id ← next_refund_id
  is_whitelisted ← gets (λ s. contains payment.merchant (unwrap_or s.auto_approved_merchants []))
  let r =
      new_refund refund_id payment_id customer payment effective_amount reason reason_code now
        is_whitelisted
  store_request r cooldown applied is_whitelisted
  pure refund_id
