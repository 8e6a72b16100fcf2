-- ===== src/Refund/Records.antt =====
-- What the entry points of the refund contract share: the refunds, their indexes, the queue of
-- pending ones, the statistics and the payment of a refund less its fee.
-- contracts/ahjoor-refund/src/lib.rs.
use ahjoorxmr_contract.Base.{
  ℕ, ◌+◌, ◌/◌, ◌*◌, List, [], ◌∷◌, ◌++◌, Option, none, some, if◌then◌else◌, ltb, unwrap_or, put,
  without, ℤ, pos, ◌+ℤ◌, ◌-ℤ◌, ltb_ℤ, checked_u32, checked_i128, checked_u128, as_u128, as_i128,
}
use ahjoorxmr_contract.Host.{
  ⊤, ◌>>=◌, ◌>>◌, pure, expect, checked, when, gets, modify, current_contract_address, call_token,
  TokenCall,
}
use ahjoorxmr_contract.Refund.Types.{Error, Refund, RefundStats, Payment, Payments}
use ahjoorxmr_contract.Refund.Events.{Action, emit_refund_fee_collected}
use ahjoorxmr_contract.Refund.Admin.{no_stats}

unfoldable pub get_refund : ℕ → Action Refund
get_refund refund_id = do expect (← gets (λ s. s.refund refund_id)) Error.refund_not_found

unfoldable pub set_refund : ℕ → Refund → Action ⊤
set_refund refund_id r = modify (λ s. record s { refund = put s.refund refund_id (some r) })

unfoldable pub next_refund_id : Action ℕ
next_refund_id = do
  id ← gets (λ s. unwrap_or s.refund_counter 0)
  counter ← checked (checked_u32 (id + 1))
  modify (λ s. record s { refund_counter = some counter })
  pure id

-- The index of a key with one more refund.
abbrev pub append_index : Option (List ℕ) → ℕ → Option (List ℕ)
append_index ids refund_id = some (unwrap_or ids [] ++ (refund_id ∷ []))

unfoldable pub append_to_pending_queue : ℕ → Action ⊤
append_to_pending_queue refund_id = modify (λ s. record s {
  pending_refund_queue = some (unwrap_or s.pending_refund_queue [] ++ (refund_id ∷ []));
})

unfoldable pub remove_from_pending_queue : ℕ → Action ⊤
remove_from_pending_queue refund_id = modify (λ s. record s {
  pending_refund_queue = some (without refund_id (unwrap_or s.pending_refund_queue []));
})

unfoldable pub get_global_refund_stats : Action RefundStats
get_global_refund_stats = gets (λ s. unwrap_or s.global_refund_stats no_stats)

unfoldable pub get_merchant_refund_stats : ℕ → Action RefundStats
get_merchant_refund_stats merchant =
    gets (λ s. unwrap_or (s.merchant_refund_stats merchant) no_stats)

-- The same change of the global statistics and of a merchant's.
unfoldable pub update_stats : (RefundStats → Action RefundStats) → ℕ → Action ⊤
unfolding get_global_refund_stats get_merchant_refund_stats
update_stats f merchant = do
  global ← get_global_refund_stats
  global_stats ← f global
  modify (λ s. record s { global_refund_stats = some global_stats })
  own ← get_merchant_refund_stats merchant
  merchant_stats ← f own
  modify (λ s. record s {
    merchant_refund_stats = put s.merchant_refund_stats merchant (some merchant_stats);
  })

unfoldable pub update_stats_on_request : ℕ → Action ⊤
unfolding update_stats
update_stats_on_request merchant =
    update_stats
      (λ stats. do
        n ← checked (checked_u32 (stats.total_requested + 1))
        pure (record stats { total_requested = n }))
      merchant

unfoldable pub update_stats_on_approve : ℕ → Action ⊤
unfolding update_stats
update_stats_on_approve merchant =
    update_stats
      (λ stats. do
        n ← checked (checked_u32 (stats.total_approved + 1))
        pure (record stats { total_approved = n }))
      merchant

unfoldable pub update_stats_on_reject : ℕ → Action ⊤
unfolding update_stats
update_stats_on_reject merchant =
    update_stats
      (λ stats. do
        n ← checked (checked_u32 (stats.total_rejected + 1))
        pure (record stats { total_rejected = n }))
      merchant

unfoldable pub update_stats_on_process : ℕ → ℤ → Action ⊤
unfolding update_stats
update_stats_on_process merchant amount =
    update_stats
      (λ stats. do
        n ← checked (checked_u32 (stats.total_processed + 1))
        total ← checked (checked_i128 (stats.total_amount_refunded +ℤ amount))
        pure (record stats { total_processed = n; total_amount_refunded = total }))
      merchant

-- `(amount as u128 * bps as u128 / 10_000) as i128`
unfoldable pub bps_of : ℤ → ℕ → Action ℤ
bps_of amount bps = do
  product ← checked (checked_u128 (as_u128 amount * bps))
  pure (as_i128 (product / 10000))

-- `client.transfer(&env.current_contract_address(), to, amount)`
unfoldable pub pay : ℕ → ℕ → ℤ → Action ⊤
pay token to amount = do
  self ← current_contract_address
  call_token (TokenCall.transfer token self to amount)

pay_fee : ℕ → ℕ → ℤ → Option ℕ → Action ⊤
unfolding pay emit_refund_fee_collected
pay_fee refund_id token fee_amount none = pure tt
pay_fee refund_id token fee_amount (some fee_recipient) = do
  pay token fee_recipient fee_amount
  emit_refund_fee_collected refund_id fee_amount

-- The customer gets the amount less the fee, the recipient of the fees the fee, where there is one.
-- The results are the fee and what the customer got.
unfoldable pub pay_refund : ℕ → Refund → Action (ℤ × ℤ)
unfolding bps_of pay pay_fee
pay_refund refund_id r = do
  fee_bps ← gets (λ s. unwrap_or s.refund_fee_bps 0)
  fee_amount ← if ltb 0 fee_bps then bps_of r.amount fee_bps else pure (pos 0)
  customer_amount ← checked (checked_i128 (r.amount -ℤ fee_amount))
  when (ltb_ℤ (pos 0) customer_amount) (pay r.token r.customer customer_amount)
  fee_recipient ← gets (λ s. s.fee_recipient)
  when (ltb_ℤ (pos 0) fee_amount) (pay_fee refund_id r.token fee_amount fee_recipient)
  pure (fee_amount, customer_amount)

-- `if fee_amount > 0 { Some(fee_amount) } else { None }`
abbrev pub recorded_fee : ℤ → Option ℤ
recorded_fee fee_amount = if ltb_ℤ (pos 0) fee_amount then some fee_amount else none

-- The amount is added to what has been refunded of a payment; the result is the new sum.
unfoldable pub add_refunded : ℕ → ℤ → Action ℤ
add_refunded payment_id amount = do
  already_refunded ← gets (λ s. unwrap_or (s.refunded_amount payment_id) (pos 0))
  new_total ← checked (checked_i128 (already_refunded +ℤ amount))
  modify (λ s. record s { refunded_amount = put s.refunded_amount payment_id (some new_total) })
  pure new_total

-- The payment contract's answer.
unfoldable pub get_payment : Payments → ℕ → Action Payment
get_payment payments payment_id = do
  address ← expect (← gets (λ s. s.payment_contract_address)) Error.payment_contract_not_configured
  expect (payments address payment_id) Error.payment_not_found
