-- ===== src/Refund/Views.antt =====
-- What the refund contract answers: contracts/ahjoor-refund/src/lib.rs, the getters and the pages of
-- the indexes.
use ahjoorxmr_contract.Base.{
  ℕ, zero, suc, ◌+◌, ◌-◌, ◌*◌, Bool, List, [], ◌∷◌, Option, if◌then◌else◌, ltb, leb, unwrap_or,
  length, get_elem?, ℤ, pos, ◌-ℤ◌, checked_u32, checked_i128,
}
use ahjoorxmr_contract.Host.{◌>>=◌, ◌>>◌, pure, panic_if, expect, checked, gets}
use ahjoorxmr_contract.Refund.Types.{Error, Payments}
use ahjoorxmr_contract.Refund.Events.{Action}
use ahjoorxmr_contract.Refund.Records.{get_payment}

-- `a.min(b)`
abbrev pub min : ℕ → ℕ → ℕ
min a b = if leb a b then a else b

-- The loop over `start..end`, by the count of rounds left: the items from `i` on.
unfoldable pub copy_range : List ℕ → ℕ → ℕ → Action (List ℕ)
copy_range all i zero = pure []
copy_range all i (suc rounds) = do
  item ← expect (get_elem? all i) Error.index_out_of_bounds
  page ← copy_range all (i + 1) rounds
  pure (item ∷ page)

unfoldable pub paginate : Option (List ℕ) → ℕ → ℕ → Action (List ℕ)
paginate ids limit offset = do
  let all = unwrap_or ids []
  let start = min offset (length all)
  stop ← checked (checked_u32 (start + limit))
  copy_range all start (min stop (length all) - start)

unfoldable pub get_refunds_by_customer : ℕ → ℕ → ℕ → Action (List ℕ)
unfolding paginate
get_refunds_by_customer customer limit offset = do
  ids ← gets (λ s. s.customer_refunds customer)
  paginate ids limit offset

unfoldable pub get_refunds_by_merchant : ℕ → ℕ → ℕ → Action (List ℕ)
unfolding paginate
get_refunds_by_merchant merchant limit offset = do
  ids ← gets (λ s. s.merchant_refunds merchant)
  paginate ids limit offset

-- A page of `get_refunds_by_reason` and `get_pending_refund_queue`, with its end.
unfoldable pub numbered_page : List ℕ → ℕ → ℕ → Action (List ℕ × ℕ)
numbered_page all page page_size = do
  first ← checked (checked_u32 (page * page_size))
  let start = min first (length all)
  stop ← checked (checked_u32 (start + page_size))
  let stop_at = min stop (length all)
  result ← copy_range all start (stop_at - start)
  pure (result, stop_at)

unfoldable pub get_refunds_by_reason : ℕ → ℕ → ℕ → ℕ → Action (List ℕ)
unfolding numbered_page
get_refunds_by_reason merchant reason_code page page_size = do
  panic_if (ltb 4 reason_code) Error.invalid_reason_code
  all ← gets (λ s. unwrap_or (s.reason_code_refunds merchant reason_code) [])
  (result, _) ← numbered_page all page page_size
  pure result

unfoldable pub get_reason_code_count : ℕ → ℕ → Action ℕ
get_reason_code_count merchant reason_code = do
  panic_if (ltb 4 reason_code) Error.invalid_reason_code
  gets (λ s. unwrap_or (s.reason_code_count merchant reason_code) 0)

unfoldable pub get_pending_refund_queue : ℕ → ℕ → Action (List ℕ × ℕ × Bool)
unfolding numbered_page
get_pending_refund_queue page page_size = do
  queue ← gets (λ s. unwrap_or s.pending_refund_queue [])
  (result, stop) ← numbered_page queue page (min page_size 50)
  pure (result, length queue, ltb stop (length queue))

unfoldable pub get_pending_refund_count : Action ℕ
get_pending_refund_count = gets (λ s. length (unwrap_or s.pending_refund_queue []))

unfoldable pub get_refundable_remaining : Payments → ℕ → Action ℤ
unfolding get_payment
get_refundable_remaining payments payment_id = do
  payment ← get_payment payments payment_id
  already_refunded ← gets (λ s. unwrap_or (s.refunded_amount payment_id) (pos 0))
  checked (checked_i128 (payment.amount -ℤ already_refunded))

unfoldable pub get_refunds_by_payment : ℕ → Action (List ℕ)
get_refunds_by_payment payment_id = gets (λ s. unwrap_or (s.payment_refunds payment_id) [])

unfoldable pub get_refund_counter : Action ℕ
get_refund_counter = gets (λ s. unwrap_or s.refund_counter 0)

unfoldable pub get_admin : Action ℕ
get_admin = do expect (← gets (λ s. s.admin)) Error.not_initialized

unfoldable pub get_payment_contract : Action ℕ
get_payment_contract = do
  expect (← gets (λ s. s.payment_contract_address)) Error.payment_contract_not_configured

unfoldable pub get_dispute_window : Action ℕ
get_dispute_window = do expect (← gets (λ s. s.dispute_window)) Error.dispute_window_not_configured

unfoldable pub get_refund_fee : Action ℕ
get_refund_fee = gets (λ s. unwrap_or s.refund_fee_bps 0)

unfoldable pub get_fee_recipient : Action (Option ℕ)
get_fee_recipient = gets (λ s. s.fee_recipient)

unfoldable pub get_appeal_window : Action ℕ
get_appeal_window = do expect (← gets (λ s. s.appeal_window)) Error.appeal_window_not_configured

unfoldable pub get_auto_reject_window : Action ℕ
get_auto_reject_window = do
  expect (← gets (λ s. s.auto_reject_window)) Error.auto_reject_window_not_configured

unfoldable pub get_customer_cancel_window : Action ℕ
get_customer_cancel_window = do
  expect (← gets (λ s. s.customer_cancel_window)) Error.cancel_window_not_configured

unfoldable pub get_delegates : ℕ → Action (List ℕ)
get_delegates merchant = gets (λ s. unwrap_or (s.merchant_delegates merchant) [])

unfoldable pub get_refund_cooldown : Action ℕ
get_refund_cooldown = gets (λ s. unwrap_or s.refund_cooldown 0)

unfoldable pub get_auto_approved_merchants : Action (List ℕ)
get_auto_approved_merchants = gets (λ s. unwrap_or s.auto_approved_merchants [])

unfoldable pub get_refund_tiers : Action (List (ℕ × ℕ))
get_refund_tiers = gets (λ s. unwrap_or s.refund_tiers [])
