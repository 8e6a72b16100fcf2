-- ===== src/Refund/Types.antt =====
-- The data of the refund contract: contracts/ahjoor-refund/src/lib.rs, lines 1 to 130, with the
-- messages of its panics.
use ahjoorxmr_contract.Base.{ℕ, ℤ, Bool, true, false, List, Option, String}

-- What `get_payment` of the payment contract returns, in `mod payment_contract`. The fields that the
-- refund contract does not read, `expires_at` to `metadata`, are left out.
pub data PaymentStatus : Type 0 where
  pending completed refunded disputed expired : PaymentStatus

pub record Payment : Type 0 where
  pub id : ℕ
  pub customer : ℕ
  pub merchant : ℕ
  pub amount : ℤ
  pub token : ℕ
  pub status : PaymentStatus
  pub created_at : ℕ

-- The answers of the payment contracts: `try_get_payment` of the contract at an address; `none` is a
-- call that fails.
abbrev pub Payments : Type 0
Payments = ℕ → ℕ → Option Payment

pub data RefundStatus : Type 0 where
  requested approved rejected processed under_appeal cancelled : RefundStatus

pub record Refund : Type 0 where
  pub id : ℕ
  pub payment_id : ℕ
  pub customer : ℕ
  pub merchant : ℕ
  pub amount : ℤ
  pub token : ℕ
  pub status : RefundStatus
  pub reason : String
  pub reason_code : ℕ
  pub requested_at : ℕ
  pub approved_at : Option ℕ
  pub processed_at : Option ℕ
  pub rejected_at : Option ℕ
  pub auto_approved_source : Option String
  pub escrow_id : Option ℕ
  pub fee_amount : Option ℤ

pub record RefundStats : Type 0 where
  pub total_requested : ℕ
  pub total_approved : ℕ
  pub total_rejected : ℕ
  pub total_processed : ℕ
  pub total_amount_refunded : ℤ

-- The contract's storage: one field for each constructor of `DataKey`.
pub record Store : Type 0 where
  pub admin : Option ℕ
  pub paused : Option Bool
  pub pause_reason : Option String
  pub refund_counter : Option ℕ
  pub contract_version : Option ℕ
  pub migration_completed : ℕ → Option Bool
  pub refund : ℕ → Option Refund
  pub payment_contract_address : Option ℕ
  pub customer_refunds : ℕ → Option (List ℕ)
  pub merchant_refunds : ℕ → Option (List ℕ)
  pub payment_refunds : ℕ → Option (List ℕ)
  pub dispute_window : Option ℕ
  pub refunded_amount : ℕ → Option ℤ
  pub auto_approved_merchants : Option (List ℕ)
  pub escrow_contract_address : Option ℕ
  pub global_refund_stats : Option RefundStats
  pub merchant_refund_stats : ℕ → Option RefundStats
  pub refund_fee_bps : Option ℕ
  pub fee_recipient : Option ℕ
  pub reason_code_refunds : ℕ → ℕ → Option (List ℕ)
  pub reason_code_count : ℕ → ℕ → Option ℕ
  pub auto_reject_window : Option ℕ
  pub refund_deadline_extension : ℕ → Option ℕ
  pub appeal_window : Option ℕ
  pub pending_refund_queue : Option (List ℕ)
  pub refund_tiers : Option (List (ℕ × ℕ))
  pub refund_cooldown : Option ℕ
  pub last_refund_request : ℕ → Option ℕ
  pub merchant_delegates : ℕ → Option (List ℕ)
  pub customer_cancel_window : Option ℕ

-- The reasons of `panic!` and `expect`, in the order in which the source first has them.
pub data Error : Type 0 where
  already_initialized fee_too_high contract_is_paused amount_not_positive : Error
  invalid_reason_code refund_cooldown_active payment_contract_not_configured : Error
  payment_not_found payment_not_completed exceeds_refundable_amount refund_window_expired : Error
  not_initialized refund_not_found not_admin_or_delegate not_requested not_admin : Error
  not_payment_merchant merchant_balance_insufficient batch_empty batch_too_large : Error
  not_approved already_acted_on dispute_window_not_configured : Error
  dispute_window_not_elapsed already_whitelisted not_whitelisted too_many_delegates : Error
  already_delegate not_delegate not_requesting_customer cannot_cancel : Error
  cancel_window_not_configured cancel_window_not_elapsed auto_reject_window_not_configured : Error
  auto_reject_window_not_elapsed not_rejected not_original_customer : Error
  appeal_window_not_configured rejection_timestamp_missing appeal_window_expired : Error
  not_under_appeal not_escrow_contract escrow_contract_not_configured version_overflow : Error
  migration_already_completed already_paused not_paused tiers_not_sorted tier_bps_too_high : Error
  index_out_of_bounds : Error

-- `status == Requested`, and so on.
unfoldable pub is_requested_status : RefundStatus → Bool
is_requested_status RefundStatus.requested = true
is_requested_status _ = false

unfoldable pub is_approved_status : RefundStatus → Bool
is_approved_status RefundStatus.approved = true
is_approved_status _ = false

unfoldable pub is_rejected_status : RefundStatus → Bool
is_rejected_status RefundStatus.rejected = true
is_rejected_status _ = false

unfoldable pub is_under_appeal_status : RefundStatus → Bool
is_under_appeal_status RefundStatus.under_appeal = true
is_under_appeal_status _ = false

unfoldable pub is_completed_status : PaymentStatus → Bool
is_completed_status PaymentStatus.completed = true
is_completed_status _ = false
