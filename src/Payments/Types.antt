-- ===== src/Payments/Types.antt =====
-- The data of the payments contract: contracts/ahjoor-payments/src/lib.rs, lines 55 to 291, with the
-- messages of the panics of its fees and splits.
use ahjoorxmr_contract.Base.{ℕ, ℤ, Bool, List, Option, String}

abbrev pub max_fee_bps : ℕ
max_fee_bps = 500

abbrev pub default_fee_bps : ℕ
default_fee_bps = 0

pub data PaymentStatus : Type 0 where
  pending completed refunded disputed expired scheduled_pending : PaymentStatus

pub record SplitRecipient : Type 0 where
  pub recipient : ℕ
  pub bps : ℕ

pub record SplitTransfer : Type 0 where
  pub recipient : ℕ
  pub bps : ℕ
  pub amount : ℤ

pub record FeeTier : Type 0 where
  pub min_volume : ℤ
  pub fee_bps : ℕ

pub record Payment : Type 0 where
  pub id : ℕ
  pub customer : ℕ
  pub merchant : ℕ
  pub amount : ℤ
  pub token : ℕ
  pub status : PaymentStatus
  pub created_at : ℕ
  pub expires_at : ℕ
  pub refunded_amount : ℤ
  pub reference : Option String
  pub metadata : Option (List (String × String))
  pub split_recipients : Option (List SplitRecipient)
  pub execute_after : ℕ

-- The maps of tokens to amounts are functions.
pub record GlobalStats : Type 0 where
  pub total_payments_created : ℕ
  pub total_payments_completed : ℕ
  pub total_payments_refunded : ℕ
  pub total_payments_expired : ℕ
  pub total_volume_completed : ℕ → Option ℤ
  pub total_volume_refunded : ℕ → Option ℤ

pub record MerchantStats : Type 0 where
  pub payments_created : ℕ
  pub payments_completed : ℕ
  pub payments_refunded : ℕ
  pub volume_completed : ℕ → Option ℤ

pub record Dispute : Type 0 where
  pub payment_id : ℕ
  pub reason : String
  pub created_at : ℕ
  pub resolved : Bool

pub record Subscription : Type 0 where
  pub id : ℕ
  pub subscriber : ℕ
  pub merchant : ℕ
  pub amount : ℤ
  pub token : ℕ
  pub interval_seconds : ℕ
  pub last_charged_at : ℕ
  pub max_charges : ℕ
  pub charges_count : ℕ
  pub active : Bool

pub record RateLimitConfig : Type 0 where
  pub max_payments : ℕ
  pub window_size_ledgers : ℕ

pub record CustomerRateLimit : Type 0 where
  pub count : ℕ
  pub window_start_ledger : ℕ

-- The contract's storage: one field for each constructor of `DataKey`.
pub record Store : Type 0 where
  pub admin : Option ℕ
  pub payment_counter : Option ℕ
  pub max_batch_size : Option ℕ
  pub dispute_timeout : Option ℕ
  pub oracle_address : Option ℕ
  pub usdc_token : Option ℕ
  pub max_oracle_age : Option ℕ
  pub proposed_admin : Option ℕ
  pub paused : Option Bool
  pub pause_reason : Option String
  pub payment_timeout : Option ℕ
  pub merchant_open_mode : Option Bool
  pub subscription_counter : Option ℕ
  pub rate_limit_config : Option RateLimitConfig
  pub contract_version : Option ℕ
  pub migration_completed : ℕ → Option Bool
  pub fee_bps : Option ℕ
  pub fee_recipient : Option ℕ
  pub fee_tiers : Option (List FeeTier)
  pub payment : ℕ → Option Payment
  pub customer_payments : ℕ → Option (List ℕ)
  pub settled : ℕ → Option Bool
  pub customer_rate_limit : ℕ → Option CustomerRateLimit
  pub merchant_approved : ℕ → Option Bool
  pub subscription : ℕ → Option Subscription
  pub merchant_reference : ℕ → ℕ → Option (List ℕ)
  pub payment_receipt : ℕ → Option ℕ
  pub global_stats : Option GlobalStats
  pub merchant_stats : ℕ → Option MerchantStats
  pub volume_bucket : ℕ → ℕ → Option ℤ
  pub merchant_volume_bucket : ℕ → ℕ → Option ℤ
  pub merchant_current_tier_bps : ℕ → Option ℕ
  pub dispute : ℕ → Option Dispute
  pub idempotency_key : ℕ → Option ℕ

-- The reasons of `panic!` and `expect`.
pub data Error : Type 0 where
  splits_empty split_bps_zero split_bps_overflow splits_not_whole : Error
  tier_fee_too_high tier_volume_negative tiers_not_ascending : Error
  not_initialized not_admin fee_too_high contract_is_paused fee_recipient_not_configured : Error
