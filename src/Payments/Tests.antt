-- ===== src/Payments/Tests.antt =====
-- The fees and splits of the payments contract run on concrete inputs.
use ahjoorxmr_contract.Base.{
  ℕ, ◌≤◌, ◌≡◌, refl, true, List, [], ◌∷◌, none, some, ℤ, pos, ◌+ℤ◌, ◌-ℤ◌, ◌*ℤ◌, ◌/ℤ◌, arith,
}
use ahjoorxmr_contract.Host.{Env, TokenCall, ok}
use ahjoorxmr_contract.Host.Payouts.{Pays}
use ahjoorxmr_contract.Payments.Types.{
  Payment, PaymentStatus, SplitRecipient, SplitTransfer, FeeTier, max_fee_bps,
}
use ahjoorxmr_contract.Payments.Events.{World}
use ahjoorxmr_contract.Payments.Fees
use ahjoorxmr_contract.Payments.Splits.{
  net_calls, distribute_net_payment-Pays, update_fee_tiers_bounded,
}

-- The contract lives at 9; 0 is the admin, 2 the merchant, 3 and 4 share, 7 is the token.
abbrev today : Env
today = record {
  timestamp = 1;
  sequence = 1;
  current_contract_address = 9;
  authorized = λ a. true;
  token_accepts = λ calls c. true;
}

abbrev start : World
start = record {
  store = record {
    admin = some 0;
    payment_counter = none;
    max_batch_size = none;
    dispute_timeout = none;
    oracle_address = none;
    usdc_token = none;
    max_oracle_age = none;
    proposed_admin = none;
    paused = none;
    pause_reason = none;
    payment_timeout = none;
    merchant_open_mode = none;
    subscription_counter = none;
    rate_limit_config = none;
    contract_version = none;
    migration_completed = λ _. none;
    fee_bps = some 100;
    fee_recipient = none;
    fee_tiers = none;
    payment = λ _. none;
    customer_payments = λ _. none;
    settled = λ _. none;
    customer_rate_limit = λ _. none;
    merchant_approved = λ _. none;
    subscription = λ _. none;
    merchant_reference = λ _ _. none;
    payment_receipt = λ _. none;
    global_stats = none;
    merchant_stats = λ _. none;
    volume_bucket = λ _ _. none;
    merchant_volume_bucket = λ _ _. none;
    merchant_current_tier_bps = λ _. none;
    dispute = λ _. none;
    idempotency_key = λ _. none;
  };
  calls = [];
  events = [];
  code_updates = [];
}

abbrev share_of : ℕ → ℕ → SplitRecipient
share_of recipient bps = record { recipient = recipient; bps = bps }

abbrev reported : ℕ → ℕ → ℤ → SplitTransfer
reported recipient bps amount = record { recipient = recipient; bps = bps; amount = amount }

abbrev shared : Payment
shared = record {
  id = 0;
  customer = 1;
  merchant = 2;
  amount = pos 101;
  token = 7;
  status = PaymentStatus.pending;
  created_at = 1;
  expires_at = 0;
  refunded_amount = pos 0;
  reference = none;
  metadata = none;
  split_recipients = some (share_of 3 3333 ∷ share_of 4 6667 ∷ []);
  execute_after = 0;
}

-- Of 101, 33 and 67 are shares, and 1 is left for the merchant.
abbrev distributed : World
distributed = record start {
  calls =
      TokenCall.transfer 7 9 2 (pos 1)
      ∷ TokenCall.transfer 7 9 4 (pos 67)
      ∷ TokenCall.transfer 7 9 3 (pos 33)
      ∷ [];
}

splits_valid : Fees.validate_split_recipients shared.split_recipients today start ≡ ok (tt, start)
unfolding Fees.validate_split_recipients Fees.add_splits
splits_valid = refl

distribution_runs :
    Fees.distribute_net_payment shared (pos 101) today start
    ≡ ok (reported 3 3333 (pos 33) ∷ reported 4 6667 (pos 67) ∷ [], distributed)
unfolding Fees.distribute_net_payment Fees.pay_parts Fees.pay_splits Fees.pay ◌+ℤ◌ ◌-ℤ◌ ◌*ℤ◌ ◌/ℤ◌
distribution_runs = refl

distribute_net_payment-Pays_example :
    Pays today start distributed 7 (pos 101) (net_calls 9 7 2 101 shared.split_recipients)
distribute_net_payment-Pays_example =
    distribute_net_payment-Pays shared 101 today today start distributed start start
      (reported 3 3333 (pos 33) ∷ reported 4 6667 (pos 67) ∷ []) splits_valid distribution_runs

abbrev tiers : List FeeTier
tiers =
    record { min_volume = pos 0; fee_bps = 300 }
    ∷ record { min_volume = pos 1000; fee_bps = 200 }
    ∷ []

abbrev tiered : World
tiered = record start { store = record start.store { fee_tiers = some tiers } }

tiers_run : Fees.update_fee_tiers 0 tiers today start ≡ ok (tt, tiered)
unfolding Fees.update_fee_tiers Fees.validate_fee_tiers Fees.check_fee_tiers
tiers_run = refl

update_fee_tiers_bounded_example :
    (fee : ℕ) × (Fees.fee_bps_for_volume (pos 1500) today tiered ≡ ok (fee, tiered))
    × (fee ≤ max_fee_bps)
update_fee_tiers_bounded_example =
    update_fee_tiers_bounded 0 tiers (pos 1500) today today start tiered (omega arith) tiers_run
