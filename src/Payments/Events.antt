-- ===== src/Payments/Events.antt =====
-- The events of the payments contract and the functions that publish them:
-- contracts/ahjoor-payments/src/events.rs.
use ahjoorxmr_contract.Base.{ℕ, ℤ, Bool, String, List}
use ahjoorxmr_contract.Host
use ahjoorxmr_contract.Host.{emit, ⊤}
use ahjoorxmr_contract.Payments.Types.{Error, PaymentStatus, SplitTransfer, Store}

-- One constructor for each event; its fields in the order of the source.
pub data Event : Type 0 where
  payment_receipt_issued : (payment_id : ℕ) (receipt_hash : ℕ) → Event
  fee_collected : (payment_id : ℕ) (fee_amount : ℤ) (fee_recipient : ℕ) (token : ℕ) → Event
  payment_split_completed : (payment_id : ℕ) (splits : List SplitTransfer) → Event
  payment_scheduled : (payment_id : ℕ) (execute_after : ℕ) → Event
  scheduled_payment_executed : (payment_id : ℕ) → Event
  merchant_tier_updated : (merchant : ℕ) (new_tier_bps : ℕ) (volume : ℤ) → Event
  multi_token_payment_created :
      (payment_id : ℕ) (customer : ℕ) (merchant : ℕ) (amount_usdc : ℤ) (payment_token : ℕ)
      (token_amount : ℤ) (oracle_price : ℤ)
      → Event
  payment_created : (payment_id : ℕ) (customer : ℕ) (merchant : ℕ) (amount : ℤ) (token : ℕ) → Event
  batch_payment_created : (customer : ℕ) (payment_count : ℕ) (total_amount : ℤ) → Event
  payment_status_changed :
      (payment_id : ℕ) (old_status : PaymentStatus) (new_status : PaymentStatus) → Event
  payment_completed : (payment_id : ℕ) (merchant : ℕ) (amount : ℤ) (completed_at : ℕ) → Event
  payment_expired : (payment_id : ℕ) (customer : ℕ) (amount : ℤ) (expired_at : ℕ) → Event
  payment_partial_refund :
      (payment_id : ℕ) (customer : ℕ) (refund_amount : ℤ) (remaining : ℤ) → Event
  subscription_charged :
      (subscription_id : ℕ) (subscriber : ℕ) (merchant : ℕ) (amount : ℤ) (charged_at : ℕ) → Event
  subscription_cancelled : (subscription_id : ℕ) (cancelled_by : ℕ) → Event
  batch_settlement_processed :
      (merchant : ℕ) (total_amount : ℤ) (fee_collected : ℤ) (payment_count : ℕ) → Event
  payment_disputed : (payment_id : ℕ) (customer : ℕ) (reason : String) → Event
  dispute_resolved : (payment_id : ℕ) (release_to_merchant : Bool) (resolved_by : ℕ) → Event
  dispute_escalated : (payment_id : ℕ) (elapsed_seconds : ℕ) → Event
  admin_transfer_proposed : (current_admin : ℕ) (proposed_admin : ℕ) → Event
  admin_transferred : (old_admin : ℕ) (new_admin : ℕ) → Event
  contract_upgraded : (old_version : ℕ) (new_version : ℕ) (by_admin : ℕ) → Event
  contract_paused : (admin : ℕ) (reason : String) (timestamp : ℕ) → Event
  contract_resumed : (admin : ℕ) (timestamp : ℕ) → Event

-- A call of the payments contract, and its storage with what it has done outside.
abbrev pub Action : Type 0 → Type 0
Action A = Host.Action Error Store Event A

abbrev pub World : Type 0
World = Host.World Store Event

unfoldable pub emit_payment_created : ℕ → ℕ → ℕ → ℤ → ℕ → Action ⊤
emit_payment_created payment_id customer merchant amount token =
    emit (Event.payment_created payment_id customer merchant amount token)

unfoldable pub emit_batch_payment_created : ℕ → ℕ → ℤ → Action ⊤
emit_batch_payment_created customer payment_count total_amount =
    emit (Event.batch_payment_created customer payment_count total_amount)

unfoldable pub emit_payment_status_changed : ℕ → PaymentStatus → PaymentStatus → Action ⊤
emit_payment_status_changed payment_id old_status new_status =
    emit (Event.payment_status_changed payment_id old_status new_status)

unfoldable pub emit_payment_completed : ℕ → ℕ → ℤ → ℕ → Action ⊤
emit_payment_completed payment_id merchant amount completed_at =
    emit (Event.payment_completed payment_id merchant amount completed_at)

unfoldable pub emit_payment_expired : ℕ → ℕ → ℤ → ℕ → Action ⊤
emit_payment_expired payment_id customer amount expired_at =
    emit (Event.payment_expired payment_id customer amount expired_at)

unfoldable pub emit_payment_partial_refund : ℕ → ℕ → ℤ → ℤ → Action ⊤
emit_payment_partial_refund payment_id customer refund_amount remaining =
    emit (Event.payment_partial_refund payment_id customer refund_amount remaining)

unfoldable pub emit_subscription_charged : ℕ → ℕ → ℕ → ℤ → ℕ → Action ⊤
emit_subscription_charged subscription_id subscriber merchant amount charged_at =
    emit (Event.subscription_charged subscription_id subscriber merchant amount charged_at)

unfoldable pub emit_subscription_cancelled : ℕ → ℕ → Action ⊤
emit_subscription_cancelled subscription_id cancelled_by =
    emit (Event.subscription_cancelled subscription_id cancelled_by)

unfoldable pub emit_batch_settlement_processed : ℕ → ℤ → ℤ → ℕ → Action ⊤
emit_batch_settlement_processed merchant total_amount fee payment_count =
    emit (Event.batch_settlement_processed merchant total_amount fee payment_count)

unfoldable pub emit_payment_disputed : ℕ → ℕ → String → Action ⊤
emit_payment_disputed payment_id customer reason =
    emit (Event.payment_disputed payment_id customer reason)

unfoldable pub emit_dispute_resolved : ℕ → Bool → ℕ → Action ⊤
emit_dispute_resolved payment_id release_to_merchant resolved_by =
    emit (Event.dispute_resolved payment_id release_to_merchant resolved_by)

unfoldable pub emit_dispute_escalated : ℕ → ℕ → Action ⊤
emit_dispute_escalated payment_id elapsed_seconds =
    emit (Event.dispute_escalated payment_id elapsed_seconds)

unfoldable pub emit_admin_transfer_proposed : ℕ → ℕ → Action ⊤
emit_admin_transfer_proposed current_admin proposed_admin =
    emit (Event.admin_transfer_proposed current_admin proposed_admin)

unfoldable pub emit_admin_transferred : ℕ → ℕ → Action ⊤
emit_admin_transferred old_admin new_admin = emit (Event.admin_transferred old_admin new_admin)

unfoldable pub emit_contract_upgraded : ℕ → ℕ → ℕ → Action ⊤
emit_contract_upgraded old_version new_version by_admin =
    emit (Event.contract_upgraded old_version new_version by_admin)

unfoldable pub emit_contract_paused : ℕ → String → ℕ → Action ⊤
emit_contract_paused admin reason timestamp = emit (Event.contract_paused admin reason timestamp)

unfoldable pub emit_contract_resumed : ℕ → ℕ → Action ⊤
emit_contract_resumed admin timestamp = emit (Event.contract_resumed admin timestamp)

unfoldable pub emit_payment_receipt_issued : ℕ → ℕ → Action ⊤
emit_payment_receipt_issued payment_id receipt_hash =
    emit (Event.payment_receipt_issued payment_id receipt_hash)

unfoldable pub emit_fee_collected : ℕ → ℤ → ℕ → ℕ → Action ⊤
emit_fee_collected payment_id fee_amount fee_recipient token =
    emit (Event.fee_collected payment_id fee_amount fee_recipient token)

unfoldable pub emit_payment_split_completed : ℕ → List SplitTransfer → Action ⊤
emit_payment_split_completed payment_id splits =
    emit (Event.payment_split_completed payment_id splits)

unfoldable pub emit_payment_scheduled : ℕ → ℕ → Action ⊤
emit_payment_scheduled payment_id execute_after =
    emit (Event.payment_scheduled payment_id execute_after)

unfoldable pub emit_scheduled_payment_executed : ℕ → Action ⊤
emit_scheduled_payment_executed payment_id = emit (Event.scheduled_payment_executed payment_id)

unfoldable pub emit_merchant_tier_updated : ℕ → ℕ → ℤ → Action ⊤
emit_merchant_tier_updated merchant new_tier_bps volume =
    emit (Event.merchant_tier_updated merchant new_tier_bps volume)

unfoldable pub emit_multi_token_payment_created : ℕ → ℕ → ℕ → ℤ → ℕ → ℤ → ℤ → Action ⊤
emit_multi_token_payment_created payment_id customer merchant amount_usdc payment_token token_amount
      oracle_price =
    emit (
      Event.multi_token_payment_created payment_id customer merchant amount_usdc payment_token
        token_amount oracle_price)
