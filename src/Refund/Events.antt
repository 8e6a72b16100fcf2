-- ===== src/Refund/Events.antt =====
-- The events of the refund contract and the functions that publish them:
-- contracts/ahjoor-refund/src/events.rs.
use ahjoorxmr_contract.Base.{ℕ, ℤ, Bool, String}
use ahjoorxmr_contract.Host
use ahjoorxmr_contract.Host.{emit, ⊤}
use ahjoorxmr_contract.Refund.Types.{Error, Store}

-- One constructor for each event; its fields in the order of the source.
pub data Event : Type 0 where
  refund_reason_recorded : (refund_id : ℕ) (reason_code : ℕ) → Event
  refund_auto_rejected : (refund_id : ℕ) (elapsed_seconds : ℕ) → Event
  refund_appealed : (refund_id : ℕ) (customer : ℕ) → Event
  appeal_resolved : (refund_id : ℕ) (approved : Bool) → Event
  refund_requested :
      (refund_id : ℕ) (customer : ℕ) (amount : ℤ) (token : ℕ) (reason : String) → Event
  refund_approved : (refund_id : ℕ) (approved_by : ℕ) (approved_at : ℕ) → Event
  refund_rejected :
      (refund_id : ℕ) (rejected_by : ℕ) (rejection_reason : String) (rejected_at : ℕ) → Event
  refund_processed : (refund_id : ℕ) (customer : ℕ) (amount : ℤ) (processed_at : ℕ) → Event
  contract_upgraded : (old_version : ℕ) (new_version : ℕ) (by_admin : ℕ) → Event
  contract_paused : (admin : ℕ) (reason : String) (timestamp : ℕ) → Event
  contract_resumed : (admin : ℕ) (timestamp : ℕ) → Event
  refund_auto_approved : (refund_id : ℕ) (customer : ℕ) (amount : ℤ) → Event
  refund_auto_approved_whitelist : (refund_id : ℕ) (merchant : ℕ) (amount : ℤ) → Event
  escrow_refund_registered : (refund_id : ℕ) (escrow_id : ℕ) (buyer : ℕ) (amount : ℤ) → Event
  refund_fee_collected : (refund_id : ℕ) (fee_amount : ℤ) → Event
  partial_refund_cap_applied : (refund_id : ℕ) (remaining_refundable : ℤ) → Event
  refund_tier_applied : (refund_id : ℕ) (tier_bps : ℕ) (max_refundable : ℤ) → Event
  merchant_initiated_refund :
      (refund_id : ℕ) (payment_id : ℕ) (merchant : ℕ) (amount : ℤ) (reason_code : ℕ) → Event
  bulk_refund_processed : (count : ℕ) (total_amount : ℤ) → Event
  refund_cooldown_active : (customer : ℕ) (next_eligible_at : ℕ) → Event
  delegate_added : (merchant : ℕ) (delegate : ℕ) → Event
  refund_approved_by_delegate : (refund_id : ℕ) (delegate : ℕ) → Event
  refund_request_cancelled : (refund_id : ℕ) (cancelled_by : ℕ) → Event

-- A call of the refund contract, and its storage with what it has done outside.
abbrev pub Action : Type 0 → Type 0
Action A = Host.Action Error Store Event A

abbrev pub World : Type 0
World = Host.World Store Event

unfoldable pub emit_refund_requested : ℕ → ℕ → ℤ → ℕ → String → Action ⊤
emit_refund_requested refund_id customer amount token reason =
    emit (Event.refund_requested refund_id customer amount token reason)

unfoldable pub emit_refund_approved : ℕ → ℕ → ℕ → Action ⊤
emit_refund_approved refund_id approved_by approved_at =
    emit (Event.refund_approved refund_id approved_by approved_at)

unfoldable pub emit_refund_rejected : ℕ → ℕ → String → ℕ → Action ⊤
emit_refund_rejected refund_id rejected_by rejection_reason rejected_at =
    emit (Event.refund_rejected refund_id rejected_by rejection_reason rejected_at)

unfoldable pub emit_refund_processed : ℕ → ℕ → ℤ → ℕ → Action ⊤
emit_refund_processed refund_id customer amount processed_at =
    emit (Event.refund_processed refund_id customer amount processed_at)

unfoldable pub emit_contract_upgraded : ℕ → ℕ → ℕ → Action ⊤
emit_contract_upgraded old_version new_version by_admin =
    emit (Event.contract_upgraded old_version new_version by_admin)

unfoldable pub emit_refund_auto_approved : ℕ → ℕ → ℤ → Action ⊤
emit_refund_auto_approved refund_id customer amount =
    emit (Event.refund_auto_approved refund_id customer amount)

unfoldable pub emit_partial_refund_cap_applied : ℕ → ℤ → Action ⊤
emit_partial_refund_cap_applied refund_id remaining_refundable =
    emit (Event.partial_refund_cap_applied refund_id remaining_refundable)

unfoldable pub emit_contract_paused : ℕ → String → ℕ → Action ⊤
emit_contract_paused admin reason timestamp = emit (Event.contract_paused admin reason timestamp)

unfoldable pub emit_contract_resumed : ℕ → ℕ → Action ⊤
emit_contract_resumed admin timestamp = emit (Event.contract_resumed admin timestamp)

unfoldable pub emit_refund_auto_approved_whitelist : ℕ → ℕ → ℤ → Action ⊤
emit_refund_auto_approved_whitelist refund_id merchant amount =
    emit (Event.refund_auto_approved_whitelist refund_id merchant amount)

unfoldable pub emit_escrow_refund_registered : ℕ → ℕ → ℕ → ℤ → Action ⊤
emit_escrow_refund_registered refund_id escrow_id buyer amount =
    emit (Event.escrow_refund_registered refund_id escrow_id buyer amount)

unfoldable pub emit_refund_fee_collected : ℕ → ℤ → Action ⊤
emit_refund_fee_collected refund_id fee_amount =
    emit (Event.refund_fee_collected refund_id fee_amount)

unfoldable pub emit_refund_reason_recorded : ℕ → ℕ → Action ⊤
emit_refund_reason_recorded refund_id reason_code =
    emit (Event.refund_reason_recorded refund_id reason_code)

unfoldable pub emit_refund_auto_rejected : ℕ → ℕ → Action ⊤
emit_refund_auto_rejected refund_id elapsed_seconds =
    emit (Event.refund_auto_rejected refund_id elapsed_seconds)

unfoldable pub emit_refund_tier_applied : ℕ → ℕ → ℤ → Action ⊤
emit_refund_tier_applied refund_id tier_bps max_refundable =
    emit (Event.refund_tier_applied refund_id tier_bps max_refundable)

unfoldable pub emit_merchant_initiated_refund : ℕ → ℕ → ℕ → ℤ → ℕ → Action ⊤
emit_merchant_initiated_refund refund_id payment_id merchant amount reason_code =
    emit (Event.merchant_initiated_refund refund_id payment_id merchant amount reason_code)

unfoldable pub emit_appeal_resolved : ℕ → Bool → Action ⊤
emit_appeal_resolved refund_id approved = emit (Event.appeal_resolved refund_id approved)

unfoldable pub emit_bulk_refund_processed : ℕ → ℤ → Action ⊤
emit_bulk_refund_processed count total_amount =
    emit (Event.bulk_refund_processed count total_amount)

unfoldable pub emit_refund_appealed : ℕ → ℕ → Action ⊤
emit_refund_appealed refund_id customer = emit (Event.refund_appealed refund_id customer)

unfoldable pub emit_refund_cooldown_active : ℕ → ℕ → Action ⊤
emit_refund_cooldown_active customer next_eligible_at =
    emit (Event.refund_cooldown_active customer next_eligible_at)

unfoldable pub emit_delegate_added : ℕ → ℕ → Action ⊤
emit_delegate_added merchant delegate = emit (Event.delegate_added merchant delegate)

unfoldable pub emit_refund_approved_by_delegate : ℕ → ℕ → Action ⊤
emit_refund_approved_by_delegate refund_id delegate =
    emit (Event.refund_approved_by_delegate refund_id delegate)

unfoldable pub emit_refund_request_cancelled : ℕ → ℕ → Action ⊤
emit_refund_request_cancelled refund_id cancelled_by =
    emit (Event.refund_request_cancelled refund_id cancelled_by)
