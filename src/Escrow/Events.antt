-- ===== src/Escrow/Events.antt =====
-- The events of the escrow contract and the functions that publish them:
-- contracts/ahjoor-escrow/src/events.rs.
use ahjoorxmr_contract.Base.{ℕ, ℤ, Bool, String}
use ahjoorxmr_contract.Host
use ahjoorxmr_contract.Host.{emit, ⊤}
use ahjoorxmr_contract.Escrow.Types.{Error, Store}

-- One constructor for each event; its fields in the order of the source.
pub data Event : Type 0 where
  escrow_created :
      (escrow_id : ℕ) (buyer : ℕ) (seller : ℕ) (arbiter : ℕ) (amount : ℤ) (token : ℕ) (deadline : ℕ)
      → Event
  batch_escrow_created : (count : ℕ) (first_id : ℕ) (last_id : ℕ) → Event
  escrow_released : (escrow_id : ℕ) (seller : ℕ) (amount : ℤ) → Event
  partial_released : (escrow_id : ℕ) (released_amount : ℤ) (remaining_amount : ℤ) → Event
  escrow_disputed : (escrow_id : ℕ) (disputer : ℕ) (reason : String) → Event
  partial_dispute_raised : (escrow_id : ℕ) (dispute_amount : ℤ) (released_amount : ℤ) → Event
  dispute_resolved : (escrow_id : ℕ) (release_to_seller : Bool) (resolved_by : ℕ) → Event
  dispute_escalated : (escrow_id : ℕ) (timeout_seconds : ℕ) → Event
  escrow_protocol_fee_paid : (escrow_id : ℕ) (fee_amount : ℤ) (fee_recipient : ℕ) → Event
  escrow_refunded : (escrow_id : ℕ) (buyer : ℕ) (amount : ℤ) → Event
  contract_upgraded : (old_version : ℕ) (new_version : ℕ) (by_admin : ℕ) → Event
  deadline_extension_proposed :
      (escrow_id : ℕ) (proposer : ℕ) (new_deadline : ℕ) (proposed_at : ℕ) → Event
  deadline_extended : (escrow_id : ℕ) (old_deadline : ℕ) (new_deadline : ℕ) → Event
  contract_paused : (admin : ℕ) (reason : String) (timestamp : ℕ) → Event
  contract_resumed : (admin : ℕ) (timestamp : ℕ) → Event
  token_allowlisted : (admin : ℕ) (token : ℕ) → Event
  token_removed_from_allowlist : (admin : ℕ) (token : ℕ) → Event
  arbiter_pool_updated : (arbiter : ℕ) (added : Bool) → Event
  arbiter_assigned : (escrow_id : ℕ) (arbiter : ℕ) → Event
  evidence_submitted : (escrow_id : ℕ) (party : ℕ) (evidence_hash : ℕ) → Event
  escrow_auto_renewed : (old_escrow_id : ℕ) (new_escrow_id : ℕ) (renewals_remaining : ℕ) → Event
  buyer_role_transferred : (escrow_id : ℕ) (old_buyer : ℕ) (new_buyer : ℕ) → Event
  escrow_template_created : (template_id : ℕ) (creator : ℕ) → Event
  escrow_template_updated : (template_id : ℕ) (creator : ℕ) → Event
  escrow_template_deactivated : (template_id : ℕ) (creator : ℕ) → Event
  escrow_created_from_template : (escrow_id : ℕ) (template_id : ℕ) → Event
  escrow_metadata_updated : (escrow_id : ℕ) (new_hash : ℕ) (updated_by : ℕ) → Event
  multi_party_escrow_created : (escrow_id : ℕ) (sellers_count : ℕ) → Event
  multi_party_escrow_released : (escrow_id : ℕ) (total_amount : ℤ) → Event
  inactivity_release_triggered : (escrow_id : ℕ) (seller : ℕ) (inactivity_seconds : ℕ) → Event

-- A call of the escrow contract, and its state.
abbrev pub Action : Type 0 → Type 0
Action A = Host.Action Error Store Event A

abbrev pub World : Type 0
World = Host.World Store Event

unfoldable pub emit_escrow_created : ℕ → ℕ → ℕ → ℕ → ℤ → ℕ → ℕ → Action ⊤
emit_escrow_created escrow_id buyer seller arbiter amount token deadline =
    emit (escrow_created escrow_id buyer seller arbiter amount token deadline)

unfoldable pub emit_batch_escrow_created : ℕ → ℕ → ℕ → Action ⊤
emit_batch_escrow_created count first_id last_id =
    emit (batch_escrow_created count first_id last_id)

unfoldable pub emit_escrow_released : ℕ → ℕ → ℤ → Action ⊤
emit_escrow_released escrow_id seller amount = emit (escrow_released escrow_id seller amount)

unfoldable pub emit_partial_released : ℕ → ℤ → ℤ → Action ⊤
emit_partial_released escrow_id released_amount remaining_amount =
    emit (partial_released escrow_id released_amount remaining_amount)

unfoldable pub emit_escrow_disputed : ℕ → ℕ → String → Action ⊤
emit_escrow_disputed escrow_id disputer reason = emit (escrow_disputed escrow_id disputer reason)

unfoldable pub emit_partial_dispute_raised : ℕ → ℤ → ℤ → Action ⊤
emit_partial_dispute_raised escrow_id dispute_amount released_amount =
    emit (partial_dispute_raised escrow_id dispute_amount released_amount)

unfoldable pub emit_dispute_resolved : ℕ → Bool → ℕ → Action ⊤
emit_dispute_resolved escrow_id release_to_seller resolved_by =
    emit (dispute_resolved escrow_id release_to_seller resolved_by)

unfoldable pub emit_dispute_escalated : ℕ → ℕ → Action ⊤
emit_dispute_escalated escrow_id timeout_seconds =
    emit (dispute_escalated escrow_id timeout_seconds)

unfoldable pub emit_protocol_fee_paid : ℕ → ℤ → ℕ → Action ⊤
emit_protocol_fee_paid escrow_id fee_amount fee_recipient =
    emit (escrow_protocol_fee_paid escrow_id fee_amount fee_recipient)

unfoldable pub emit_escrow_refunded : ℕ → ℕ → ℤ → Action ⊤
emit_escrow_refunded escrow_id buyer amount = emit (escrow_refunded escrow_id buyer amount)

unfoldable pub emit_contract_upgraded : ℕ → ℕ → ℕ → Action ⊤
emit_contract_upgraded old_version new_version by_admin =
    emit (contract_upgraded old_version new_version by_admin)

unfoldable pub emit_deadline_extension_proposed : ℕ → ℕ → ℕ → ℕ → Action ⊤
emit_deadline_extension_proposed escrow_id proposer new_deadline proposed_at =
    emit (deadline_extension_proposed escrow_id proposer new_deadline proposed_at)

unfoldable pub emit_contract_paused : ℕ → String → ℕ → Action ⊤
emit_contract_paused admin reason timestamp = emit (contract_paused admin reason timestamp)

unfoldable pub emit_deadline_extended : ℕ → ℕ → ℕ → Action ⊤
emit_deadline_extended escrow_id old_deadline new_deadline =
    emit (deadline_extended escrow_id old_deadline new_deadline)

unfoldable pub emit_contract_resumed : ℕ → ℕ → Action ⊤
emit_contract_resumed admin timestamp = emit (contract_resumed admin timestamp)

unfoldable pub emit_token_allowlisted : ℕ → ℕ → Action ⊤
emit_token_allowlisted admin token = emit (token_allowlisted admin token)

unfoldable pub emit_token_removed_from_allowlist : ℕ → ℕ → Action ⊤
emit_token_removed_from_allowlist admin token = emit (token_removed_from_allowlist admin token)

unfoldable pub emit_escrow_template_created : ℕ → ℕ → Action ⊤
emit_escrow_template_created template_id creator =
    emit (escrow_template_created template_id creator)

unfoldable pub emit_escrow_template_updated : ℕ → ℕ → Action ⊤
emit_escrow_template_updated template_id creator =
    emit (escrow_template_updated template_id creator)

unfoldable pub emit_escrow_template_deactivated : ℕ → ℕ → Action ⊤
emit_escrow_template_deactivated template_id creator =
    emit (escrow_template_deactivated template_id creator)

unfoldable pub emit_escrow_created_from_template : ℕ → ℕ → Action ⊤
emit_escrow_created_from_template escrow_id template_id =
    emit (escrow_created_from_template escrow_id template_id)

unfoldable pub emit_arbiter_pool_updated : ℕ → Bool → Action ⊤
emit_arbiter_pool_updated arbiter added = emit (arbiter_pool_updated arbiter added)

unfoldable pub emit_arbiter_assigned : ℕ → ℕ → Action ⊤
emit_arbiter_assigned escrow_id arbiter = emit (arbiter_assigned escrow_id arbiter)

unfoldable pub emit_evidence_submitted : ℕ → ℕ → ℕ → Action ⊤
emit_evidence_submitted escrow_id party evidence_hash =
    emit (evidence_submitted escrow_id party evidence_hash)

unfoldable pub emit_escrow_auto_renewed : ℕ → ℕ → ℕ → Action ⊤
emit_escrow_auto_renewed old_escrow_id new_escrow_id renewals_remaining =
    emit (escrow_auto_renewed old_escrow_id new_escrow_id renewals_remaining)

unfoldable pub emit_buyer_role_transferred : ℕ → ℕ → ℕ → Action ⊤
emit_buyer_role_transferred escrow_id old_buyer new_buyer =
    emit (buyer_role_transferred escrow_id old_buyer new_buyer)

unfoldable pub emit_escrow_metadata_updated : ℕ → ℕ → ℕ → Action ⊤
emit_escrow_metadata_updated escrow_id new_hash updated_by =
    emit (escrow_metadata_updated escrow_id new_hash updated_by)

unfoldable pub emit_multi_party_escrow_created : ℕ → ℕ → Action ⊤
emit_multi_party_escrow_created escrow_id sellers_count =
    emit (multi_party_escrow_created escrow_id sellers_count)

unfoldable pub emit_multi_party_escrow_released : ℕ → ℤ → Action ⊤
emit_multi_party_escrow_released escrow_id total_amount =
    emit (multi_party_escrow_released escrow_id total_amount)

unfoldable pub emit_inactivity_release_triggered : ℕ → ℕ → ℕ → Action ⊤
emit_inactivity_release_triggered escrow_id seller inactivity_seconds =
    emit (inactivity_release_triggered escrow_id seller inactivity_seconds)
