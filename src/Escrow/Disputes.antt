-- ===== src/Escrow/Disputes.antt =====
-- Disputes: contracts/ahjoor-escrow/src/lib.rs (`dispute_escrow`, `resolve_dispute`,
-- `check_escalation`, `get_dispute`).
use ahjoorxmr_contract.Base.{
  ℕ, Bool, true, false, not, ◌&&◌, ◌||◌, Option, none, some, String, if◌then◌else◌, ltb, ◌/=◌, ◌==◌,
  unwrap_or, put, ℤ, pos, ◌-ℤ◌, ◌*ℤ◌, ◌/ℤ◌, leb_ℤ, ltb_ℤ, checked_i128, checked_sub,
}
use ahjoorxmr_contract.Host.{
  ⊤, ◌>>=◌, ◌>>◌, pure, panic_if, expect, checked, when, gets, modify, timestamp, require_auth,
}
use ahjoorxmr_contract.Escrow.Types.{
  EscrowStatus, Dispute, Error, default_dispute_timeout_seconds, is_open_escrow_status,
  is_disputed_status, is_partially_disputed_status,
}
use ahjoorxmr_contract.Escrow.Events.{
  Action, emit_partial_dispute_raised, emit_escrow_disputed, emit_protocol_fee_paid,
  emit_dispute_resolved, emit_dispute_escalated,
}
use ahjoorxmr_contract.Escrow.Admin.{require_not_paused}
use ahjoorxmr_contract.Escrow.Create.{get_escrow, set_escrow}
use ahjoorxmr_contract.Escrow.Release.{pay, update_last_buyer_action}

unfoldable pub get_dispute : ℕ → Action Dispute
get_dispute escrow_id = do expect (← gets (λ s. s.dispute escrow_id)) Error.dispute_not_found

unfoldable pub dispute_escrow : ℕ → ℕ → String → ℤ → Action ⊤
unfolding require_not_paused get_escrow set_escrow update_last_buyer_action pay
    emit_partial_dispute_raised emit_escrow_disputed
dispute_escrow caller escrow_id reason dispute_amount = do
  require_not_paused
  require_auth caller
  e ← get_escrow escrow_id
  panic_if (not (is_open_escrow_status e.status)) Error.escrow_not_active
  panic_if ((caller /= e.buyer) && (caller /= e.seller)) Error.not_buyer_or_seller
  panic_if (leb_ℤ dispute_amount (pos 0) || ltb_ℤ e.amount dispute_amount) Error.bad_dispute_amount
  when (caller == e.buyer) (update_last_buyer_action e)
  released_amount ← checked (checked_i128 (e.amount -ℤ dispute_amount))
  when (ltb_ℤ (pos 0) released_amount) (pay e.token e.seller released_amount)
  set_escrow escrow_id (record e {
    amount = dispute_amount;
    status =
        if ltb_ℤ (pos 0) released_amount
        then EscrowStatus.partially_disputed
        else EscrowStatus.disputed;
  })
  now ← timestamp
  modify (λ s. record s {
    dispute = put s.dispute escrow_id (
        some (record {
          escrow_id = escrow_id;
          reason = reason;
          created_at = now;
          resolved = false;
          dispute_amount = dispute_amount;
          timeout_seconds = e.dispute_timeout_seconds;
        }));
  })
  if ltb_ℤ (pos 0) released_amount
      then emit_partial_dispute_raised escrow_id dispute_amount released_amount
      else emit_escrow_disputed escrow_id caller reason

-- The protocol fee goes to its recipient, where there is a fee.
unfoldable pub pay_protocol_fee : ℕ → ℕ → ℤ → Action ⊤
unfolding pay emit_protocol_fee_paid
pay_protocol_fee escrow_id token protocol_fee = do
  fee_recipient ← expect (← gets (λ s. s.fee_recipient)) Error.fee_recipient_not_set
  pay token fee_recipient protocol_fee
  emit_protocol_fee_paid escrow_id protocol_fee fee_recipient

mark_resolved : ℕ → Option Dispute → Action ⊤
mark_resolved escrow_id none = pure tt
mark_resolved escrow_id (some d) =
    modify
      (λ s. record s { dispute = put s.dispute escrow_id (some (record d { resolved = true })) })

unfoldable pub resolve_dispute : ℕ → ℕ → Bool → Action ⊤
unfolding require_not_paused get_escrow set_escrow pay pay_protocol_fee mark_resolved
    emit_dispute_resolved
resolve_dispute arbiter escrow_id release_to_seller = do
  require_not_paused
  require_auth arbiter
  e ← get_escrow escrow_id
  panic_if (not (is_disputed_status e.status) && not (is_partially_disputed_status e.status))
      Error.not_disputed
  panic_if (arbiter /= e.arbiter) Error.not_arbiter
  fee_bps ← gets (λ s. unwrap_or s.protocol_fee_bps 0)
  product ← checked (checked_i128 (e.amount *ℤ pos fee_bps))
  let protocol_fee = product /ℤ 10000
  when (ltb_ℤ (pos 0) protocol_fee) (pay_protocol_fee escrow_id e.token protocol_fee)
  winner_amount ← checked (checked_i128 (e.amount -ℤ protocol_fee))
  pay e.token (if release_to_seller then e.seller else e.buyer) winner_amount
  set_escrow escrow_id (record e {
    status = if release_to_seller then EscrowStatus.released else EscrowStatus.refunded;
  })
  raised ← gets (λ s. s.dispute escrow_id)
  mark_resolved escrow_id raised
  emit_dispute_resolved escrow_id release_to_seller arbiter

escalate : ℕ → Dispute → Action Bool
unfolding emit_dispute_escalated
escalate escrow_id d = if d.resolved then pure false else do
  default_timeout ← gets (λ s. unwrap_or s.default_dispute_timeout default_dispute_timeout_seconds)
  let effective_timeout = unwrap_or d.timeout_seconds default_timeout
  now ← timestamp
  elapsed ← checked (checked_sub now d.created_at)
  if ltb effective_timeout elapsed
      then emit_dispute_escalated escrow_id effective_timeout >> pure true
      else pure false

unfoldable pub check_escalation : ℕ → Action Bool
unfolding get_escrow get_dispute escalate
check_escalation escrow_id = do
  e ← get_escrow escrow_id
  if not (is_disputed_status e.status) && not (is_partially_disputed_status e.status)
      then pure false
      else get_dispute escrow_id >>= escalate escrow_id
