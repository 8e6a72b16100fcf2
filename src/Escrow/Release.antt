-- ===== src/Escrow/Release.antt =====
-- The ways out of an escrow that is not disputed, and the renewal that a release starts:
-- contracts/ahjoor-escrow/src/lib.rs (`release_escrow`, `partial_release`, `auto_release_expired`,
-- `claim_inactivity_release`, `try_auto_renew`, `update_last_buyer_action`).
use ahjoorxmr_contract.Base.{
  ℕ, ◌+◌, ◌-◌, Bool, not, ◌&&◌, List, [], ◌∷◌, some, if◌then◌else◌, ltb, leb, ◌==◌, ◌/=◌, unwrap_or,
  put, length, ℤ, pos, ◌-ℤ◌, ◌+ℤ◌, ◌*ℤ◌, ◌/ℤ◌, leb_ℤ, ltb_ℤ, eq_ℤ, checked_u64, checked_i128,
  checked_sub,
}
use ahjoorxmr_contract.Host.{
  ⊤, ◌>>=◌, ◌>>◌, pure, panic_if, checked, when, gets, modify, timestamp, current_contract_address,
  require_auth, call_token, TokenCall,
}
use ahjoorxmr_contract.Escrow.Types.{EscrowStatus, Escrow, Error, is_open_escrow_status}
use ahjoorxmr_contract.Escrow.Events.{
  Action, emit_escrow_released, emit_multi_party_escrow_released, emit_partial_released,
  emit_escrow_refunded, emit_inactivity_release_triggered, emit_escrow_auto_renewed,
}
use ahjoorxmr_contract.Escrow.Admin.{require_not_paused}
use ahjoorxmr_contract.Escrow.Create.{get_escrow, set_escrow, next_escrow_id, set_last_buyer_action}

-- `client.transfer(&env.current_contract_address(), to, amount)`
unfoldable pub pay : ℕ → ℕ → ℤ → Action ⊤
pay token to amount = do
  self ← current_contract_address
  call_token (TokenCall.transfer token self to amount)

unfoldable pub update_last_buyer_action : Escrow → Action ⊤
unfolding set_last_buyer_action
update_last_buyer_action e = do
  now ← timestamp
  when (not (e.buyer_inactivity_release_seconds == 0)) (set_last_buyer_action e.id now)

-- The loop over the sellers after the first: each gets its share, rounded down. The result is what
-- was handed out.
unfoldable pub pay_shares : ℕ → ℤ → List (ℕ × ℕ) → ℤ → Action ℤ
pay_shares token total [] distributed = pure distributed
pay_shares token total ((addr, bps) ∷ rest) distributed = do
  product ← checked (checked_i128 (total *ℤ pos bps))
  let share = product /ℤ 10000
  when (ltb_ℤ (pos 0) share) (pay token addr share)
  next ← checked (checked_i128 (distributed +ℤ share))
  pay_shares token total rest next

-- The multi-party branch: the first seller gets the remainder.
unfoldable pub pay_sellers : ℕ → ℤ → List (ℕ × ℕ) → Action ⊤
unfolding pay
pay_sellers token total [] = pure tt
pay_sellers token total ((first_addr, _) ∷ rest) = do
  distributed ← pay_shares token total rest (pos 0)
  first_share ← checked (checked_i128 (total -ℤ distributed))
  when (ltb_ℤ (pos 0) first_share) (pay token first_addr first_share)

-- The transfers and the event of `release_escrow`.
unfoldable pub pay_out : ℕ → Escrow → Action ⊤
unfolding pay emit_escrow_released emit_multi_party_escrow_released
pay_out escrow_id e =
    if leb (length e.sellers) 1
    then pay e.token e.seller e.amount >> emit_escrow_released escrow_id e.seller e.amount
    else pay_sellers e.token e.amount e.sellers
      >> emit_multi_party_escrow_released escrow_id e.amount

unfoldable pub renew : ℕ → Escrow → Action ⊤
unfolding set_escrow set_last_buyer_action emit_escrow_auto_renewed
renew old_escrow_id source = do
  allowance ← gets (λ s. unwrap_or (s.renewal_allowance old_escrow_id) 0)
  panic_if (allowance == 0) Error.insufficient_renewal_allowance
  let duration = source.deadline - source.created_at
  panic_if (duration == 0) Error.renewal_duration_not_positive
  self ← current_contract_address
  call_token (TokenCall.transfer_from source.token self source.buyer self source.amount)
  new_escrow_id ← next_escrow_id
  now ← timestamp
  renewals_remaining ←
      if source.renewal_count == 0
      then pure 0
      else checked (checked_sub source.renewals_remaining 1)
  deadline ← checked (checked_u64 (now + duration))
  when (ltb 0 source.buyer_inactivity_release_seconds) (set_last_buyer_action new_escrow_id now)
  set_escrow new_escrow_id (record source {
    id = new_escrow_id;
    status = EscrowStatus.active;
    created_at = now;
    deadline = deadline;
    renewals_remaining = renewals_remaining;
  })
  remaining_allowance ← checked (checked_sub allowance 1)
  modify (λ s. record s {
    renewal_allowance = put s.renewal_allowance new_escrow_id (some remaining_allowance);
  })
  emit_escrow_auto_renewed old_escrow_id new_escrow_id renewals_remaining

-- The two early returns of `try_auto_renew`, negated.
unfoldable pub renews : Escrow → Bool
renews source =
    source.auto_renew && not ((source.renewal_count /= 0) && (source.renewals_remaining == 0))

unfoldable pub try_auto_renew : ℕ → Escrow → Action ⊤
try_auto_renew old_escrow_id source = when (renews source) (renew old_escrow_id source)

unfoldable pub release_escrow : ℕ → ℕ → Action ⊤
unfolding require_not_paused get_escrow set_escrow update_last_buyer_action
release_escrow caller escrow_id = do
  require_not_paused
  require_auth caller
  e ← get_escrow escrow_id
  panic_if (not (is_open_escrow_status e.status)) Error.escrow_not_active
  panic_if ((caller /= e.buyer) && (caller /= e.arbiter)) Error.not_buyer_or_arbiter
  when (caller == e.buyer) (update_last_buyer_action e)
  pay_out escrow_id e
  set_escrow escrow_id (record e { status = EscrowStatus.released })
  try_auto_renew escrow_id e

unfoldable pub partial_release : ℕ → ℕ → ℤ → Action ⊤
unfolding require_not_paused get_escrow set_escrow pay emit_partial_released
partial_release caller escrow_id release_amount = do
  require_not_paused
  require_auth caller
  e ← get_escrow escrow_id
  panic_if (not (is_open_escrow_status e.status)) Error.escrow_not_active
  panic_if ((caller /= e.buyer) && (caller /= e.arbiter)) Error.not_buyer_or_arbiter
  panic_if (leb_ℤ release_amount (pos 0)) Error.release_amount_not_positive
  panic_if (ltb_ℤ e.amount release_amount) Error.release_amount_exceeds_balance
  pay e.token e.seller release_amount
  amount ← checked (checked_i128 (e.amount -ℤ release_amount))
  set_escrow escrow_id (record e {
    amount = amount;
    status = if eq_ℤ amount (pos 0) then EscrowStatus.released else EscrowStatus.partially_released;
  })
  emit_partial_released escrow_id release_amount amount

unfoldable pub auto_release_expired : ℕ → Action ⊤
unfolding require_not_paused get_escrow set_escrow pay emit_escrow_refunded
auto_release_expired escrow_id = do
  require_not_paused
  e ← get_escrow escrow_id
  panic_if (not (is_open_escrow_status e.status)) Error.escrow_not_active
  now ← timestamp
  panic_if (leb now e.deadline) Error.not_expired_yet
  require_auth e.buyer
  pay e.token e.buyer e.amount
  set_escrow escrow_id (record e { status = EscrowStatus.refunded })
  emit_escrow_refunded escrow_id e.buyer e.amount

unfoldable pub claim_inactivity_release : ℕ → ℕ → Action ⊤
unfolding require_not_paused get_escrow set_escrow pay emit_inactivity_release_triggered
claim_inactivity_release seller escrow_id = do
  require_not_paused
  require_auth seller
  e ← get_escrow escrow_id
  panic_if (e.buyer_inactivity_release_seconds == 0) Error.inactivity_release_disabled
  panic_if (not (is_open_escrow_status e.status)) Error.escrow_not_active
  panic_if (seller /= e.seller) Error.not_seller
  last_action ← gets (λ s. unwrap_or (s.last_buyer_action escrow_id) e.created_at)
  now ← timestamp
  let inactivity_seconds = now - last_action
  panic_if (ltb inactivity_seconds e.buyer_inactivity_release_seconds)
      Error.inactivity_window_not_elapsed
  pay e.token e.seller e.amount
  set_escrow escrow_id (record e { status = EscrowStatus.released })
  emit_inactivity_release_triggered escrow_id seller inactivity_seconds
