-- ===== src/Escrow/Parties.antt =====
-- What the parties of an escrow record about it: contracts/ahjoor-escrow/src/lib.rs
-- (`submit_evidence`, `get_evidence`, `set_renewal_allowance`, `cancel_auto_renew`,
-- `transfer_buyer_role`, `update_metadata`).
use ahjoorxmr_contract.Base.{
  ℕ, false, not, ◌&&◌, List, [], ◌∷◌, ◌++◌, none, some, leb, ◌==◌, ◌/=◌, unwrap_or, put, length,
  ◌*ℤ◌, pos, checked_i128, saturating_add_u32,
}
use ahjoorxmr_contract.Host.{
  ⊤, ◌>>=◌, ◌>>◌, pure, panic_if, checked, when, gets, modify, timestamp, sequence,
  current_contract_address, require_auth, call_token, TokenCall,
}
use ahjoorxmr_contract.Escrow.Types.{
  EvidenceSubmission, Error, max_evidence_entries_per_party, is_active_status,
}
use ahjoorxmr_contract.Escrow.Events.{
  Action, emit_evidence_submitted, emit_buyer_role_transferred, emit_escrow_metadata_updated,
}
use ahjoorxmr_contract.Escrow.Admin.{require_not_paused}
use ahjoorxmr_contract.Escrow.Create.{get_escrow, set_escrow, set_escrow_metadata}
use ahjoorxmr_contract.Escrow.Release.{update_last_buyer_action}

unfoldable pub submit_evidence : ℕ → ℕ → ℕ → ℕ → Action ⊤
unfolding require_not_paused get_escrow update_last_buyer_action emit_evidence_submitted
submit_evidence party escrow_id evidence_hash evidence_uri_hash = do
  require_not_paused
  require_auth party
  e ← get_escrow escrow_id
  panic_if ((party /= e.buyer) && (party /= e.seller)) Error.not_buyer_or_seller
  when (party == e.buyer) (update_last_buyer_action e)
  entries ← gets (λ s. unwrap_or (s.evidence escrow_id party) [])
  panic_if (leb max_evidence_entries_per_party (length entries)) Error.too_many_evidence_entries
  now ← timestamp
  let submission : EvidenceSubmission = record {
    evidence_hash = evidence_hash;
    evidence_uri_hash = evidence_uri_hash;
    submitted_at = now;
  }
  modify (λ s. record s {
    evidence =
        put s.evidence escrow_id
          (put (s.evidence escrow_id) party (some (entries ++ (submission ∷ []))));
  })
  emit_evidence_submitted escrow_id party evidence_hash

-- One party's part of `get_evidence`.
abbrev pub with_entries : ℕ → List EvidenceSubmission → List (ℕ × List EvidenceSubmission)
with_entries party [] = []
with_entries party (x ∷ entries) = (party, x ∷ entries) ∷ []

unfoldable pub get_evidence : ℕ → Action (List (ℕ × List EvidenceSubmission))
unfolding get_escrow
get_evidence escrow_id = do
  e ← get_escrow escrow_id
  buyer_entries ← gets (λ s. unwrap_or (s.evidence escrow_id e.buyer) [])
  seller_entries ← gets (λ s. unwrap_or (s.evidence escrow_id e.seller) [])
  pure (with_entries e.buyer buyer_entries ++ with_entries e.seller seller_entries)

unfoldable pub set_renewal_allowance : ℕ → ℕ → ℕ → Action ⊤
unfolding require_not_paused get_escrow
set_renewal_allowance buyer escrow_id total_renewals = do
  require_not_paused
  require_auth buyer
  e ← get_escrow escrow_id
  panic_if (buyer /= e.buyer) Error.not_buyer
  panic_if (not e.auto_renew) Error.auto_renew_not_enabled
  total_amount ← checked (checked_i128 (e.amount *ℤ pos total_renewals))
  ledger ← sequence
  self ← current_contract_address
  call_token (TokenCall.approve e.token buyer self total_amount (saturating_add_u32 ledger 100000))
  modify (λ s. record s {
    renewal_allowance = put s.renewal_allowance escrow_id (some total_renewals);
  })

unfoldable pub cancel_auto_renew : ℕ → ℕ → Action ⊤
unfolding require_not_paused get_escrow set_escrow
cancel_auto_renew buyer escrow_id = do
  require_not_paused
  require_auth buyer
  e ← get_escrow escrow_id
  panic_if (buyer /= e.buyer) Error.not_buyer
  set_escrow escrow_id (record e { auto_renew = false; renewals_remaining = 0 })
  modify (λ s. record s { renewal_allowance = put s.renewal_allowance escrow_id none })

unfoldable pub transfer_buyer_role : ℕ → ℕ → ℕ → Action ⊤
unfolding require_not_paused get_escrow set_escrow emit_buyer_role_transferred
transfer_buyer_role current_buyer escrow_id new_buyer = do
  require_not_paused
  require_auth current_buyer
  panic_if (current_buyer == new_buyer) Error.same_buyer
  e ← get_escrow escrow_id
  panic_if (not (is_active_status e.status)) Error.escrow_not_active
  panic_if (e.buyer /= current_buyer) Error.not_buyer
  set_escrow escrow_id (record e { buyer = new_buyer })
  emit_buyer_role_transferred escrow_id e.buyer new_buyer

unfoldable pub update_metadata : ℕ → ℕ → ℕ → Action ⊤
unfolding get_escrow set_escrow set_escrow_metadata update_last_buyer_action
    emit_escrow_metadata_updated
update_metadata caller escrow_id new_hash = do
  require_auth caller
  e ← get_escrow escrow_id
  panic_if ((caller /= e.buyer) && (caller /= e.seller)) Error.not_buyer_or_seller
  when (caller == e.buyer) (update_last_buyer_action e)
  set_escrow escrow_id (record e { metadata_hash = some new_hash })
  now ← timestamp
  set_escrow_metadata escrow_id new_hash now
  emit_escrow_metadata_updated escrow_id new_hash caller
