-- ===== src/Escrow/Deadlines.antt =====
-- Deadline extensions: contracts/ahjoor-escrow/src/lib.rs (`propose_deadline_extension`,
-- `accept_deadline_extension`).
use ahjoorxmr_contract.Base.{ℕ, ◌+◌, ◌&&◌, ◌||◌, none, some, ltb, leb, ◌==◌, ◌/=◌, put, checked_u64}
use ahjoorxmr_contract.Host.{
  ⊤, ◌>>=◌, ◌>>◌, panic_if, expect, checked, gets, modify, timestamp, require_auth, when, fail,
}
use ahjoorxmr_contract.Escrow.Types.{
  Error, deadline_extension_proposal_window, is_terminal_escrow_status, is_disputed_status,
}
use ahjoorxmr_contract.Escrow.Events.{
  Action, emit_deadline_extension_proposed, emit_deadline_extended,
}
use ahjoorxmr_contract.Escrow.Create.{get_escrow, set_escrow}

unfoldable pub propose_deadline_extension : ℕ → ℕ → ℕ → Action ⊤
unfolding get_escrow emit_deadline_extension_proposed
propose_deadline_extension caller escrow_id new_deadline = do
  require_auth caller
  e ← get_escrow escrow_id
  panic_if ((caller /= e.buyer) && (caller /= e.seller)) Error.not_buyer_or_seller
  panic_if (is_disputed_status e.status || is_terminal_escrow_status e.status)
      Error.escrow_is_disputed
  panic_if (leb new_deadline e.deadline) Error.deadline_not_greater
  now ← timestamp
  modify (λ s. record s {
    deadline_proposal =
        put s.deadline_proposal escrow_id
          (some (record { proposer = caller; new_deadline = new_deadline; proposed_at = now }));
  })
  emit_deadline_extension_proposed escrow_id caller new_deadline now

unfoldable pub remove_deadline_proposal : ℕ → Action ⊤
remove_deadline_proposal escrow_id =
    modify (λ s. record s { deadline_proposal = put s.deadline_proposal escrow_id none })

unfoldable pub accept_deadline_extension : ℕ → ℕ → Action ⊤
unfolding get_escrow set_escrow remove_deadline_proposal emit_deadline_extended
accept_deadline_extension caller escrow_id = do
  require_auth caller
  e ← get_escrow escrow_id
  panic_if ((caller /= e.buyer) && (caller /= e.seller)) Error.not_buyer_or_seller
  panic_if (is_disputed_status e.status || is_terminal_escrow_status e.status)
      Error.escrow_is_disputed
  proposal ← expect (← gets (λ s. s.deadline_proposal escrow_id)) Error.no_proposal
  panic_if (caller == proposal.proposer) Error.own_proposal
  now ← timestamp
  window_end ← checked (checked_u64 (proposal.proposed_at + deadline_extension_proposal_window))
  when (ltb window_end now) (remove_deadline_proposal escrow_id >> fail Error.proposal_expired)
  when (leb proposal.new_deadline e.deadline)
      (remove_deadline_proposal escrow_id >> fail Error.deadline_not_greater)
  set_escrow escrow_id (record e { deadline = proposal.new_deadline })
  remove_deadline_proposal escrow_id
  emit_deadline_extended escrow_id e.deadline proposal.new_deadline
