-- ===== src/Escrow/Extension.antt =====
-- What an accepted deadline extension does: `accept_deadline_extension` of
-- contracts/ahjoor-escrow/src/lib.rs.
use ahjoorxmr_contract.Base.{
  ℕ, ◌+◌, ◌≤◌, ◌<◌, ◌≡◌, ◌≢◌, ◌⊎◌, inl, inr, true, false, none, some, Option-cases, put, arith,
}
use ahjoorxmr_contract.Host.{Env, ok}
use ahjoorxmr_contract.Escrow.Types.{
  Escrow, DeadlineProposal, deadline_extension_proposal_window, is_terminal_escrow_status,
  is_disputed_status,
}
use ahjoorxmr_contract.Escrow.Events.{World}
use ahjoorxmr_contract.Escrow.Deadlines.{accept_deadline_extension}

-- The acceptance of a proposal: by the other party, in time, for a later deadline.
pub record Accepts (caller id : ℕ) (env : Env) (w w' : World) (e : Escrow) (p : DeadlineProposal)
    : Type 0 where
  pub found : w.store.escrow id ≡ some e
  pub proposed : w.store.deadline_proposal id ≡ some p
  pub authorised : env.authorized caller ≡ true
  pub is_party : (caller ≡ e.buyer) ⊎ (caller ≡ e.seller)
  pub is_other : caller ≢ p.proposer
  pub in_time : env.timestamp ≤ p.proposed_at + deadline_extension_proposal_window
  pub later : e.deadline < p.new_deadline
  pub not_over : is_terminal_escrow_status e.status ≡ false
  pub not_disputed : is_disputed_status e.status ≡ false
  pub extended :
      w'.store.escrow ≡ put w.store.escrow id (some (record e { deadline = p.new_deadline }))
  pub used_up : w'.store.deadline_proposal ≡ put w.store.deadline_proposal id none
  pub no_calls : w'.calls ≡ w.calls

-- An extension that is accepted was proposed by somebody else than the accepting caller, who is the
-- buyer or the seller and has authorised the call; the proposal is at most 86400 seconds old, the
-- escrow is neither over nor `Disputed`, and its deadline moves to the later one that was proposed.
-- Nothing else of the escrow changes, the proposal is used up, and no tokens move.
pub accept-Accepts :
    (caller id : ℕ) (env : Env) (w w' : World)
    → accept_deadline_extension caller id env w ≡ ok (tt, w')
    → (e : Escrow) × (p : DeadlineProposal) × Accepts caller id env w w' e p
unfolding accept_deadline_extension
accept-Accepts caller id env w w' h = elim (Option-cases (w.store.escrow id)) [
  | inl missing ↦ absurd (ground arith)
  | inr (e, f) ↦ elim (Option-cases (w.store.deadline_proposal id)) [
    | inl none_there ↦ absurd (ground arith)
    | inr (p, g) ↦ (
      e,
      p,
      record {
        found = f;
        proposed = g;
        authorised = ground arith;
        is_party = ground arith;
        is_other = ground arith;
        in_time = ground arith;
        later = ground arith;
        not_over = ground arith;
        not_disputed = ground arith;
        extended = ground arith;
        used_up = ground arith;
        no_calls = ground arith;
      },
    )
  ]
]
