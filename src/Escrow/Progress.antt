-- ===== src/Escrow/Progress.antt =====
-- What is enough for a call to succeed: `auto_release_expired` and `resume_contract` of
-- contracts/ahjoor-escrow/src/lib.rs.
use ahjoorxmr_contract.Base.{
  ℕ, ◌<◌, ◌≡◌, inl, inr, true, false, ◌∷◌, some, arith, String, unwrap_or,
}
use ahjoorxmr_contract.Host.{Env, ok, TokenCall, Outcome-cases}
use ahjoorxmr_contract.Escrow.Types.{EscrowStatus, Escrow, is_open_escrow_status}
use ahjoorxmr_contract.Escrow.Events.{World}
use ahjoorxmr_contract.Escrow.Release.{auto_release_expired}
use ahjoorxmr_contract.Escrow.Admin.{pause_contract, resume_contract}

-- While the contract is not paused, the buyer of an open escrow whose deadline has passed gets the
-- whole amount back by its own authorisation alone, if the token contract accepts the transfer.
pub refund_succeeds :
    (id : ℕ) (e : Escrow) (env : Env) (w : World)
    → unwrap_or w.store.paused false ≡ false
    → w.store.escrow id ≡ some e
    → is_open_escrow_status e.status ≡ true
    → e.deadline < env.timestamp
    → env.authorized e.buyer ≡ true
    → let refund = TokenCall.transfer e.token env.current_contract_address e.buyer e.amount in
      env.token_accepts w.calls refund ≡ true
      → (w' : World) × (auto_release_expired id env w ≡ ok (tt, w'))
        × (w'.calls ≡ refund ∷ w.calls)
        × (w'.store.escrow id ≡ some (record e { status = EscrowStatus.refunded }))
unfolding auto_release_expired
refund_succeeds id e env w running f opened late auth accepts =
    elim (Outcome-cases (auto_release_expired id env w)) [
      | inl ((_, w'), h) ↦ (w', h, ground arith, ground arith)
      | inr (inl (x, h)) ↦ absurd (ground arith)
      | inr (inr (x, h)) ↦ absurd (ground arith)
    ]

-- The admin can end any pause: after a pause, a call to resume that the same admin authorises
-- succeeds, whenever it is made before another transaction, and the contract is not paused then.
pub resume_after_pause :
    (admin : ℕ) (reason : String) (env later : Env) (w w1 : World)
    → pause_contract admin reason env w ≡ ok (tt, w1)
    → later.authorized admin ≡ true
    → (w2 : World) × (resume_contract admin later w1 ≡ ok (tt, w2))
      × (unwrap_or w1.store.paused false ≡ true)
      × (unwrap_or w2.store.paused false ≡ false)
      × (w2.store.escrow ≡ w.store.escrow)
      × (w2.calls ≡ w.calls)
unfolding pause_contract resume_contract
resume_after_pause admin reason env later w w1 h auth =
    elim (Outcome-cases (resume_contract admin later w1)) [
      | inl ((_, w2), k) ↦ (w2, k, ground arith, ground arith, ground arith, ground arith)
      | inr (inl (x, k)) ↦ absurd (ground arith)
      | inr (inr (x, k)) ↦ absurd (ground arith)
    ]
