-- ===== src/Escrow/Effects/Keeping.antt =====
-- The entry points that move no tokens of an escrow: the books stay, or one escrow is amended.
use ahjoorxmr_contract.Base.{
  ℕ, ◌≡◌, ◌≢◌, refl, inl, inr, arith, false, some, Option-cases, ◌*ℤ◌, pos, saturating_add_u32,
  ◌==◌,
}
use ahjoorxmr_contract.Host.{Env, TokenCall, ok}
use ahjoorxmr_contract.Escrow.Events.{World}
use ahjoorxmr_contract.Escrow.Deadlines.{propose_deadline_extension, accept_deadline_extension}
use ahjoorxmr_contract.Escrow.Parties.{
  submit_evidence, set_renewal_allowance, cancel_auto_renew, transfer_buyer_role, update_metadata,
}
use ahjoorxmr_contract.Escrow.Ledger.{books, Moves, one, stay, amend, consent}
use ahjoorxmr_contract.Escrow.Effects.Leaving.{touch-cases}

pub accept_deadline_extension-Moves :
    (caller id : ℕ) (env : Env) (w w' : World)
    → accept_deadline_extension caller id env w ≡ ok (tt, w')
    → Moves env (books w) (books w')
unfolding accept_deadline_extension
accept_deadline_extension-Moves caller id env w w' h = elim (Option-cases (w.store.escrow id)) [
  | inl missing ↦ absurd (ground arith)
  | inr (e, f) ↦ elim (Option-cases (w.store.deadline_proposal id)) [
    | inl none_made ↦ absurd (ground arith)
    | inr (p, g) ↦ one (amend id e (record e { deadline = p.new_deadline }) (ground arith))
  ]
]

pub cancel_auto_renew-Moves :
    (buyer id : ℕ) (env : Env) (w w' : World)
    → cancel_auto_renew buyer id env w ≡ ok (tt, w')
    → Moves env (books w) (books w')
unfolding cancel_auto_renew
cancel_auto_renew-Moves buyer id env w w' h = elim (Option-cases (w.store.escrow id)) [
  | inl missing ↦ absurd (ground arith)
  | inr (e, f) ↦
      one (amend id e (record e { auto_renew = false; renewals_remaining = 0 }) (ground arith))
]

pub transfer_buyer_role-Moves :
    (current_buyer id new_buyer : ℕ) (env : Env) (w w' : World)
    → new_buyer ≢ env.current_contract_address
    → transfer_buyer_role current_buyer id new_buyer env w ≡ ok (tt, w')
    → Moves env (books w) (books w')
unfolding transfer_buyer_role
transfer_buyer_role-Moves current_buyer id new_buyer env w w' outside h =
    elim (Option-cases (w.store.escrow id)) [
      | inl missing ↦ absurd (ground arith)
      | inr (e, f) ↦ one (
          amend id e (record e { buyer = new_buyer })
            (record {
              replaces = ground arith;
              same_status = refl;
              same_amount = refl;
              buyer_outside = inr (outside, ground arith);
              no_calls = ground arith;
            }))
    ]

pub update_metadata-Moves :
    (caller id hash : ℕ) (env : Env) (w w' : World)
    → update_metadata caller id hash env w ≡ ok (tt, w')
    → Moves env (books w) (books w')
unfolding update_metadata
update_metadata-Moves caller id hash env w w' h = elim (Option-cases (w.store.escrow id)) [
  | inl missing ↦ absurd (ground arith)
  | inr (e, f) ↦
      let (w1, t, p, q, r) = touch-cases (caller == e.buyer) e env w in
      one (amend id e (record e { metadata_hash = some hash }) (ground arith))
]

pub submit_evidence-Moves :
    (party id hash uri : ℕ) (env : Env) (w w' : World)
    → submit_evidence party id hash uri env w ≡ ok (tt, w')
    → Moves env (books w) (books w')
unfolding submit_evidence
submit_evidence-Moves party id hash uri env w w' h = elim (Option-cases (w.store.escrow id)) [
  | inl missing ↦ absurd (ground arith)
  | inr (e, f) ↦
      let (w1, t, p, q, r) = touch-cases (party == e.buyer) e env w in
      stay (ground arith) (ground arith) (ground arith)
]

pub set_renewal_allowance-Moves :
    (buyer id n : ℕ) (env : Env) (w w' : World)
    → set_renewal_allowance buyer id n env w ≡ ok (tt, w')
    → Moves env (books w) (books w')
unfolding set_renewal_allowance
set_renewal_allowance-Moves buyer id n env w w' h = elim (Option-cases (w.store.escrow id)) [
  | inl missing ↦ absurd (ground arith)
  | inr (e, f) ↦ one (
      consent
        (TokenCall.approve e.token buyer env.current_contract_address (e.amount *ℤ pos n)
          (saturating_add_u32 env.sequence 100000))
        tt (ground arith) (ground arith) (ground arith))
]

pub propose_deadline_extension-Moves :
    (caller id new_deadline : ℕ) (env : Env) (w w' : World)
    → propose_deadline_extension caller id new_deadline env w ≡ ok (tt, w')
    → Moves env (books w) (books w')
unfolding propose_deadline_extension
propose_deadline_extension-Moves caller id new_deadline env w w' h =
    stay (ground arith) (ground arith) (ground arith)
