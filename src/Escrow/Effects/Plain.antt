-- ===== src/Escrow/Effects/Plain.antt =====
-- What creation from a template and with a pool arbiter does to the books.
use ahjoorxmr_contract.Base.{
  ℕ, ◌%◌, ◌+◌, ◌≡◌, inl, inr, [], get_elem?, unwrap_or, length, ℤ, arith, Option-cases,
}
use ahjoorxmr_contract.Host.{Env, TokenCall, ok}
use ahjoorxmr_contract.Escrow.Events.{World}
use ahjoorxmr_contract.Escrow.Create.{next_escrow_id}
use ahjoorxmr_contract.Escrow.Templates.{plain_escrow, create_escrow_from_template}
use ahjoorxmr_contract.Escrow.Arbiters.{create_escrow_with_pool_arbiter}
use ahjoorxmr_contract.Escrow.Ledger.{books, Moves, one, open_new}

pub create_escrow_from_template-Moves :
    (buyer seller template_id : ℕ) (amount : ℤ) (env : Env) (w w' : World) (id : ℕ)
    → create_escrow_from_template buyer seller template_id amount env w ≡ ok (id, w')
    → Moves env (books w) (books w')
unfolding create_escrow_from_template next_escrow_id
create_escrow_from_template-Moves buyer seller template_id amount env w w' id h =
    elim (Option-cases (w.store.template template_id)) [
      | inl missing ↦ absurd (ground arith)
      | inr (t, f) ↦ one (
          open_new
            (plain_escrow (books w).counter buyer seller t.config.arbiter amount t.config.token
              env.timestamp (env.timestamp + t.config.deadline_duration))
            (TokenCall.transfer t.config.token buyer env.current_contract_address amount)
            (ground arith) (ground arith))
    ]

pub create_escrow_with_pool_arbiter-Moves :
    (buyer seller : ℕ) (amount : ℤ) (token deadline : ℕ) (env : Env) (w w' : World) (id : ℕ)
    → create_escrow_with_pool_arbiter buyer seller amount token deadline env w ≡ ok (id, w')
    → Moves env (books w) (books w')
unfolding create_escrow_with_pool_arbiter next_escrow_id
create_escrow_with_pool_arbiter-Moves buyer seller amount token deadline env w w' id h =
    let pool = unwrap_or w.store.arbiter_pool [] in
    let idx = unwrap_or w.store.next_arbiter_index 0 in
    elim (Option-cases (get_elem? pool (idx % length pool))) [
      | inl missing ↦ absurd (ground arith)
      | inr (arbiter, f) ↦ one (
          open_new
            (plain_escrow (books w).counter buyer seller arbiter amount token env.timestamp
              deadline)
            (TokenCall.transfer token buyer env.current_contract_address amount) (ground arith)
            (ground arith))
    ]
