-- ===== src/Escrow/Arbiters.antt =====
-- The pool of arbiters and its round robin: contracts/ahjoor-escrow/src/lib.rs (`add_arbiter`,
-- `remove_arbiter`, `create_escrow_with_pool_arbiter`).
use ahjoorxmr_contract.Base.{
  ℕ, ◌+◌, ◌%◌, true, false, not, ◌&&◌, ◌||◌, List, [], ◌∷◌, ◌++◌, Option, none, some, leb, ◌==◌,
  unwrap_or, put, length, contains, without, get_elem?, ℤ, pos, leb_ℤ, checked_u32,
}
use ahjoorxmr_contract.Host.{
  ⊤, ◌>>=◌, ◌>>◌, pure, panic_if, expect, checked, when, gets, modify, timestamp,
  current_contract_address, require_auth, call_token, TokenCall,
}
use ahjoorxmr_contract.Escrow.Types.{Escrow, Error, is_open_escrow_status}
use ahjoorxmr_contract.Escrow.Events.{
  Action, emit_arbiter_pool_updated, emit_escrow_created, emit_arbiter_assigned,
}
use ahjoorxmr_contract.Escrow.Admin.{require_admin, require_not_paused, require_allowed_token}
use ahjoorxmr_contract.Escrow.Create.{set_escrow, next_escrow_id}
use ahjoorxmr_contract.Escrow.Templates.{plain_escrow}

unfoldable pub add_arbiter : ℕ → ℕ → Action ⊤
unfolding require_admin emit_arbiter_pool_updated
add_arbiter admin arbiter = do
  require_admin admin
  pool ← gets (λ s. unwrap_or s.arbiter_pool [])
  panic_if (contains arbiter pool) Error.arbiter_already_in_pool
  modify (λ s. record s { arbiter_pool = some (pool ++ (arbiter ∷ [])) })
  emit_arbiter_pool_updated arbiter true

flag : ℕ → ℕ → Option Escrow → Action ⊤
flag arbiter eid none = pure tt
flag arbiter eid (some e) = when ((e.arbiter == arbiter) && is_open_escrow_status e.status) (
    modify (λ s. record s {
      arbiter_needs_replacement = put s.arbiter_needs_replacement eid (some true);
    }))

-- The loop that flags the open escrows of a removed arbiter.
unfoldable pub flag_escrows : ℕ → List ℕ → Action ⊤
unfolding flag
flag_escrows arbiter [] = pure tt
flag_escrows arbiter (eid ∷ escrow_ids) = do
  found ← gets (λ s. s.escrow eid)
  flag arbiter eid found
  flag_escrows arbiter escrow_ids

unfoldable pub remove_arbiter : ℕ → ℕ → List ℕ → Action ⊤
unfolding require_admin emit_arbiter_pool_updated
remove_arbiter admin arbiter escrow_ids = do
  require_admin admin
  pool ← expect (← gets (λ s. s.arbiter_pool)) Error.arbiter_pool_empty
  let new_pool = without arbiter pool
  panic_if (not (contains arbiter pool)) Error.arbiter_not_in_pool
  next_idx ← gets (λ s. unwrap_or s.next_arbiter_index 0)
  when ((length new_pool == 0) || leb (length new_pool) next_idx)
      (modify (λ s. record s { next_arbiter_index = some 0 }))
  modify (λ s. record s { arbiter_pool = some new_pool })
  flag_escrows arbiter escrow_ids
  emit_arbiter_pool_updated arbiter false

unfoldable pub create_escrow_with_pool_arbiter : ℕ → ℕ → ℤ → ℕ → ℕ → Action ℕ
unfolding require_not_paused require_allowed_token set_escrow emit_escrow_created
    emit_arbiter_assigned
create_escrow_with_pool_arbiter buyer seller amount token deadline = do
  require_not_paused
  require_auth buyer
  panic_if (leb_ℤ amount (pos 0)) Error.escrow_amount_not_positive
  now ← timestamp
  panic_if (leb deadline now) Error.deadline_not_in_future
  require_allowed_token token
  pool ← gets (λ s. unwrap_or s.arbiter_pool [])
  panic_if (length pool == 0) Error.arbiter_pool_empty
  idx ← gets (λ s. unwrap_or s.next_arbiter_index 0)
  arbiter ← expect (get_elem? pool (idx % length pool)) Error.index_out_of_bounds
  next ← checked (checked_u32 (idx + 1))
  modify (λ s. record s { next_arbiter_index = some (next % length pool) })
  self ← current_contract_address
  call_token (TokenCall.transfer token buyer self amount)
  escrow_id ← next_escrow_id
  set_escrow escrow_id (plain_escrow escrow_id buyer seller arbiter amount token now deadline)
  emit_escrow_created escrow_id buyer seller arbiter amount token deadline
  emit_arbiter_assigned escrow_id arbiter
  pure escrow_id
