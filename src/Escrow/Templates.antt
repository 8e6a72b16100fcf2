-- ===== src/Escrow/Templates.antt =====
-- Escrow templates: contracts/ahjoor-escrow/src/lib.rs, `create_escrow_template` to
-- `create_escrow_from_template`, and `update_escrow_template` to `get_escrow_template`.
use ahjoorxmr_contract.Base.{
  ℕ, ◌+◌, true, false, not, [], ◌∷◌, none, some, ◌==◌, ◌/=◌, unwrap_or, put, ℤ, pos, leb_ℤ,
  checked_u32, checked_u64,
}
use ahjoorxmr_contract.Host.{
  ⊤, ◌>>=◌, ◌>>◌, pure, panic_if, expect, checked, gets, modify, timestamp,
  current_contract_address, require_auth, call_token, TokenCall,
}
use ahjoorxmr_contract.Escrow.Types.{
  EscrowStatus, Escrow, EscrowTemplate, EscrowTemplateConfig, Error,
}
use ahjoorxmr_contract.Escrow.Events.{
  Action, emit_escrow_template_created, emit_escrow_template_updated,
  emit_escrow_template_deactivated, emit_escrow_created, emit_escrow_created_from_template,
}
use ahjoorxmr_contract.Escrow.Admin.{require_not_paused, require_allowed_token}
use ahjoorxmr_contract.Escrow.Create.{set_escrow, next_escrow_id}

unfoldable pub get_escrow_template : ℕ → Action EscrowTemplate
get_escrow_template template_id = do
  expect (← gets (λ s. s.template template_id)) Error.template_not_found

unfoldable pub set_template : ℕ → EscrowTemplate → Action ⊤
set_template template_id t =
    modify (λ s. record s { template = put s.template template_id (some t) })

unfoldable pub create_escrow_template : ℕ → EscrowTemplateConfig → Action ℕ
unfolding require_allowed_token set_template emit_escrow_template_created
create_escrow_template creator config = do
  require_auth creator
  require_allowed_token config.token
  panic_if (config.deadline_duration == 0) Error.duration_not_positive
  template_id ← gets (λ s. unwrap_or s.template_counter 0)
  counter ← checked (checked_u32 (template_id + 1))
  modify (λ s. record s { template_counter = some counter })
  set_template template_id
      (record { id = template_id; creator = creator; config = config; active = true })
  emit_escrow_template_created template_id creator
  pure template_id

-- An escrow for one seller, with the defaults of the two creations that set no options.
abbrev pub plain_escrow : ℕ → ℕ → ℕ → ℕ → ℤ → ℕ → ℕ → ℕ → Escrow
plain_escrow id buyer seller arbiter amount token created_at deadline = record {
  id = id;
  buyer = buyer;
  seller = seller;
  arbiter = arbiter;
  amount = amount;
  token = token;
  status = EscrowStatus.active;
  created_at = created_at;
  deadline = deadline;
  metadata_hash = none;
  sellers = (seller, 10000) ∷ [];
  auto_renew = false;
  renewal_count = 0;
  renewals_remaining = 0;
  dispute_timeout_seconds = none;
  buyer_inactivity_release_seconds = 0;
}

unfoldable pub create_escrow_from_template : ℕ → ℕ → ℕ → ℤ → Action ℕ
unfolding require_not_paused get_escrow_template set_escrow emit_escrow_created
    emit_escrow_created_from_template
create_escrow_from_template buyer seller template_id amount = do
  require_not_paused
  require_auth buyer
  t ← get_escrow_template template_id
  panic_if (not t.active) Error.template_inactive
  panic_if (leb_ℤ amount (pos 0)) Error.escrow_amount_not_positive
  now ← timestamp
  deadline ← checked (checked_u64 (now + t.config.deadline_duration))
  self ← current_contract_address
  call_token (TokenCall.transfer t.config.token buyer self amount)
  escrow_id ← next_escrow_id
  set_escrow escrow_id
      (plain_escrow escrow_id buyer seller t.config.arbiter amount t.config.token now deadline)
  emit_escrow_created escrow_id buyer seller t.config.arbiter amount t.config.token deadline
  emit_escrow_created_from_template escrow_id template_id
  pure escrow_id

unfoldable pub update_escrow_template : ℕ → ℕ → EscrowTemplateConfig → Action ⊤
unfolding get_escrow_template require_allowed_token set_template emit_escrow_template_updated
update_escrow_template creator template_id new_config = do
  require_auth creator
  t ← get_escrow_template template_id
  panic_if (t.creator /= creator) Error.not_template_creator
  panic_if (not t.active) Error.template_inactive
  require_allowed_token new_config.token
  panic_if (new_config.deadline_duration == 0) Error.duration_not_positive
  set_template template_id (record t { config = new_config })
  emit_escrow_template_updated template_id creator

unfoldable pub deactivate_escrow_template : ℕ → ℕ → Action ⊤
unfolding get_escrow_template set_template emit_escrow_template_deactivated
deactivate_escrow_template creator template_id = do
  require_auth creator
  t ← get_escrow_template template_id
  panic_if (t.creator /= creator) Error.not_template_creator
  panic_if (not t.active) Error.template_inactive
  set_template template_id (record t { active = false })
  emit_escrow_template_deactivated template_id creator
