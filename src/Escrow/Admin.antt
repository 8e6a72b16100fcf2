-- ===== src/Escrow/Admin.antt =====
-- Administration of the escrow contract and the guards that all entry points share:
-- contracts/ahjoor-escrow/src/lib.rs. `extend_ttl` pays for storage and changes no entry, so no
-- function has it.
use ahjoorxmr_contract.Base.{
  ℕ, ◌+◌, Bool, true, false, not, Option, none, some, String, ltb, ◌==◌, ◌/=◌, unwrap_or, is_some,
  put, checked_u32,
}
use ahjoorxmr_contract.Host.{
  ⊤, ◌>>=◌, ◌>>◌, pure, panic_if, expect, gets, modify, timestamp, require_auth,
  update_current_contract_wasm,
}
use ahjoorxmr_contract.Escrow.Types.{Error, default_dispute_timeout_seconds, max_protocol_fee_bps}
use ahjoorxmr_contract.Escrow.Events.{
  Action, emit_contract_upgraded, emit_contract_paused, emit_contract_resumed,
  emit_token_allowlisted, emit_token_removed_from_allowlist,
}

unfoldable pub require_not_paused : Action ⊤
require_not_paused = do
  paused ← gets (λ s. unwrap_or s.paused false)
  panic_if paused Error.contract_is_paused

unfoldable pub require_admin : ℕ → Action ⊤
require_admin admin = do
  require_auth admin
  stored_admin ← expect (← gets (λ s. s.admin)) Error.admin_not_set
  panic_if (stored_admin /= admin) Error.not_admin

check_bootstrap : Option ℕ → ℕ → Action ⊤
check_bootstrap (some stored_admin) admin = panic_if (stored_admin /= admin) Error.not_admin
check_bootstrap none admin = modify (λ s. record s { admin = some admin })

unfoldable pub require_or_bootstrap_admin : ℕ → Action ⊤
unfolding check_bootstrap
require_or_bootstrap_admin admin = do
  require_auth admin
  stored ← gets (λ s. s.admin)
  check_bootstrap stored admin

unfoldable pub initialize : ℕ → Action ⊤
initialize admin = do
  stored ← gets (λ s. s.admin)
  panic_if (is_some stored) Error.already_initialized
  modify (λ s. record s { admin = some admin })
  modify (λ s. record s { contract_version = some 1 })
  modify (λ s. record s { default_dispute_timeout = some default_dispute_timeout_seconds })

init_version : Option ℕ → Action ℕ
init_version (some version) = pure version
init_version none = do modify (λ s. record s { contract_version = some 1 }); pure 1

unfoldable pub get_or_init_version : Action ℕ
unfolding init_version
get_or_init_version = do stored ← gets (λ s. s.contract_version); init_version stored

unfoldable pub get_version : Action ℕ
unfolding get_or_init_version
get_version = get_or_init_version

-- The check that `upgrade` and `migrate` make of the caller.
unfoldable pub require_initialized_admin : ℕ → Action ⊤
require_initialized_admin admin = do
  require_auth admin
  stored_admin ← expect (← gets (λ s. s.admin)) Error.not_initialized
  panic_if (admin /= stored_admin) Error.not_admin

unfoldable pub upgrade : ℕ → ℕ → Action ⊤
unfolding require_initialized_admin get_or_init_version emit_contract_upgraded
upgrade admin new_wasm_hash = do
  require_initialized_admin admin
  old_version ← get_or_init_version
  update_current_contract_wasm new_wasm_hash
  new_version ← expect (checked_u32 (old_version + 1)) Error.version_overflow
  modify (λ s. record s { contract_version = some new_version })
  emit_contract_upgraded old_version new_version admin

unfoldable pub migrate : ℕ → Action ⊤
unfolding require_initialized_admin get_or_init_version
migrate admin = do
  require_initialized_admin admin
  version ← get_or_init_version
  completed ← gets (λ s. unwrap_or (s.migration_completed version) false)
  panic_if completed Error.migration_already_completed
  modify (λ s. record s { migration_completed = put s.migration_completed version (some true) })

unfoldable pub is_paused : Action Bool
is_paused = gets (λ s. unwrap_or s.paused false)

unfoldable pub get_pause_reason : Action String
get_pause_reason = gets (λ s. unwrap_or s.pause_reason "")

unfoldable pub pause_contract : ℕ → String → Action ⊤
unfolding require_or_bootstrap_admin is_paused emit_contract_paused
pause_contract admin reason = do
  require_or_bootstrap_admin admin
  paused ← is_paused
  panic_if paused Error.already_paused
  modify (λ s. record s { paused = some true })
  modify (λ s. record s { pause_reason = some reason })
  now ← timestamp
  emit_contract_paused admin reason now

unfoldable pub resume_contract : ℕ → Action ⊤
unfolding require_admin is_paused emit_contract_resumed
resume_contract admin = do
  require_admin admin
  paused ← is_paused
  panic_if (not paused) Error.not_paused
  modify (λ s. record s { paused = some false })
  modify (λ s. record s { pause_reason = none })
  now ← timestamp
  emit_contract_resumed admin now

unfoldable pub add_allowed_token : ℕ → ℕ → Action ⊤
unfolding require_admin emit_token_allowlisted
add_allowed_token admin token = do
  require_admin admin
  modify (λ s. record s { allowed_token = put s.allowed_token token (some true) })
  emit_token_allowlisted admin token

unfoldable pub remove_allowed_token : ℕ → ℕ → Action ⊤
unfolding require_admin emit_token_removed_from_allowlist
remove_allowed_token admin token = do
  require_admin admin
  modify (λ s. record s { allowed_token = put s.allowed_token token none })
  emit_token_removed_from_allowlist admin token

-- The allowlist test of the entry points that take a token.
unfoldable pub require_allowed_token : ℕ → Action ⊤
require_allowed_token token = do
  is_allowed ← gets (λ s. unwrap_or (s.allowed_token token) false)
  panic_if (not is_allowed) Error.token_not_allowed

unfoldable pub update_default_dispute_timeout : ℕ → ℕ → Action ⊤
unfolding require_admin
update_default_dispute_timeout admin timeout_seconds = do
  require_admin admin
  panic_if (timeout_seconds == 0) Error.timeout_not_positive
  modify (λ s. record s { default_dispute_timeout = some timeout_seconds })

unfoldable pub get_default_dispute_timeout : Action ℕ
get_default_dispute_timeout =
    gets (λ s. unwrap_or s.default_dispute_timeout default_dispute_timeout_seconds)

unfoldable pub update_protocol_fee : ℕ → ℕ → ℕ → Action ⊤
unfolding require_admin
update_protocol_fee admin fee_bps fee_recipient = do
  require_admin admin
  panic_if (ltb max_protocol_fee_bps fee_bps) Error.fee_too_high
  modify (λ s. record s { protocol_fee_bps = some fee_bps })
  modify (λ s. record s { fee_recipient = some fee_recipient })

unfoldable pub get_protocol_fee : Action (ℕ × Option ℕ)
get_protocol_fee = gets (λ s. (unwrap_or s.protocol_fee_bps 0, s.fee_recipient))
