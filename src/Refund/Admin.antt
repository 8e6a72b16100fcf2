-- ===== src/Refund/Admin.antt =====
-- Administration of the refund contract: contracts/ahjoor-refund/src/lib.rs. `extend_ttl` changes no
-- entry and is left out.
use ahjoorxmr_contract.Base.{
  ℕ, ◌+◌, Bool, true, false, not, ◌&&◌, List, [], ◌∷◌, ◌++◌, Option, none, some, String, ltb, ◌==◌,
  ◌/=◌, leb, if◌then◌else◌, unwrap_or, is_some, put, checked_u32, contains, without, length, pos,
}
use ahjoorxmr_contract.Host.{
  ⊤, ◌>>=◌, ◌>>◌, pure, panic_if, expect, gets, modify, timestamp, require_auth,
  update_current_contract_wasm,
}
use ahjoorxmr_contract.Refund.Types.{Error, RefundStats}
use ahjoorxmr_contract.Refund.Events.{
  Action, emit_contract_upgraded, emit_contract_paused, emit_contract_resumed, emit_delegate_added,
}

unfoldable pub require_not_paused : Action ⊤
require_not_paused = do
  paused ← gets (λ s. unwrap_or s.paused false)
  panic_if paused Error.contract_is_paused

unfoldable pub require_admin : ℕ → Action ⊤
require_admin admin = do
  require_auth admin
  stored_admin ← expect (← gets (λ s. s.admin)) Error.not_initialized
  panic_if (stored_admin /= admin) Error.not_admin

-- The loop of `validate_refund_tiers`: the first of the tiers given, and the length of the one
-- before.
unfoldable pub check_tiers : Bool → ℕ → List (ℕ × ℕ) → Action ⊤
check_tiers first prev_max [] = pure tt
check_tiers first prev_max ((max_seconds, refund_bps) ∷ tiers) = do
  panic_if (not first && ltb max_seconds prev_max) Error.tiers_not_sorted
  panic_if (ltb 10000 refund_bps) Error.tier_bps_too_high
  check_tiers false max_seconds tiers

unfoldable pub validate_refund_tiers : List (ℕ × ℕ) → Action ⊤
validate_refund_tiers tiers = check_tiers true 0 tiers

abbrev pub no_stats : RefundStats
no_stats = record {
  total_requested = 0;
  total_approved = 0;
  total_rejected = 0;
  total_processed = 0;
  total_amount_refunded = pos 0;
}

set_if_some : {A : Type 0} → Option A → (A → Action ⊤) → Action ⊤
set_if_some none f = pure tt
set_if_some (some a) f = f a

unfoldable pub initialize :
    ℕ → ℕ → ℕ → Option ℕ → ℕ → Option ℕ → ℕ → ℕ → Option (List (ℕ × ℕ)) → ℕ → ℕ → Action ⊤
unfolding set_if_some
initialize admin payment_contract dispute_window escrow_contract refund_fee_bps fee_recipient
      auto_reject_window_seconds appeal_window_seconds refund_tiers refund_cooldown_seconds
      customer_cancel_window_seconds =
    do
      stored ← gets (λ s. s.admin)
      panic_if (is_some stored) Error.already_initialized
      panic_if (ltb 200 refund_fee_bps) Error.fee_too_high
      modify (λ s. record s { admin = some admin })
      modify (λ s. record s { refund_counter = some 0 })
      modify (λ s. record s { contract_version = some 1 })
      modify (λ s. record s { payment_contract_address = some payment_contract })
      modify (λ s. record s { dispute_window = some dispute_window })
      set_if_some escrow_contract (λ a. modify (λ s. record s { escrow_contract_address = some a }))
      modify (λ s. record s { refund_fee_bps = some refund_fee_bps })
      set_if_some fee_recipient (λ a. modify (λ s. record s { fee_recipient = some a }))
      let tiers = unwrap_or refund_tiers []
      validate_refund_tiers tiers
      modify (λ s. record s { refund_tiers = some tiers })
      modify (λ s. record s { global_refund_stats = some no_stats })
      modify (λ s. record s { auto_approved_merchants = some [] })
      let effective_auto_reject =
          if auto_reject_window_seconds == 0 then 2592000 else auto_reject_window_seconds
      modify (λ s. record s { auto_reject_window = some effective_auto_reject })
      modify (λ s. record s { appeal_window = some appeal_window_seconds })
      modify (λ s. record s { pending_refund_queue = some [] })
      modify (λ s. record s { refund_cooldown = some refund_cooldown_seconds })
      modify (λ s. record s { customer_cancel_window = some customer_cancel_window_seconds })

init_version : Option ℕ → Action ℕ
init_version (some version) = pure version
init_version none = do modify (λ s. record s { contract_version = some 1 }); pure 1

unfoldable pub get_or_init_version : Action ℕ
unfolding init_version
get_or_init_version = do stored ← gets (λ s. s.contract_version); init_version stored

unfoldable pub get_version : Action ℕ
unfolding get_or_init_version
get_version = get_or_init_version

-- The check that `upgrade`, `migrate`, `process_refund` and `bulk_process_refunds` make.
unfoldable pub require_initialized_admin : ℕ → Action ⊤
require_initialized_admin admin = do
  require_auth admin
  stored_admin ← expect (← gets (λ s. s.admin)) Error.not_initialized
  panic_if (admin /= stored_admin) Error.not_admin

unfoldable pub upgrade : ℕ → ℕ → Action ⊤
unfolding require_initialized_admin get_or_init_version emit_contract_upgraded
upgrade admin new_wasm_hash = do
  require_initialized_admin admin
  old_version ← get_or_init_version
  update_current_contract_wasm new_wasm_hash
  new_version ← expect (checked_u32 (old_version + 1)) Error.version_overflow
  modify (λ s. record s { contract_version = some new_version })
  emit_contract_upgraded old_version new_version admin

unfoldable pub migrate : ℕ → Action ⊤
unfolding require_initialized_admin get_or_init_version
migrate admin = do
  require_initialized_admin admin
  version ← get_or_init_version
  completed ← gets (λ s. unwrap_or (s.migration_completed version) false)
  panic_if completed Error.migration_already_completed
  modify (λ s. record s { migration_completed = put s.migration_completed version (some true) })

unfoldable pub is_paused : Action Bool
is_paused = gets (λ s. unwrap_or s.paused false)

unfoldable pub get_pause_reason : Action String
get_pause_reason = gets (λ s. unwrap_or s.pause_reason "")

unfoldable pub pause_contract : ℕ → String → Action ⊤
unfolding require_admin is_paused emit_contract_paused
pause_contract admin reason = do
  require_admin admin
  paused ← is_paused
  panic_if paused Error.already_paused
  modify (λ s. record s { paused = some true })
  modify (λ s. record s { pause_reason = some reason })
  now ← timestamp
  emit_contract_paused admin reason now

unfoldable pub resume_contract : ℕ → Action ⊤
unfolding require_admin is_paused emit_contract_resumed
resume_contract admin = do
  require_admin admin
  paused ← is_paused
  panic_if (not paused) Error.not_paused
  modify (λ s. record s { paused = some false })
  modify (λ s. record s { pause_reason = none })
  now ← timestamp
  emit_contract_resumed admin now

unfoldable pub set_refund_tiers : ℕ → List (ℕ × ℕ) → Action ⊤
unfolding require_admin validate_refund_tiers
set_refund_tiers admin tiers = do
  require_admin admin
  validate_refund_tiers tiers
  modify (λ s. record s { refund_tiers = some tiers })

unfoldable pub update_refund_fee : ℕ → ℕ → Action ⊤
unfolding require_admin
update_refund_fee admin new_fee_bps = do
  require_admin admin
  panic_if (ltb 200 new_fee_bps) Error.fee_too_high
  modify (λ s. record s { refund_fee_bps = some new_fee_bps })

unfoldable pub add_to_auto_approve : ℕ → ℕ → Action ⊤
unfolding require_admin
add_to_auto_approve admin merchant = do
  require_admin admin
  whitelist ← gets (λ s. unwrap_or s.auto_approved_merchants [])
  panic_if (contains merchant whitelist) Error.already_whitelisted
  modify (λ s. record s { auto_approved_merchants = some (whitelist ++ (merchant ∷ [])) })

unfoldable pub remove_from_auto_approve : ℕ → ℕ → Action ⊤
unfolding require_admin
remove_from_auto_approve admin merchant = do
  require_admin admin
  whitelist ← gets (λ s. unwrap_or s.auto_approved_merchants [])
  panic_if (not (contains merchant whitelist)) Error.not_whitelisted
  modify (λ s. record s { auto_approved_merchants = some (without merchant whitelist) })

unfoldable pub waive_cooldown : ℕ → ℕ → Action ⊤
unfolding require_admin
waive_cooldown admin customer = do
  require_admin admin
  modify (λ s. record s { last_refund_request = put s.last_refund_request customer none })

unfoldable pub add_delegate : ℕ → ℕ → Action ⊤
unfolding require_not_paused emit_delegate_added
add_delegate merchant delegate = do
  require_not_paused
  require_auth merchant
  delegates ← gets (λ s. unwrap_or (s.merchant_delegates merchant) [])
  panic_if (leb 5 (length delegates)) Error.too_many_delegates
  panic_if (contains delegate delegates) Error.already_delegate
  modify (λ s. record s {
    merchant_delegates = put s.merchant_delegates merchant (some (delegates ++ (delegate ∷ [])));
  })
  emit_delegate_added merchant delegate

unfoldable pub remove_delegate : ℕ → ℕ → Action ⊤
unfolding require_not_paused
remove_delegate merchant delegate = do
  require_not_paused
  require_auth merchant
  delegates ← gets (λ s. unwrap_or (s.merchant_delegates merchant) [])
  panic_if (not (contains delegate delegates)) Error.not_delegate
  modify (λ s. record s {
    merchant_delegates = put s.merchant_delegates merchant (some (without delegate delegates));
  })
