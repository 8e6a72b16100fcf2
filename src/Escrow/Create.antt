-- ===== src/Escrow/Create.antt =====
-- Creating escrows: contracts/ahjoor-escrow/src/lib.rs, from `create_escrow` to
-- `create_escrow_w_timeout`, with the escrow counter and the reads of one escrow.
use ahjoorxmr_contract.Base.{
  ℕ, ◌+◌, Bool, List, [], ◌∷◌, ◌++◌, Option, none, some, if◌then◌else◌, ltb, leb, ◌==◌, ◌/=◌,
  unwrap_or, put, length, get_elem?, ℤ, pos, leb_ℤ, checked_u32, u32_max,
}
use ahjoorxmr_contract.Host.{
  ⊤, ◌>>=◌, ◌>>◌, pure, panic_if, expect, checked, when, gets, modify, timestamp,
  current_contract_address, require_auth, call_token, TokenCall,
}
use ahjoorxmr_contract.Escrow.Types.{
  EscrowStatus, Escrow, EscrowBatchConfig, Error, max_batch_escrows,
}
use ahjoorxmr_contract.Escrow.Events.{
  Action, emit_escrow_created, emit_multi_party_escrow_created, emit_batch_escrow_created,
}
use ahjoorxmr_contract.Escrow.Admin.{require_not_paused, require_allowed_token}

unfoldable pub get_escrow : ℕ → Action Escrow
get_escrow escrow_id = do expect (← gets (λ s. s.escrow escrow_id)) Error.escrow_not_found

unfoldable pub set_escrow : ℕ → Escrow → Action ⊤
set_escrow escrow_id e = modify (λ s. record s { escrow = put s.escrow escrow_id (some e) })

unfoldable pub get_metadata_hash : ℕ → Action (Option ℕ)
unfolding get_escrow
get_metadata_hash escrow_id = do e ← get_escrow escrow_id; pure e.metadata_hash

unfoldable pub get_escrow_counter : Action ℕ
get_escrow_counter = gets (λ s. unwrap_or s.escrow_counter 0)

unfoldable pub next_escrow_id : Action ℕ
next_escrow_id = do
  id ← gets (λ s. unwrap_or s.escrow_counter 0)
  counter ← checked (checked_u32 (id + 1))
  modify (λ s. record s { escrow_counter = some counter })
  pure id

unfoldable pub set_last_buyer_action : ℕ → ℕ → Action ⊤
set_last_buyer_action escrow_id now =
    modify (λ s. record s { last_buyer_action = put s.last_buyer_action escrow_id (some now) })

unfoldable pub set_escrow_metadata : ℕ → ℕ → ℕ → Action ⊤
set_escrow_metadata escrow_id hash now =
    modify (λ s. record s { escrow_metadata = put s.escrow_metadata escrow_id (some (hash, now)) })

-- The loop over the sellers' basis points, on `u32`; `none` is overflow.
unfoldable pub add_bps : ℕ → List (ℕ × ℕ) → Option ℕ
add_bps total_bps [] = some total_bps
add_bps total_bps ((_, bps) ∷ rest) =
    let total = add_bps (total_bps + bps) rest in
    if leb (total_bps + bps) u32_max then total else none

unfoldable pub check_sellers : List (ℕ × ℕ) → Action ⊤
check_sellers sellers = do
  panic_if (ltb 5 (length sellers)) Error.too_many_sellers
  total_bps ← checked (add_bps 0 sellers)
  panic_if (total_bps /= 10000) Error.allocations_not_10000_bps

-- One seller with everything where no list is given.
unfoldable pub resolve_sellers : ℕ → List (ℕ × ℕ) → Action (List (ℕ × ℕ))
unfolding check_sellers
resolve_sellers seller [] = pure ((seller, 10000) ∷ [])
resolve_sellers seller (s ∷ rest) = do check_sellers (s ∷ rest); pure (s ∷ rest)

store_metadata : Option ℕ → ℕ → ℕ → Action ⊤
unfolding set_escrow_metadata
store_metadata none escrow_id now = pure tt
store_metadata (some hash) escrow_id now = set_escrow_metadata escrow_id hash now

-- The escrow that `create_escrow_core` stores.
abbrev pub new_escrow :
    ℕ → ℕ → ℕ → ℕ → ℤ → ℕ → ℕ → ℕ → Option ℕ → List (ℕ × ℕ) → Bool → ℕ → ℕ → Escrow
new_escrow id buyer seller arbiter amount token created_at deadline metadata_hash sellers auto_renew
      renewal_count buyer_inactivity_release_seconds =
    record {
      id = id;
      buyer = buyer;
      seller = seller;
      arbiter = arbiter;
      amount = amount;
      token = token;
      status = EscrowStatus.active;
      created_at = created_at;
      deadline = deadline;
      metadata_hash = metadata_hash;
      sellers = sellers;
      auto_renew = auto_renew;
      renewal_count = renewal_count;
      renewals_remaining = if renewal_count == 0 then 0 else renewal_count;
      dispute_timeout_seconds = none;
      buyer_inactivity_release_seconds = buyer_inactivity_release_seconds;
    }

unfoldable pub create_escrow_core :
    ℕ → ℕ → ℕ → ℤ → ℕ → ℕ → Option ℕ → List (ℕ × ℕ) → Bool → ℕ → ℕ → Action ℕ
unfolding require_allowed_token set_escrow set_last_buyer_action store_metadata emit_escrow_created
    emit_multi_party_escrow_created
create_escrow_core buyer seller arbiter amount token deadline metadata_hash sellers auto_renew
      renewal_count buyer_inactivity_release_seconds =
    do
      panic_if (leb_ℤ amount (pos 0)) Error.escrow_amount_not_positive
      now ← timestamp
      panic_if (leb deadline now) Error.deadline_not_in_future
      require_allowed_token token
      resolved_sellers ← resolve_sellers seller sellers
      self ← current_contract_address
      call_token (TokenCall.transfer token buyer self amount)
      escrow_id ← next_escrow_id
      (primary_seller, _) ← expect (get_elem? resolved_sellers 0) Error.index_out_of_bounds
      set_escrow escrow_id (
          new_escrow escrow_id buyer primary_seller arbiter amount token now deadline metadata_hash
            resolved_sellers auto_renew renewal_count buyer_inactivity_release_seconds)
      when (ltb 0 buyer_inactivity_release_seconds) (set_last_buyer_action escrow_id now)
      store_metadata metadata_hash escrow_id now
      emit_escrow_created escrow_id buyer primary_seller arbiter amount token deadline
      when (ltb 1 (length resolved_sellers))
          (emit_multi_party_escrow_created escrow_id (length resolved_sellers))
      pure escrow_id

unfoldable pub create_escrow :
    ℕ → ℕ → ℕ → ℤ → ℕ → ℕ → Option ℕ → List (ℕ × ℕ) → Bool → ℕ → ℕ → Action ℕ
unfolding require_not_paused
create_escrow buyer seller arbiter amount token deadline metadata_hash sellers auto_renew
      renewal_count buyer_inactivity_release_seconds =
    do
      require_not_paused
      require_auth buyer
      create_escrow_core buyer seller arbiter amount token deadline metadata_hash sellers auto_renew
          renewal_count buyer_inactivity_release_seconds

-- The loop of `create_escrows_batch`: the first and the last id and all ids so far.
unfoldable pub create_each :
    ℕ → List EscrowBatchConfig → Option ℕ → ℕ → List ℕ → Action (Option ℕ × ℕ × List ℕ)
create_each buyer [] first_id last_id created_ids = pure (first_id, last_id, created_ids)
create_each buyer (cfg ∷ rest) first_id last_id created_ids = do
  escrow_id ←
      create_escrow_core buyer cfg.seller cfg.arbiter cfg.amount cfg.token cfg.deadline
        cfg.metadata_hash cfg.sellers cfg.auto_renew cfg.renewal_count 0
  create_each buyer rest (some (unwrap_or first_id escrow_id)) escrow_id
      (created_ids ++ (escrow_id ∷ []))

unfoldable pub create_escrows_batch : ℕ → List EscrowBatchConfig → Action (List ℕ)
unfolding require_not_paused emit_batch_escrow_created
create_escrows_batch buyer escrow_configs = do
  require_not_paused
  require_auth buyer
  panic_if (length escrow_configs == 0) Error.batch_empty
  panic_if (ltb max_batch_escrows (length escrow_configs)) Error.batch_too_large
  (first_id, last_id, created_ids) ← create_each buyer escrow_configs none 0 []
  first ← expect first_id Error.batch_empty
  emit_batch_escrow_created (length escrow_configs) first last_id
  pure created_ids

unfoldable pub create_escrow_w_timeout :
    ℕ → ℕ → ℕ → ℤ → ℕ → ℕ → Option ℕ → List (ℕ × ℕ) → ℕ → ℕ → Action ℕ
unfolding get_escrow set_escrow
create_escrow_w_timeout buyer seller arbiter amount token deadline metadata_hash sellers
      renewal_count dispute_timeout_seconds =
    do
      panic_if (dispute_timeout_seconds == 0) Error.timeout_not_positive
      let auto_renew = ltb 0 renewal_count
      escrow_id ←
          create_escrow buyer seller arbiter amount token deadline metadata_hash sellers auto_renew
            renewal_count 0
      e ← get_escrow escrow_id
      set_escrow escrow_id (record e { dispute_timeout_seconds = some dispute_timeout_seconds })
      pure escrow_id
