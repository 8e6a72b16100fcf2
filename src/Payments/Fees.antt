-- ===== src/Payments/Fees.antt =====
-- The fee, its tiers and the splits of a payment: contracts/ahjoor-payments/src/lib.rs
-- (`update_fee`, `update_fee_tiers`, `fee_bps_for_volume`, `distribute_net_payment` and the checks).
use ahjoorxmr_contract.Base.{
  ℕ, ◌+◌, false, List, [], ◌∷◌, Option, none, some, ltb, unwrap_or, ◌==◌, ◌/=◌, if◌then◌else◌, ℤ,
  pos, negsuc, ◌+ℤ◌, ◌-ℤ◌, ◌*ℤ◌, ◌/ℤ◌, ltb_ℤ, leb_ℤ, checked_u32, checked_i128,
}
use ahjoorxmr_contract.Host.{
  ⊤, ◌>>=◌, ◌>>◌, pure, panic_if, expect, checked, when, gets, modify, fail,
  current_contract_address, require_auth, call_token, TokenCall,
}
use ahjoorxmr_contract.Payments.Types.{
  Error, Payment, SplitRecipient, SplitTransfer, FeeTier, max_fee_bps, default_fee_bps,
}
use ahjoorxmr_contract.Payments.Events.{Action}

unfoldable pub require_not_paused : Action ⊤
require_not_paused = do
  paused ← gets (λ s. unwrap_or s.paused false)
  panic_if paused Error.contract_is_paused

-- The check that `update_fee`, `update_fee_recipient` and `update_fee_tiers` make.
unfoldable pub require_fee_admin : ℕ → Action ⊤
require_fee_admin admin = do
  require_auth admin
  stored_admin ← expect (← gets (λ s. s.admin)) Error.not_initialized
  panic_if (admin /= stored_admin) Error.not_admin

unfoldable pub update_fee : ℕ → ℕ → Action ⊤
unfolding require_not_paused require_fee_admin
update_fee admin new_fee_bps = do
  require_not_paused
  require_fee_admin admin
  panic_if (ltb max_fee_bps new_fee_bps) Error.fee_too_high
  modify (λ s. record s { fee_bps = some new_fee_bps })

unfoldable pub update_fee_recipient : ℕ → ℕ → Action ⊤
unfolding require_not_paused require_fee_admin
update_fee_recipient admin new_fee_recipient = do
  require_not_paused
  require_fee_admin admin
  modify (λ s. record s { fee_recipient = some new_fee_recipient })

unfoldable pub get_fee_bps : Action ℕ
get_fee_bps = gets (λ s. unwrap_or s.fee_bps default_fee_bps)

unfoldable pub get_fee_recipient : Action ℕ
get_fee_recipient = do expect (← gets (λ s. s.fee_recipient)) Error.fee_recipient_not_configured

-- The loop of `validate_fee_tiers`.
unfoldable pub check_fee_tiers : ℤ → List FeeTier → Action ⊤
check_fee_tiers last_min_volume [] = pure tt
check_fee_tiers last_min_volume (tier ∷ tiers) = do
  panic_if (ltb max_fee_bps tier.fee_bps) Error.tier_fee_too_high
  panic_if (ltb_ℤ tier.min_volume (pos 0)) Error.tier_volume_negative
  panic_if (leb_ℤ tier.min_volume last_min_volume) Error.tiers_not_ascending
  check_fee_tiers tier.min_volume tiers

unfoldable pub validate_fee_tiers : List FeeTier → Action ⊤
validate_fee_tiers tiers = check_fee_tiers (negsuc 0) tiers

unfoldable pub update_fee_tiers : ℕ → List FeeTier → Action ⊤
unfolding require_not_paused require_fee_admin validate_fee_tiers
update_fee_tiers admin tiers = do
  require_not_paused
  require_fee_admin admin
  validate_fee_tiers tiers
  modify (λ s. record s { fee_tiers = some tiers })

unfoldable pub get_fee_tiers : Action (List FeeTier)
get_fee_tiers = gets (λ s. unwrap_or s.fee_tiers [])

-- The loop of `fee_bps_for_volume`: the last tier that the volume reaches.
unfoldable pub select_fee : ℤ → ℕ → List FeeTier → ℕ
select_fee volume selected [] = selected
select_fee volume selected (tier ∷ tiers) =
    select_fee volume (if leb_ℤ tier.min_volume volume then tier.fee_bps else selected) tiers

unfoldable pub fee_bps_for_volume : ℤ → Action ℕ
fee_bps_for_volume volume = do
  default_fee ← gets (λ s. unwrap_or s.fee_bps default_fee_bps)
  tiers ← gets (λ s. unwrap_or s.fee_tiers [])
  pure (select_fee volume default_fee tiers)

-- The loop of `validate_split_recipients`: the sum of the shares.
unfoldable pub add_splits : ℕ → List SplitRecipient → Action ℕ
add_splits total_bps [] = pure total_bps
add_splits total_bps (split ∷ splits) = do
  panic_if (split.bps == 0) Error.split_bps_zero
  next ← expect (checked_u32 (total_bps + split.bps)) Error.split_bps_overflow
  add_splits next splits

unfoldable pub validate_split_recipients : Option (List SplitRecipient) → Action ⊤
validate_split_recipients none = pure tt
validate_split_recipients (some []) = fail Error.splits_empty
validate_split_recipients (some (split ∷ splits)) = do
  total_bps ← add_splits 0 (split ∷ splits)
  panic_if (total_bps /= 10000) Error.splits_not_whole

-- `token_client.transfer(&env.current_contract_address(), to, amount)`
unfoldable pub pay : ℕ → ℕ → ℤ → Action ⊤
pay token to amount = do
  self ← current_contract_address
  call_token (TokenCall.transfer token self to amount)

-- The loop over the splits: each gets its share, rounded down. The results are the transfers as they
-- are reported, and what was handed out.
unfoldable pub pay_splits : ℕ → ℤ → List SplitRecipient → ℤ → Action (List SplitTransfer × ℤ)
pay_splits token net_amount [] distributed = pure ([], distributed)
pay_splits token net_amount (split ∷ splits) distributed = do
  product ← checked (checked_i128 (net_amount *ℤ pos split.bps))
  let share = product /ℤ 10000
  when (ltb_ℤ (pos 0) share) (pay token split.recipient share)
  next ← checked (checked_i128 (distributed +ℤ share))
  (split_events, total) ← pay_splits token net_amount splits next
  pure (
    record { recipient = split.recipient; bps = split.bps; amount = share } ∷ split_events,
    total,
  )

unfoldable pub pay_parts : Payment → ℤ → Option (List SplitRecipient) → Action (List SplitTransfer)
unfolding pay
pay_parts payment net_amount none = do pay payment.token payment.merchant net_amount; pure []
pay_parts payment net_amount (some []) = do pay payment.token payment.merchant net_amount; pure []
pay_parts payment net_amount (some (split ∷ splits)) = do
  (split_events, distributed) ← pay_splits payment.token net_amount (split ∷ splits) (pos 0)
  dust_to_merchant ← checked (checked_i128 (net_amount -ℤ distributed))
  when (ltb_ℤ (pos 0) dust_to_merchant) (pay payment.token payment.merchant dust_to_merchant)
  pure split_events

unfoldable pub distribute_net_payment : Payment → ℤ → Action (List SplitTransfer)
unfolding pay_parts
distribute_net_payment payment net_amount = pay_parts payment net_amount payment.split_recipients
