-- ===== src/Payments/Splits.antt =====
-- What the payments of `distribute_net_payment` (contracts/ahjoor-payments/src/lib.rs) add up to, and
-- the bound on its fees.
use ahjoorxmr_contract.Base.{
  ℕ, ◌+◌, ◌-◌, ◌≤◌, ◌≡◌, refl, sym, subst, inl, inr, List, [], ◌∷◌, ◌++◌, Option, none, some, ℤ,
  pos, ◌-ℤ◌, int_laws, arith, ltb, leb_ℤ, unwrap_or, Bool-cases,
}
use native.Mathlib.Nat.{zero-add}
use ahjoorxmr_contract.Host.{Env, TokenCall, ok, Outcome-cases}
use ahjoorxmr_contract.Host.Payouts.{payout, Pays, Pays-last}
use ahjoorxmr_contract.Payments.Types.{
  Payment, SplitRecipient, SplitTransfer, FeeTier, max_fee_bps, default_fee_bps,
}
use ahjoorxmr_contract.Payments.Events.{World}
use ahjoorxmr_contract.Payments.Fees.{
  check_fee_tiers, validate_fee_tiers, update_fee_tiers, select_fee, fee_bps_for_volume,
  validate_split_recipients, pay_splits, pay_parts, distribute_net_payment,
}
use ahjoorxmr_contract.Payments.Shares.{
  split_shares, split_calls, split_shares_bounded, validate-total, pay_splits-Pays,
}

-- What is paid of a net amount, newest first: all to the merchant where nobody shares, else the
-- shares and then what they leave to the merchant.
abbrev pub net_calls : (self token merchant n : ℕ) → Option (List SplitRecipient) → List TokenCall
net_calls self token merchant n none = TokenCall.transfer token self merchant (pos n) ∷ []
net_calls self token merchant n (some splits) =
    payout self token merchant (n - split_shares n splits) ++ split_calls self token n splits

-- What is left after the splits goes to the merchant.
pay_parts-rest :
    (payment : Payment) (n d : ℕ) (s : SplitRecipient) (splits : List SplitRecipient) (env : Env)
    (w w' w1 : World) (events later : List SplitTransfer)
    → d ≤ n
    → pay_splits payment.token (pos n) (s ∷ splits) (pos 0) env w ≡ ok ((later, pos d), w1)
    → pay_parts payment (pos n) (some (s ∷ splits)) env w ≡ ok (events, w')
    → w' ≡ record w1 {
      calls =
          payout env.current_contract_address payment.token payment.merchant (n - d) ++ w1.calls;
    }
unfolding pay_parts ◌-ℤ◌
pay_parts-rest payment n d s splits env w w' w1 events later le e h =
    elim (Bool-cases (ltb 0 (n - d))) [
      | inl some_rest ↦ rw some_rest (ground arith)
      | inr no_rest ↦ rw no_rest (ground arith)
    ]

pay_parts-Pays :
    (payment : Payment) (n : ℕ) (split_recipients : Option (List SplitRecipient)) (env env' : Env)
    (w w' v v' : World) (events : List SplitTransfer)
    → validate_split_recipients split_recipients env' v ≡ ok (tt, v')
    → pay_parts payment (pos n) split_recipients env w ≡ ok (events, w')
    → Pays env w w' payment.token
        (pos n)
        (net_calls env.current_contract_address payment.token payment.merchant n split_recipients)
unfolding pay_parts validate_split_recipients
pay_parts-Pays payment n none env env' w w' v v' events valid h = record {
  same_store = ground arith;
  paid_calls = ground arith;
  all_out = ((refl, refl, omega arith), tt);
  paid_total = omega int_laws;
}
pay_parts-Pays payment n (some []) env env' w w' v v' events valid h = absurd (ground arith)
pay_parts-Pays payment n (some (s ∷ splits)) env env' w w' v v' events valid h =
    let self = env.current_contract_address in
    let d = split_shares n (s ∷ splits) in
    let le = split_shares_bounded n (s ∷ splits) (validate-total s splits env' v v' valid) in
    elim (Outcome-cases (pay_splits payment.token (pos n) (s ∷ splits) (pos 0) env w)) [
      | inl (((later, z), w1), e) ↦
          let (ez, p) = pay_splits-Pays payment.token n 0 (s ∷ splits) env w w1 later z e in
          let last =
            pay_parts-rest payment n d s splits env w w' w1 events later le
              (rw (← zero-add d, ← ez) e) h in
          let whole : n - d + d ≡ n = omega arith in
          let paid = net_calls self payment.token payment.merchant n (some (s ∷ splits)) in
          subst (λ (x : ℕ). Pays env w w' payment.token (pos x) paid) whole
            (subst (λ (x : World). Pays env w x payment.token (pos (n - d + d)) paid) (sym last)
              (Pays-last env w w1 payment.token payment.merchant (n - d) d
                (split_calls self payment.token n (s ∷ splits)) p))
      | inr (inl (x, e)) ↦ absurd (ground arith)
      | inr (inr (x, e)) ↦ absurd (ground arith)
    ]

-- Where the splits of a payment have passed `validate_split_recipients`, the distribution of a net
-- amount that is not negative, if it succeeds, changes no storage and makes these transfers out of
-- the contract, in the payment's token: where the payment has no splits, the whole to the merchant;
-- else to each recipient the recipient's share, rounded down, in their order, then to the merchant
-- what the shares leave, in both cases only where that is positive. They add up to exactly the
-- amount.
pub distribute_net_payment-Pays :
    (payment : Payment) (n : ℕ) (env env' : Env) (w w' v v' : World) (events : List SplitTransfer)
    → validate_split_recipients payment.split_recipients env' v ≡ ok (tt, v')
    → distribute_net_payment payment (pos n) env w ≡ ok (events, w')
    → Pays env w w' payment.token (pos n) (
        net_calls env.current_contract_address payment.token payment.merchant n
          payment.split_recipients)
unfolding distribute_net_payment
distribute_net_payment-Pays payment n env env' w w' v v' events valid h =
    pay_parts-Pays payment n payment.split_recipients env env' w w' v v' events valid h

-- The tiers that pass the check have no fee above 500 basis points.
abbrev FeesBounded : List FeeTier → Type 0
FeesBounded [] = Unit
FeesBounded (tier ∷ tiers) = (tier.fee_bps ≤ max_fee_bps) × FeesBounded tiers

check_fee_tiers-FeesBounded :
    (last : ℤ) (tiers : List FeeTier) (env : Env) (w w' : World)
    → check_fee_tiers last tiers env w ≡ ok (tt, w')
    → FeesBounded tiers × (w' ≡ w)
unfolding check_fee_tiers
check_fee_tiers-FeesBounded last [] env w w' h = (tt, ground arith)
check_fee_tiers-FeesBounded last (tier ∷ tiers) env w w' h =
    let (rest, same) = check_fee_tiers-FeesBounded tier.min_volume tiers env w w' (ground arith) in
    ((ground arith, rest), same)

select_fee_bounded :
    (volume : ℤ) (selected : ℕ) (tiers : List FeeTier)
    → selected ≤ max_fee_bps
    → FeesBounded tiers
    → select_fee volume selected tiers ≤ max_fee_bps
unfolding select_fee
select_fee_bounded volume selected [] h b = h
select_fee_bounded volume selected (tier ∷ tiers) h (t, b) =
    elim (Bool-cases (leb_ℤ tier.min_volume volume)) [
      | inl reached ↦ rw reached (select_fee_bounded volume tier.fee_bps tiers t b)
      | inr below ↦ rw below (select_fee_bounded volume selected tiers h b)
    ]

validate_fee_tiers-FeesBounded :
    (tiers : List FeeTier) (env : Env) (w w' : World)
    → validate_fee_tiers tiers env w ≡ ok (tt, w')
    → FeesBounded tiers × (w' ≡ w)
unfolding validate_fee_tiers
validate_fee_tiers-FeesBounded tiers env w w' e = check_fee_tiers-FeesBounded _ tiers env w w' e

-- After `update_fee_tiers`, where the default fee is at most 500 basis points, the fee for every
-- volume is found without a change of the state and is at most 500 basis points.
pub update_fee_tiers_bounded :
    (admin : ℕ) (tiers : List FeeTier) (volume : ℤ) (env env' : Env) (w w' : World)
    → unwrap_or w.store.fee_bps default_fee_bps ≤ max_fee_bps
    → update_fee_tiers admin tiers env w ≡ ok (tt, w')
    → (fee : ℕ) × (fee_bps_for_volume volume env' w' ≡ ok (fee, w')) × (fee ≤ max_fee_bps)
unfolding update_fee_tiers fee_bps_for_volume
update_fee_tiers_bounded admin tiers volume env env' w w' bounded h =
    elim (Outcome-cases (validate_fee_tiers tiers env w)) [
      | inl ((_, w1), e) ↦
          let (b, same) = validate_fee_tiers-FeesBounded tiers env w w1 e in
          let now : w'.store.fee_tiers ≡ some tiers = ground arith in
          let kept : w'.store.fee_bps ≡ w.store.fee_bps = ground (arith, same) in
          (
            select_fee volume (unwrap_or w'.store.fee_bps default_fee_bps)
                (unwrap_or w'.store.fee_tiers []),
            refl,
            rw now (
                select_fee_bounded volume (unwrap_or w'.store.fee_bps default_fee_bps) tiers
                  (rw kept bounded) b),
          )
      | inr (inl (x, e)) ↦ absurd (ground arith)
      | inr (inr (x, e)) ↦ absurd (ground arith)
    ]
