-- ===== src/Payments/Shares.antt =====
-- The loops over the recipients of a split payment: `validate_split_recipients` and the shares in
-- `distribute_net_payment` of contracts/ahjoor-payments/src/lib.rs.
use ahjoorxmr_contract.Base.{
  ℕ, ◌+◌, ◌*◌, ◌/◌, ◌≤◌, ◌≡◌, inl, inr, List, [], ◌∷◌, ◌++◌, some, ℤ, pos, ◌+ℤ◌, ◌*ℤ◌, ◌/ℤ◌, arith,
  ltb, Bool-cases,
}
use native.Mathlib.Nat.{add-zero}
use ahjoorxmr_contract.Host.{Env, TokenCall, ok, Outcome-cases}
use ahjoorxmr_contract.Host.Payouts.{payout, Pays, Pays-first}
use ahjoorxmr_contract.Payments.Types.{SplitRecipient, SplitTransfer}
use ahjoorxmr_contract.Payments.Events.{World}
use ahjoorxmr_contract.Payments.Fees.{add_splits, validate_split_recipients, pay, pay_splits}

abbrev splits_total : List SplitRecipient → ℕ
splits_total [] = 0
splits_total (s ∷ splits) = s.bps + splits_total splits

-- The shares of `n`, each rounded down.
abbrev pub split_shares : ℕ → List SplitRecipient → ℕ
split_shares n [] = 0
split_shares n (s ∷ splits) = n * s.bps / 10000 + split_shares n splits

split_shares-le :
    (n : ℕ) (splits : List SplitRecipient) → split_shares n splits * 10000 ≤ n * splits_total splits
split_shares-le n [] = omega arith
split_shares-le n (s ∷ splits) = omega (arith, split_shares-le n splits)

pub split_shares_bounded :
    (n : ℕ) (splits : List SplitRecipient) → splits_total splits ≡ 10000 → split_shares n splits ≤ n
split_shares_bounded n splits h = grind (arith, split_shares-le n splits)

-- The loop adds up the shares.
add_splits-total :
    (acc : ℕ) (splits : List SplitRecipient) (env : Env) (w w' : World) (total_bps : ℕ)
    → add_splits acc splits env w ≡ ok (total_bps, w')
    → total_bps ≡ acc + splits_total splits
unfolding add_splits
add_splits-total acc [] env w w' t h = ground arith
add_splits-total acc (s ∷ splits) env w w' t h =
    let rest = add_splits-total (acc + s.bps) splits env w w' t (ground arith) in
    omega (arith, rest)

pub validate-total :
    (s : SplitRecipient) (splits : List SplitRecipient) (env : Env) (w w' : World)
    → validate_split_recipients (some (s ∷ splits)) env w ≡ ok (tt, w')
    → splits_total (s ∷ splits) ≡ 10000
unfolding validate_split_recipients
validate-total s splits env w w' h = elim (Outcome-cases (add_splits 0 (s ∷ splits) env w)) [
  | inl ((t, w1), e) ↦
      let sum = add_splits-total 0 (s ∷ splits) env w w1 t e in
      let whole : t ≡ 10000 = ground arith in omega (arith, sum, whole)
  | inr (inl (x, e)) ↦ absurd (ground arith)
  | inr (inr (x, e)) ↦ absurd (ground arith)
]

-- The payments of the shares, newest first: to each recipient the share that is the recipient's.
abbrev pub split_calls : (self token n : ℕ) → List SplitRecipient → List TokenCall
split_calls self token n [] = []
split_calls self token n (s ∷ splits) =
    split_calls self token n splits ++ payout self token s.recipient (n * s.bps / 10000)

-- One round of the loop: no payment where the share is 0, else one of the share.
pay_splits-step :
    (token n d : ℕ) (s : SplitRecipient) (splits : List SplitRecipient) (env : Env) (w w' : World)
    (events : List SplitTransfer) (z : ℤ)
    → pay_splits token (pos n) (s ∷ splits) (pos d) env w ≡ ok ((events, z), w')
    → (later : List SplitTransfer) × (pay_splits token
          (pos n)
          splits
          (pos (d + n * s.bps / 10000))
          env
          (record w {
            calls =
                payout env.current_contract_address token s.recipient (n * s.bps / 10000)
                ++ w.calls;
          })
        ≡ ok ((later, z), w'))
unfolding pay_splits pay ◌*ℤ◌ ◌/ℤ◌ ◌+ℤ◌
pay_splits-step token n d s splits env w w' events z h =
    elim (Bool-cases (ltb 0 (n * s.bps / 10000))) [
      | inl some_share ↦
          elim (Outcome-cases (
            pay_splits token (pos n) splits (pos (d + n * s.bps / 10000)) env (record w {
              calls =
                  TokenCall.transfer token env.current_contract_address s.recipient
                    (pos (n * s.bps / 10000))
                  ∷ w.calls;
            }))) [
              | inl (((later, z'), w2), e) ↦ (later, rw some_share (ground arith))
              | inr (inl (x, e)) ↦ absurd (ground arith)
              | inr (inr (x, e)) ↦ absurd (ground arith)
            ]
      | inr no_share ↦
          let zero_share : n * s.bps / 10000 ≡ 0 = ground arith in
          elim (Outcome-cases (pay_splits token (pos n) splits (pos d) env w)) [
            | inl (((later, z'), w2), e) ↦ (later, rw zero_share (rw (add-zero d) (ground arith)))
            | inr (inl (x, e)) ↦ absurd (ground arith)
            | inr (inr (x, e)) ↦ absurd (ground arith)
          ]
    ]

pub pay_splits-Pays :
    (token n d : ℕ) (splits : List SplitRecipient) (env : Env) (w w' : World)
    (events : List SplitTransfer) (z : ℤ)
    → pay_splits token (pos n) splits (pos d) env w ≡ ok ((events, z), w')
    → (z ≡ pos (d + split_shares n splits))
      × Pays env w w' token
          (pos (split_shares n splits))
          (split_calls env.current_contract_address token n splits)
unfolding pay_splits
pay_splits-Pays token n d [] env w w' events z h = (ground arith, ground arith)
pay_splits-Pays token n d (s ∷ splits) env w w' events z h =
    let (later, more) = pay_splits-step token n d s splits env w w' events z h in
    let (e, p) = pay_splits-Pays token n (d + n * s.bps / 10000) splits env _ w' later z more in
    (
      ground arith,
      Pays-first env w w' token s.recipient (n * s.bps / 10000) (split_shares n splits)
          (split_calls env.current_contract_address token n splits) p,
    )
