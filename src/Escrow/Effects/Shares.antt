-- ===== src/Escrow/Effects/Shares.antt =====
-- What the payments of `release_escrow` (contracts/ahjoor-escrow/src/lib.rs) add up to.
use ahjoorxmr_contract.Base.{
  ℕ, ◌+◌, ◌-◌, ◌*◌, ◌/◌, ◌≤◌, ◌≡◌, refl, sym, subst, inl, inr, List, [], ◌∷◌, ◌++◌, ℤ, pos, negsuc,
  ◌+ℤ◌, ◌-ℤ◌, ◌*ℤ◌, ◌/ℤ◌, ◌≤ℤ◌, int_laws, arith, leb, ltb, length, Bool-cases,
}
use native.Mathlib.Nat.{zero-add, add-zero}
use ahjoorxmr_contract.Host.{Env, TokenCall, ok, Outcome-cases}
use ahjoorxmr_contract.Host.Payouts.{payout, Pays, Pays-first, Pays-last}
use ahjoorxmr_contract.Escrow.Types.{Escrow}
use ahjoorxmr_contract.Escrow.Events.{World}
use ahjoorxmr_contract.Escrow.Release.{pay, pay_shares, pay_sellers, pay_out}
use ahjoorxmr_contract.Escrow.Ledger.{bps_total}

-- The shares of the listed sellers of `n`, each rounded down.
pub shares : ℕ → List (ℕ × ℕ) → ℕ
shares n [] = 0
shares n ((_, bps) ∷ rest) = n * bps / 10000 + shares n rest

shares-le : (n : ℕ) (sellers : List (ℕ × ℕ)) → shares n sellers * 10000 ≤ n * bps_total sellers
unfolding shares
shares-le n [] = omega arith
shares-le n ((a, bps) ∷ rest) = omega (arith, shares-le n rest)

-- Sellers who are allocated no more than everything get no more than the amount.
pub shares_bounded :
    (n : ℕ) (sellers : List (ℕ × ℕ)) → bps_total sellers ≤ 10000 → shares n sellers ≤ n
shares_bounded n sellers h = grind (arith, shares-le n sellers)

-- The payments of the shares, newest first: to each listed seller the share that is the seller's.
abbrev pub share_calls : (self token n : ℕ) → List (ℕ × ℕ) → List TokenCall
share_calls self token n [] = []
share_calls self token n ((addr, bps) ∷ rest) =
    share_calls self token n rest ++ payout self token addr (n * bps / 10000)

-- What is paid to several sellers, newest first: the shares of all but the first, then to the first
-- whatever those leave.
abbrev pub seller_calls : (self token n : ℕ) → List (ℕ × ℕ) → List TokenCall
seller_calls self token n [] = []
seller_calls self token n ((addr, _) ∷ rest) =
    payout self token addr (n - shares n rest) ++ share_calls self token n rest

-- One round of the loop: no payment where the share is 0, else one of the share.
pay_shares-step :
    (token n addr bps d : ℕ) (rest : List (ℕ × ℕ)) (env : Env) (w w' : World) (z : ℤ)
    → pay_shares token (pos n) ((addr, bps) ∷ rest) (pos d) env w ≡ ok (z, w')
    → pay_shares token (pos n) rest (pos (d + n * bps / 10000)) env (record w {
      calls = payout env.current_contract_address token addr (n * bps / 10000) ++ w.calls;
    })
      ≡ ok (z, w')
unfolding pay_shares pay ◌*ℤ◌ ◌/ℤ◌ ◌+ℤ◌
pay_shares-step token n addr bps d rest env w w' z h = elim (Bool-cases (ltb 0 (n * bps / 10000))) [
  | inl some_share ↦ rw some_share (ground arith)
  | inr no_share ↦
      let zero_share : n * bps / 10000 ≡ 0 = ground arith in
      rw zero_share (rw (add-zero d) (ground arith))
]

pay_shares-Pays :
    (token n d : ℕ) (sellers : List (ℕ × ℕ)) (env : Env) (w w' : World) (z : ℤ)
    → pay_shares token (pos n) sellers (pos d) env w ≡ ok (z, w')
    → (z ≡ pos (d + shares n sellers))
      × Pays env w w' token
          (pos (shares n sellers))
          (share_calls env.current_contract_address token n sellers)
unfolding shares pay_shares
pay_shares-Pays token n d [] env w w' z h = (ground arith, ground arith)
pay_shares-Pays token n d ((addr, bps) ∷ rest) env w w' z h =
    let (e, p) =
      pay_shares-Pays token n (d + n * bps / 10000) rest env _ w' z
        (pay_shares-step token n addr bps d rest env w w' z h) in
    (
      ground arith,
      Pays-first env w w' token addr (n * bps / 10000) (shares n rest)
          (share_calls env.current_contract_address token n rest) p,
    )

-- The remainder goes to the first seller; it is not negative.
pay_sellers-rest :
    (token n first_addr d : ℕ) (env : Env) (w w' w1 : World) (sellers : List (ℕ × ℕ)) (bps : ℕ)
    → d ≤ n
    → pay_shares token (pos n) sellers (pos 0) env w ≡ ok (pos d, w1)
    → pay_sellers token (pos n) ((first_addr, bps) ∷ sellers) env w ≡ ok (tt, w')
    → w' ≡ record w1 {
      calls = payout env.current_contract_address token first_addr (n - d) ++ w1.calls;
    }
unfolding pay_sellers ◌-ℤ◌
pay_sellers-rest token n first_addr d env w w' w1 sellers bps le e h =
    elim (Bool-cases (ltb 0 (n - d))) [
      | inl some_rest ↦ rw some_rest (ground arith)
      | inr no_rest ↦ rw no_rest (ground arith)
    ]

pay_shares-nonneg :
    (token n : ℕ) (first_addr bps : ℕ) (sellers : List (ℕ × ℕ)) (env : Env) (w w' : World)
    → pay_sellers token (pos n) ((first_addr, bps) ∷ sellers) env w ≡ ok (tt, w')
    → (z : ℤ) × (w1 : World) × (pay_shares token (pos n) sellers (pos 0) env w ≡ ok (z, w1))
unfolding pay_sellers
pay_shares-nonneg token n first_addr bps sellers env w w' h =
    elim (Outcome-cases (pay_shares token (pos n) sellers (pos 0) env w)) [
      | inl (r, e) ↦ (r.0, r.1, e)
      | inr (inl (x, e)) ↦ absurd (ground arith)
      | inr (inr (x, e)) ↦ absurd (ground arith)
    ]

-- Where the sellers' allocations add up to 10000, the multi-party branch of a release, if it
-- succeeds, changes no storage and makes these transfers out of the contract, in the given token: to
-- each seller after the first the seller's share of the amount, rounded down, in their order, then
-- to the first seller what those shares leave, in both cases only where that is positive. They add
-- up to exactly the amount.
pub pay_sellers-Pays :
    (token n : ℕ) (sellers : List (ℕ × ℕ)) (env : Env) (w w' : World)
    → bps_total sellers ≡ 10000
    → pay_sellers token (pos n) sellers env w ≡ ok (tt, w')
    → Pays env w w' token (pos n) (seller_calls env.current_contract_address token n sellers)
pay_sellers-Pays token n [] env w w' a h = absurd (omega arith)
pay_sellers-Pays token n ((first_addr, bps) ∷ rest) env w w' a h =
    let self = env.current_contract_address in
    let (z, w1, e) = pay_shares-nonneg token n first_addr bps rest env w w' h in
    let (ez, p) = pay_shares-Pays token n 0 rest env w w1 z e in
    let le : shares n rest ≤ n = shares_bounded n rest (omega arith) in
    let last =
      pay_sellers-rest token n first_addr (shares n rest) env w w' w1 rest bps le
        (rw (← zero-add (shares n rest), ← ez) e) h in
    let whole : n - shares n rest + shares n rest ≡ n = omega arith in
    let paid = seller_calls self token n ((first_addr, bps) ∷ rest) in
    subst (λ (x : ℕ). Pays env w w' token (pos x) paid) whole
      (subst (λ (x : World). Pays env w x token (pos (n - shares n rest + shares n rest)) paid)
        (sym last)
        (Pays-last env w w1 token first_addr (n - shares n rest) (shares n rest)
          (share_calls self token n rest) p))

pay_sellers_nonneg-Pays :
    (token : ℕ) (x : ℤ) (sellers : List (ℕ × ℕ)) (env : Env) (w w' : World)
    → bps_total sellers ≡ 10000
    → pos 0 ≤ℤ x
    → pay_sellers token x sellers env w ≡ ok (tt, w')
    → (paid : List TokenCall) × Pays env w w' token x paid
pay_sellers_nonneg-Pays token (pos n) sellers env w w' a h k =
    (_, pay_sellers-Pays token n sellers env w w' a k)
pay_sellers_nonneg-Pays token (negsuc n) sellers env w w' a h k = absurd (omega arith)

-- A release pays out exactly the amount of the escrow.
pub pay_out-Pays :
    (id : ℕ) (e : Escrow) (env : Env) (w w' : World)
    → bps_total e.sellers ≡ 10000
    → pos 0 ≤ℤ e.amount
    → pay_out id e env w ≡ ok (tt, w')
    → (paid : List TokenCall) × Pays env w w' e.token e.amount paid
unfolding pay_out
pay_out-Pays id e env w w' a h k = elim (Bool-cases (leb (length e.sellers) 1)) [
  | inl single ↦ (
    TokenCall.transfer e.token env.current_contract_address e.seller e.amount ∷ [],
    record {
      same_store = ground arith;
      paid_calls = ground arith;
      all_out = ((refl, refl, h), tt);
      paid_total = omega int_laws;
    },
  )
  | inr several ↦ elim (Outcome-cases (pay_sellers e.token e.amount e.sellers env w)) [
    | inl (r, f) ↦
        let (paid, p) = pay_sellers_nonneg-Pays e.token e.amount e.sellers env w r.1 a h f in
        (
          paid,
          record {
            same_store = ground (arith, p.same_store);
            paid_calls = ground (arith, p.paid_calls);
            all_out = p.all_out;
            paid_total = p.paid_total;
          },
        )
    | inr (inl (x, f)) ↦ absurd (ground arith)
    | inr (inr (x, f)) ↦ absurd (ground arith)
  ]
]
