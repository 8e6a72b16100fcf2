-- ===== src/Escrow/Payouts.antt =====
-- What a release and the resolution of a dispute pay, to whom and by whose decision:
-- `release_escrow` and `resolve_dispute` of contracts/ahjoor-escrow/src/lib.rs.
use ahjoorxmr_contract.Base.{
  le_of_fiftieth, ℕ, ◌≤◌, ◌≡◌, ap, ◌∙◌, ◌⊎◌, inl, inr, Bool, true, false, List, ◌++◌, some,
  Option-cases, arith, ℤ, pos, ◌*ℤ◌, ◌≤ℤ◌, put, unwrap_or, if◌then◌else◌, ◌==◌,
}
use ahjoorxmr_contract.Host.{Env, ok, TokenCall, Outcome-cases}
use ahjoorxmr_contract.Host.Tokens.{AllOut, total}
use ahjoorxmr_contract.Escrow.Types.{
  EscrowStatus, Escrow, Store, max_protocol_fee_bps, is_open_escrow_status, is_disputed_status,
  is_partially_disputed_status,
}
use ahjoorxmr_contract.Escrow.Events.{World}
use ahjoorxmr_contract.Escrow.Release.{release_escrow, pay_out, renews, try_auto_renew}
use ahjoorxmr_contract.Escrow.Disputes.{resolve_dispute}
use ahjoorxmr_contract.Escrow.Ledger.{books}
use ahjoorxmr_contract.Escrow.Ledger.Invariant.{Inv}
use ahjoorxmr_contract.Escrow.Effects.Shares.{pay_out-Pays}
use ahjoorxmr_contract.Escrow.Effects.Leaving.{touch-cases, open_funded}
use ahjoorxmr_contract.Escrow.Effects.Disputing.{
  protocol_fee_bounds, fee_on, awards, awards-Out, disputed_funded,
}

-- A release of the whole escrow.
pub record Releases (caller id : ℕ) (env : Env) (w w' : World) (e : Escrow) (paid : List TokenCall)
    : Type 0 where
  pub found : w.store.escrow id ≡ some e
  pub opened : is_open_escrow_status e.status ≡ true
  pub authorised : env.authorized caller ≡ true
  pub decided_by : (caller ≡ e.buyer) ⊎ (caller ≡ e.arbiter)
  pub all_out : AllOut env.current_contract_address e.token paid
  pub paid_total : total paid ≡ e.amount
  pub made_calls : w'.calls ≡ paid ++ w.calls
  pub over :
      w'.store.escrow ≡ put w.store.escrow id (some (record e { status = EscrowStatus.released }))

-- From books that satisfy their invariant, a release of an escrow that does not renew itself was
-- decided by its buyer or its arbiter, with their authorisation, on an open escrow. It pays out of
-- the contract exactly the amount of the escrow in its token, however the sellers' shares are
-- rounded, and ends the escrow.
pub release_escrow-Releases :
    (caller id : ℕ) (env : Env) (w w' : World)
    → Inv env.current_contract_address (books w)
    → ((e : Escrow) → w.store.escrow id ≡ some e → renews e ≡ false)
    → release_escrow caller id env w ≡ ok (tt, w')
    → (e : Escrow) × (paid : List TokenCall) × Releases caller id env w w' e paid
unfolding release_escrow try_auto_renew
release_escrow-Releases caller id env w w' v once h = elim (Option-cases (w.store.escrow id)) [
  | inl missing ↦ absurd (ground arith)
  | inr (e, f) ↦
      let (w1, t, p, q, r) = touch-cases (caller == e.buyer) e env w in
      let opened : is_open_escrow_status e.status ≡ true = ground arith in
      let funded = open_funded (books w) id e v f opened in
      let single = once e f in
      elim (Outcome-cases (pay_out id e env w1)) [
        | inl ((_, w2), k) ↦
            let (paid, pays) =
              pay_out-Pays id e env w1 w2 (v.sound id e f).is_allocated (omega arith) k in
            let kept = ap (λ (s : Store). s.escrow) pays.same_store ∙ p in
            (
              e,
              paid,
              record {
                found = f;
                opened = opened;
                authorised = ground arith;
                decided_by = ground arith;
                all_out = pays.all_out;
                paid_total = pays.paid_total;
                made_calls = ground (arith, pays.paid_calls);
                over = ground (arith, kept);
              },
            )
        | inr (inl (x, k)) ↦ absurd (ground arith)
        | inr (inr (x, k)) ↦ absurd (ground arith)
      ]
]

-- A dispute resolved with the fee `fee`.
pub record Resolves (arbiter id : ℕ) (to_seller : Bool) (env : Env) (w w' : World) (e : Escrow)
    (fee : ℤ) : Type 0 where
  pub found : w.store.escrow id ≡ some e
  pub disputed :
      (is_disputed_status e.status ≡ true) ⊎ (is_partially_disputed_status e.status ≡ true)
  pub authorised : env.authorized arbiter ≡ true
  pub decided_by : arbiter ≡ e.arbiter
  pub fee_nonneg : pos 0 ≤ℤ fee
  pub fee_at_most : fee *ℤ pos 50 ≤ℤ e.amount
  -- the winner's payment, and before it the fee if there is one
  pub made_calls :
      w'.calls
      ≡ awards env.current_contract_address e fee
          (unwrap_or w.store.fee_recipient 0)
          (if to_seller then e.seller else e.buyer)
        ++ w.calls
  pub paid_total :
      total (
        awards env.current_contract_address e fee
          (unwrap_or w.store.fee_recipient 0)
          (if to_seller then e.seller else e.buyer))
      ≡ e.amount
  pub over :
      w'.store.escrow
      ≡ put w.store.escrow id (
          some (record e {
            status = if to_seller then EscrowStatus.released else EscrowStatus.refunded;
          }))

-- From books that satisfy their invariant and with a fee of at most 200 basis points, the
-- resolution of a dispute is the authorised decision of the escrow's arbiter on a disputed escrow.
-- The fee taken is not negative and at most a fiftieth of the amount; it goes to the fee's
-- recipient and the rest to the side that the arbiter decides for, and both together are exactly
-- the amount. The escrow is then over.
pub resolve_dispute-Resolves :
    (arbiter id : ℕ) (to_seller : Bool) (env : Env) (w w' : World)
    → Inv env.current_contract_address (books w)
    → unwrap_or w.store.protocol_fee_bps 0 ≤ max_protocol_fee_bps
    → resolve_dispute arbiter id to_seller env w ≡ ok (tt, w')
    → (e : Escrow) × (fee : ℤ) × Resolves arbiter id to_seller env w w' e fee
unfolding resolve_dispute
resolve_dispute-Resolves arbiter id to_seller env w w' v bounded h =
    elim (Option-cases (w.store.escrow id)) [
      | inl missing ↦ absurd (ground arith)
      | inr (e, f) ↦
          let bps = unwrap_or w.store.protocol_fee_bps 0 in
          let disputed : (is_disputed_status e.status ≡ true)
              ⊎ (is_partially_disputed_status e.status ≡ true) =
            ground arith in
          let funded = disputed_funded (books w) id e v f disputed in
          let (nonneg, small) = protocol_fee_bounds e.amount bps (omega arith) bounded in
          let (out, sum) =
            awards-Out env.current_contract_address e (fee_on e.amount bps)
              (unwrap_or w.store.fee_recipient 0) (if to_seller then e.seller else e.buyer) nonneg
              (le_of_fiftieth (fee_on e.amount bps) e.amount nonneg small) in
          (
            e,
            fee_on e.amount bps,
            record {
              found = f;
              disputed = disputed;
              authorised = ground arith;
              decided_by = ground arith;
              fee_nonneg = nonneg;
              fee_at_most = small;
              made_calls = ground arith;
              paid_total = sum;
              over = ground arith;
            },
          )
    ]
