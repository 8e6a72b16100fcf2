-- ===== src/Refund/Effects/Appealing.antt =====
-- What the end of an appeal does to the books of the refund contract.
use ahjoorxmr_contract.Base.{
  ℕ, ◌≤◌, ◌≡◌, refl, ◌∙◌, ap, inl, inr, Bool, true, false, [], ◌∷◌, some, unwrap_or, put,
  Option-cases, pos, ◌+ℤ◌, int_laws, arith,
}
use ahjoorxmr_contract.Host.{Env, ok, Outcome-cases, TokenCall}
use ahjoorxmr_contract.Refund.Types.{RefundStatus, Store, is_under_appeal_status}
use ahjoorxmr_contract.Refund.Events.{World}
use ahjoorxmr_contract.Refund.Records.{pay_refund, recorded_fee}
use ahjoorxmr_contract.Refund.Process.{grant_appeal, dismiss_appeal, resolve_appeal}
use ahjoorxmr_contract.Refund.Ledger.{books, resolve, Moves, one}
use ahjoorxmr_contract.Refund.Ledger.Invariant.{Inv}
use ahjoorxmr_contract.Refund.Effects.Parts.{
  update_stats_on_process-Idle, update_stats_on_reject-Idle, refund_calls, refund_calls-Out,
}
use ahjoorxmr_contract.Refund.Effects.Paying.{pays_stored, summed}

status-appealed :
    (s : RefundStatus) → is_under_appeal_status s ≡ true → s ≡ RefundStatus.under_appeal
unfolding is_under_appeal_status
status-appealed s h = ground arith

resolve_appeal-granted :
    {a : Bool} (admin id : ℕ) (env : Env) (w w' : World)
    → Inv (books w)
    → unwrap_or w.store.refund_fee_bps 0 ≤ 200
    → resolve_appeal admin id true env w ≡ ok (tt, w')
    → Moves env a (books w) (books w')
unfolding resolve_appeal grant_appeal
resolve_appeal-granted admin id env w w' v bounded h = elim (Option-cases (w.store.refund id)) [
  | inl missing ↦ absurd (ground arith)
  | inr (r, f) ↦ elim (Outcome-cases (pay_refund id r env w)) [
    | inl (((fee, rest), w1), k) ↦
        let p = pays_stored id r env w w1 fee rest (v.sound id r f).positive bounded k in
        let (out, at_most) =
          refund_calls-Out env.current_contract_address r fee w.store.fee_recipient p.fee_nonneg
            p.fee_at_most (v.sound id r f).positive in
        let sum = unwrap_or (w1.store.refunded_amount r.payment_id) (pos 0) +ℤ r.amount in
        let r' = record r {
          status = RefundStatus.processed;
          processed_at = some env.timestamp;
          fee_amount = recorded_fee fee;
        } in
        let counted =
          update_stats_on_process-Idle r.merchant r.amount env (summed r.payment_id sum w1) in
        let counter = ap (λ (s : Store). s.refund_counter) p.same_store in
        let before = ap (λ (s : Store). s.refund) p.same_store in
        let counter' : w'.store.refund_counter ≡ w1.store.refund_counter =
          ground (arith, counted) in
        let refunds' : w'.store.refund ≡ put w1.store.refund id (some r') =
          ground (arith, counted) in
        one (
          resolve id r r' (refund_calls env.current_contract_address r fee w.store.fee_recipient)
            (record {
              replaces = record {
                found = f;
                terms = ground arith;
                counter_kept = ap (λ c. unwrap_or c 0) (counter' ∙ counter);
                replaced = refunds' ∙ ap (λ g. put g id (some r')) before;
              };
              was_appealed = status-appealed r.status (ground arith);
              ended = inl refl;
              out = out;
              at_most = at_most;
              made_calls = ground (arith, counted) ∙ p.made_calls;
            }))
    | inr (inl (x, k)) ↦ absurd (ground arith)
    | inr (inr (x, k)) ↦ absurd (ground arith)
  ]
]

resolve_appeal-dismissed :
    {a : Bool} (admin id : ℕ) (env : Env) (w w' : World)
    → Inv (books w)
    → resolve_appeal admin id false env w ≡ ok (tt, w')
    → Moves env a (books w) (books w')
unfolding resolve_appeal dismiss_appeal
resolve_appeal-dismissed admin id env w w' v h = elim (Option-cases (w.store.refund id)) [
  | inl missing ↦ absurd (ground arith)
  | inr (r, f) ↦
      let r' = record r { status = RefundStatus.rejected; rejected_at = some env.timestamp } in
      let c = TokenCall.transfer r.token env.current_contract_address r.customer r.amount in
      let paid : World = record w { calls = c ∷ w.calls } in
      let counted = update_stats_on_reject-Idle r.merchant env paid in
      one (
        resolve id r r' (c ∷ []) (record {
          replaces = ground (arith, counted);
          was_appealed = status-appealed r.status (ground arith);
          ended = inr refl;
          out = ((refl, refl, omega (arith, (v.sound id r f).positive)), tt);
          at_most = omega int_laws;
          made_calls = ground (arith, counted);
        }))
]

pub resolve_appeal-Moves :
    {a : Bool} (admin id : ℕ) (approve : Bool) (env : Env) (w w' : World)
    → Inv (books w)
    → unwrap_or w.store.refund_fee_bps 0 ≤ 200
    → resolve_appeal admin id approve env w ≡ ok (tt, w')
    → Moves env a (books w) (books w')
resolve_appeal-Moves admin id true env w w' v bounded h =
    resolve_appeal-granted admin id env w w' v bounded h
resolve_appeal-Moves admin id false env w w' v bounded h =
    resolve_appeal-dismissed admin id env w w' v h
