-- ===== src/Refund/Effects/Bulk.antt =====
-- What the payments made by the admin, alone or in bulk, do to the books of the refund contract.
use ahjoorxmr_contract.Base.{
  ℕ, ◌≤◌, ◌≡◌, refl, ap, inl, inr, Bool, List, [], ◌∷◌, some, unwrap_or, Option-cases, ℤ, pos, ◌+ℤ◌,
  arith,
}
use ahjoorxmr_contract.Host.{Env, ok, panic, trap, Outcome, Outcome-cases, ⊤}
use ahjoorxmr_contract.Refund.Types.{Error, RefundStatus, Payments, Store}
use ahjoorxmr_contract.Refund.Events.{World}
use ahjoorxmr_contract.Refund.Records.{pay_refund, recorded_fee}
use ahjoorxmr_contract.Refund.Process.{
  note_cap, process_refund_internal, process_refund, check_approved, process_each,
  bulk_process_refunds,
}
use ahjoorxmr_contract.Refund.Ledger.{books, Moves, stay, both}
use ahjoorxmr_contract.Refund.Ledger.Invariant.{Inv, Moves-Inv}
use ahjoorxmr_contract.Refund.Effects.Parts.{update_stats_on_process-Idle}
use ahjoorxmr_contract.Refund.Effects.Paying.{
  note_cap-Idle, pays_stored, summed, stored, process_refund_internal-Moves,
}

-- The fee is not changed by a payment.
process_refund_internal-fee :
    (payments : Payments) (id : ℕ) (env : Env) (w w' : World)
    → Inv (books w)
    → unwrap_or w.store.refund_fee_bps 0 ≤ 200
    → process_refund_internal payments id env w ≡ ok (tt, w')
    → w'.store.refund_fee_bps ≡ w.store.refund_fee_bps
unfolding process_refund_internal
process_refund_internal-fee payments id env w w' v bounded h =
    elim (Option-cases (w.store.refund id)) [
      | inl missing ↦ absurd (ground arith)
      | inr (r, f) ↦ elim (Outcome-cases (pay_refund id r env w)) [
        | inl (((fee, rest), w1), k) ↦
            let p = pays_stored id r env w w1 fee rest (v.sound id r f).positive bounded k in
            let same = ap (λ (s : Store). s.refund_fee_bps) p.same_store in
            let sum = unwrap_or (w1.store.refunded_amount r.payment_id) (pos 0) +ℤ r.amount in
            let w2 = summed r.payment_id sum w1 in
            let r' = record r {
              status = RefundStatus.processed;
              processed_at = some env.timestamp;
              fee_amount = recorded_fee fee;
            } in
            elim (Option-cases w1.store.payment_contract_address) [
              | inl unset ↦ absurd (ground arith)
              | inr (address, g) ↦
                  elim (Outcome-cases (note_cap id sum (payments address r.payment_id) env w2)) [
                    | inl ((_, w3), n) ↦
                        let idle =
                          rw n at (note_cap-Idle id sum (payments address r.payment_id) env w2) in
                        let counted =
                          update_stats_on_process-Idle r.merchant r.amount env (stored id r' w3) in
                        ground (arith, counted, idle, same)
                    | inr (inl (x, n)) ↦ absurd (ground arith)
                    | inr (inr (x, n)) ↦ absurd (ground arith)
                  ]
            ]
        | inr (inl (x, k)) ↦ absurd (ground arith)
        | inr (inr (x, k)) ↦ absurd (ground arith)
      ]
    ]

pub process_refund-Moves :
    {a : Bool} (payments : Payments) (admin id : ℕ) (env : Env) (w w' : World)
    → Inv (books w)
    → unwrap_or w.store.refund_fee_bps 0 ≤ 200
    → process_refund payments admin id env w ≡ ok (tt, w')
    → Moves env a (books w) (books w')
unfolding process_refund
process_refund-Moves payments admin id env w w' v bounded h =
    process_refund_internal-Moves payments id env w w' v bounded (ground arith)

process_each-Moves :
    {a : Bool} (payments : Payments) (ids : List ℕ) (sum : ℤ) (env : Env) (w w' : World) (z : ℤ)
    → Inv (books w)
    → unwrap_or w.store.refund_fee_bps 0 ≤ 200
    → process_each payments ids sum env w ≡ ok (z, w')
    → Moves env a (books w) (books w')
unfolding process_each
process_each-Moves payments [] sum env w w' z v bounded h =
    stay (ground arith) (ground arith) (ground arith)
process_each-Moves {a} payments (id ∷ ids) sum env w w' z v bounded h =
    elim (Option-cases (w.store.refund id)) [
      | inl missing ↦ absurd (ground arith)
      | inr (r, f) ↦ elim (Outcome-cases (process_refund_internal payments id env w)) [
        | inl ((_, w1), k) ↦
            let first : Moves env a (books w) (books w1) =
              process_refund_internal-Moves payments id env w w1 v bounded k in
            let fee = process_refund_internal-fee payments id env w w1 v bounded k in
            both first (
              process_each-Moves payments ids (sum +ℤ r.amount) env w1 w' z (Moves-Inv v first)
                (rw fee bounded) (ground arith))
        | inr (inl (x, k)) ↦ absurd (ground arith)
        | inr (inr (x, k)) ↦ absurd (ground arith)
      ]
    ]

-- The first loop of a bulk payment only reads.
abbrev pub Reads : World → Outcome Error (⊤ × World) → Type 0
Reads w (ok (_, w')) = w' ≡ w
Reads w (panic _) = Unit
Reads w (trap _) = Unit

pub check_approved-Reads :
    (ids : List ℕ) (env : Env) (w : World) → Reads w (check_approved ids env w)
unfolding check_approved
check_approved-Reads [] env w = refl
check_approved-Reads (id ∷ ids) env w = ground (arith, check_approved-Reads ids env w)

pub bulk_process_refunds-Moves :
    {a : Bool} (payments : Payments) (admin : ℕ) (ids : List ℕ) (env : Env) (w w' : World)
    → Inv (books w)
    → unwrap_or w.store.refund_fee_bps 0 ≤ 200
    → bulk_process_refunds payments admin ids env w ≡ ok (tt, w')
    → Moves env a (books w) (books w')
unfolding bulk_process_refunds
bulk_process_refunds-Moves {a} payments admin ids env w w' v bounded h =
    let reads = check_approved-Reads ids env w in
    elim (Outcome-cases (process_each payments ids (pos 0) env w)) [
      | inl ((z, w1), k) ↦
          let m : Moves env a (books w) (books w1) =
            process_each-Moves payments ids (pos 0) env w w1 z v bounded k in
          both m (stay (ground (arith, reads)) (ground (arith, reads)) (ground (arith, reads)))
      | inr (inl (x, k)) ↦ absurd (ground (arith, reads))
      | inr (inr (x, k)) ↦ absurd (ground (arith, reads))
    ]
