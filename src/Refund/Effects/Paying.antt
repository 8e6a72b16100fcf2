-- ===== src/Refund/Effects/Paying.antt =====
-- What the payments of refunds do to the books of the refund contract.
use ahjoorxmr_contract.Base.{
  ℕ, ◌≤◌, ◌<◌, ◌≡◌, refl, ap, ◌∙◌, inl, inr, Bool, true, Option, none, some, unwrap_or, put,
  Option-cases, ℤ, pos, negsuc, ◌+ℤ◌, ◌<ℤ◌, int_laws, arith,
}
use ahjoorxmr_contract.Host.{Env, ok, Outcome-cases}
use ahjoorxmr_contract.Host.Tokens.{total}
use ahjoorxmr_contract.Refund.Types.{
  RefundStatus, Refund, Payment, Payments, Store, is_approved_status,
}
use ahjoorxmr_contract.Refund.Events.{World}
use ahjoorxmr_contract.Refund.Records.{pay_refund, recorded_fee}
use ahjoorxmr_contract.Refund.Process.{note_cap, process_refund_internal, auto_approve_refund}
use ahjoorxmr_contract.Refund.Ledger.{
  books, is_pending_status, SameTerms, settle, Moves, one, ◌⟶◌, process, auto_approve,
}
use ahjoorxmr_contract.Refund.Ledger.Invariant.{Inv}
use ahjoorxmr_contract.Refund.Effects.Parts.{
  Idle, update_stats_on_process-Idle, PaysRefund, pay_refund-PaysRefund, refund_calls,
  refund_calls-Out,
}
use ahjoorxmr_contract.Refund.Effects.Deciding.{status-requested}

pub note_cap-Idle :
    (id : ℕ) (total : ℤ) (p : Option Payment) (env : Env) (w : World)
    → Idle w (note_cap id total p env w)
unfolding note_cap
note_cap-Idle id total none env w = (refl, refl, refl, refl, refl)
note_cap-Idle id total (some p) env w = ground arith

-- A positive amount as a number.
positive-number : (x : ℤ) → pos 0 <ℤ x → (n : ℕ) × (x ≡ pos n) × (0 < n)
positive-number (pos n) h = (n, refl, omega arith)
positive-number (negsuc n) h = absurd (omega arith)

-- A stored refund is paid as it should be.
pub pays_stored :
    (id : ℕ) (r : Refund) (env : Env) (w w' : World) (fee rest : ℤ)
    → pos 0 <ℤ r.amount
    → unwrap_or w.store.refund_fee_bps 0 ≤ 200
    → pay_refund id r env w ≡ ok ((fee, rest), w')
    → PaysRefund env w w' r fee rest
pays_stored id r env w w' fee rest h bounded k =
    let (n, e, positive) = positive-number r.amount h in
    pay_refund-PaysRefund id n r env w w' fee rest e positive bounded k

-- A refund paid and stored as processed.
processes :
    {a : Bool} (env : Env) (w w1 w' : World) (id : ℕ) (r r' : Refund) (fee rest : ℤ)
    → pos 0 <ℤ r.amount
    → PaysRefund env w w1 r fee rest
    → w.store.refund id ≡ some r
    → r.status ⟶ RefundStatus.processed
    → is_pending_status r.status ≡ true
    → SameTerms r r'
    → r'.status ≡ RefundStatus.processed
    → w'.store.refund_counter ≡ w1.store.refund_counter
    → w'.store.refund ≡ put w1.store.refund id (some r')
    → w'.calls ≡ w1.calls
    → Moves env a (books w) (books w')
processes env w w1 w' id r r' fee rest h p f edge pending terms over x y z =
    let (out, at_most) =
      refund_calls-Out env.current_contract_address r fee w.store.fee_recipient p.fee_nonneg
        p.fee_at_most h in
    one (
      settle id r r' (refund_calls env.current_contract_address r fee w.store.fee_recipient)
        (record {
          replaces = record {
            found = f;
            terms = terms;
            counter_kept =
                ap (λ c. unwrap_or c 0) (x ∙ ap (λ (s : Store). s.refund_counter) p.same_store);
            replaced = y ∙ ap (λ g. put g id (some r')) (ap (λ (s : Store). s.refund) p.same_store);
          };
          edge = rw over edge;
          out = out;
          conserved = rw (over, pending) (omega (int_laws, at_most));
          made_calls = z ∙ p.made_calls;
        }))

status-approved : (s : RefundStatus) → is_approved_status s ≡ true → s ≡ RefundStatus.approved
unfolding is_approved_status
status-approved s h = ground arith

-- The world after a payment with the sum of what has been refunded raised to `total`.
abbrev pub summed : ℕ → ℤ → World → World
summed payment_id total w = record w {
  store = record w.store { refunded_amount = put w.store.refunded_amount payment_id (some total) };
}

abbrev pub stored : ℕ → Refund → World → World
stored id r w = record w { store = record w.store { refund = put w.store.refund id (some r) } }

pub process_refund_internal-Moves :
    {a : Bool} (payments : Payments) (id : ℕ) (env : Env) (w w' : World)
    → Inv (books w)
    → unwrap_or w.store.refund_fee_bps 0 ≤ 200
    → process_refund_internal payments id env w ≡ ok (tt, w')
    → Moves env a (books w) (books w')
unfolding process_refund_internal
process_refund_internal-Moves payments id env w w' v bounded h =
    elim (Option-cases (w.store.refund id)) [
      | inl missing ↦ absurd (ground arith)
      | inr (r, f) ↦ elim (Outcome-cases (pay_refund id r env w)) [
        | inl (((fee, rest), w1), k) ↦
            let p = pays_stored id r env w w1 fee rest (v.sound id r f).positive bounded k in
            let approved : r.status ≡ RefundStatus.approved =
              status-approved r.status (ground arith) in
            let sum = unwrap_or (w1.store.refunded_amount r.payment_id) (pos 0) +ℤ r.amount in
            let w2 = summed r.payment_id sum w1 in
            let r' = record r {
              status = RefundStatus.processed;
              processed_at = some env.timestamp;
              fee_amount = recorded_fee fee;
            } in
            elim (Option-cases w1.store.payment_contract_address) [
              | inl unset ↦ absurd (ground arith)
              | inr (address, g) ↦
                  elim (Outcome-cases (note_cap id sum (payments address r.payment_id) env w2)) [
                    | inl ((_, w3), n) ↦
                        let idle =
                          rw n at (note_cap-Idle id sum (payments address r.payment_id) env w2) in
                        let counted =
                          update_stats_on_process-Idle r.merchant r.amount env (stored id r' w3) in
                        processes env w w1 w' id r r' fee rest (v.sound id r f).positive p f
                          (rw approved process) (rw approved refl) (ground arith) refl
                          (ground (arith, counted, idle)) (ground (arith, counted, idle))
                          (ground (arith, counted, idle))
                    | inr (inl (x, n)) ↦ absurd (ground arith)
                    | inr (inr (x, n)) ↦ absurd (ground arith)
                  ]
            ]
        | inr (inl (x, k)) ↦ absurd (ground arith)
        | inr (inr (x, k)) ↦ absurd (ground arith)
      ]
    ]

pub auto_approve_refund-Moves :
    {a : Bool} (id : ℕ) (env : Env) (w w' : World)
    → Inv (books w)
    → unwrap_or w.store.refund_fee_bps 0 ≤ 200
    → auto_approve_refund id env w ≡ ok (tt, w')
    → Moves env a (books w) (books w')
unfolding auto_approve_refund
auto_approve_refund-Moves id env w w' v bounded h = elim (Option-cases (w.store.refund id)) [
  | inl missing ↦ absurd (ground arith)
  | inr (r, f) ↦ elim (Outcome-cases (pay_refund id r env w)) [
    | inl (((fee, rest), w1), k) ↦
        let p = pays_stored id r env w w1 fee rest (v.sound id r f).positive bounded k in
        let requested : r.status ≡ RefundStatus.requested =
          status-requested r.status (ground arith) in
        let r' = record r {
          status = RefundStatus.processed;
          processed_at = some env.timestamp;
          auto_approved_source = some "dispute_window";
          fee_amount = recorded_fee fee;
        } in
        let counted = update_stats_on_process-Idle r.merchant r.amount env (stored id r' w1) in
        processes env w w1 w' id r r' fee rest (v.sound id r f).positive p f
          (rw requested auto_approve) (rw requested refl) (ground arith) refl
          (ground (arith, counted)) (ground (arith, counted)) (ground (arith, counted))
    | inr (inl (x, k)) ↦ absurd (ground arith)
    | inr (inr (x, k)) ↦ absurd (ground arith)
  ]
]
