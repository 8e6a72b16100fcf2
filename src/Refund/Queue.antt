-- ===== src/Refund/Queue.antt =====
-- The queue of pending refunds of contracts/ahjoor-refund/src/lib.rs.
use ahjoorxmr_contract.Base.{
  ℕ, ◌≡◌, refl, ap, ◌∙◌, inl, inr, false, List, [], some, put, put_self, unwrap_or, contains,
  without, without_self, Option-cases, arith, ℤ,
}
use ahjoorxmr_contract.Host.{Env, ok, panic, trap, Outcome, Outcome-cases}
use ahjoorxmr_contract.Refund.Types.{Error, RefundStatus, Refund}
use ahjoorxmr_contract.Refund.Events.{World}
use ahjoorxmr_contract.Refund.Records.{
  update_stats_on_approve, update_stats_on_process, pay_refund, recorded_fee,
}
use ahjoorxmr_contract.Refund.Decide.{approve_refund}
use ahjoorxmr_contract.Refund.Process.{auto_approve_refund}
use ahjoorxmr_contract.Refund.Effects.Paying.{stored}

abbrev pub queue : World → List ℕ
queue w = unwrap_or w.store.pending_refund_queue []

abbrev KeepsQueue : {A : Type 0} → World → Outcome Error (A × World) → Type 0
KeepsQueue w (ok (_, w')) =
    (w'.store.pending_refund_queue ≡ w.store.pending_refund_queue)
    × (w'.store.refunded_amount ≡ w.store.refunded_amount)
    × (w'.store.refund ≡ w.store.refund)
KeepsQueue w (panic _) = Unit
KeepsQueue w (trap _) = Unit

update_stats_on_process-KeepsQueue :
    (merchant : ℕ) (x : ℤ) (env : Env) (w : World)
    → KeepsQueue w (update_stats_on_process merchant x env w)
unfolding update_stats_on_process
update_stats_on_process-KeepsQueue merchant x env w = ground arith

pay_refund-KeepsQueue :
    (id : ℕ) (r : Refund) (env : Env) (w : World) → KeepsQueue w (pay_refund id r env w)
unfolding pay_refund
pay_refund-KeepsQueue id r env w = ground arith

-- An approved refund is not in the queue of pending refunds any more.
pub approve_refund-dequeues :
    (admin id : ℕ) (env : Env) (w w' : World)
    → approve_refund admin id env w ≡ ok (tt, w')
    → contains id (queue w') ≡ false
unfolding approve_refund update_stats_on_approve
approve_refund-dequeues admin id env w w' h =
    let left : queue w' ≡ without id (queue w) = ground arith in rw left (without_self id (queue w))

-- A refund paid by `auto_approve_refund` is processed but stays in the queue of pending refunds, and
-- what is recorded as refunded of its payment does not change.
pub auto_approve_refund-queue :
    (id : ℕ) (env : Env) (w w' : World)
    → auto_approve_refund id env w ≡ ok (tt, w')
    → (r : Refund) × (w'.store.refund id ≡ some r)
      × (r.status ≡ RefundStatus.processed)
      × (queue w' ≡ queue w)
      × (w'.store.refunded_amount ≡ w.store.refunded_amount)
unfolding auto_approve_refund
auto_approve_refund-queue id env w w' h = elim (Option-cases (w.store.refund id)) [
  | inl missing ↦ absurd (ground arith)
  | inr (r, f) ↦
      let paid = pay_refund-KeepsQueue id r env w in
      elim (Outcome-cases (pay_refund id r env w)) [
        | inl (((fee, rest), w1), k) ↦
            let r' = record r {
              status = RefundStatus.processed;
              processed_at = some env.timestamp;
              auto_approved_source = some "dispute_window";
              fee_amount = recorded_fee fee;
            } in
            let same = rw k at paid in
            let counted =
              update_stats_on_process-KeepsQueue r.merchant r.amount env (stored id r' w1) in
            let placed : w'.store.refund ≡ put w1.store.refund id (some r') =
              ground (arith, counted) in
            (
              r',
              ap (λ g. g id) placed ∙ put_self w1.store.refund id _,
              refl,
              ground (arith, counted, same),
              ground (arith, counted, same),
            )
        | inr (inl (x, k)) ↦ absurd (ground arith)
        | inr (inr (x, k)) ↦ absurd (ground arith)
      ]
]
