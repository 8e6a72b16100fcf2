-- ===== src/Refund/Appeals.antt =====
-- The appeals of contracts/ahjoor-refund/src/lib.rs: `appeal_refund` and `resolve_appeal`.
use ahjoorxmr_contract.Base.{
  ℕ, ◌≡◌, ap, ◌∙◌, inl, inr, false, ◌∷◌, some, put, put_self, Option-cases, arith,
}
use ahjoorxmr_contract.Host.{Env, ok, TokenCall}
use ahjoorxmr_contract.Refund.Types.{RefundStatus, Refund}
use ahjoorxmr_contract.Refund.Events.{World}
use ahjoorxmr_contract.Refund.Decide.{appeal_refund}
use ahjoorxmr_contract.Refund.Process.{dismiss_appeal, resolve_appeal}
use ahjoorxmr_contract.Refund.Effects.Parts.{update_stats_on_reject-Idle}
use ahjoorxmr_contract.Refund.Effects.Deciding.{status-rejected}

-- An appeal is open on the refund under `id`, which was rejected before.
abbrev Opened : ℕ → World → World → Type 0
Opened id w w' =
    (r : Refund) × (w.store.refund id ≡ some r)
    × (r.status ≡ RefundStatus.rejected)
    × (w'.store.refund id ≡ some (record r { status = RefundStatus.under_appeal }))
    × (w'.calls ≡ w.calls)

appeal_refund-Opened :
    (customer id : ℕ) (env : Env) (w w' : World)
    → appeal_refund customer id env w ≡ ok (tt, w')
    → Opened id w w'
unfolding appeal_refund
appeal_refund-Opened customer id env w w' h = elim (Option-cases (w.store.refund id)) [
  | inl missing ↦ absurd (ground arith)
  | inr (r, f) ↦
      let replaced : w'.store.refund
          ≡ put w.store.refund id (some (record r { status = RefundStatus.under_appeal })) =
        ground arith in
      (
        r,
        f,
        status-rejected r.status (ground arith),
        ap (λ g. g id) replaced ∙ put_self w.store.refund id _,
        ground arith,
      )
]

resolve_appeal-dismisses :
    (admin id : ℕ) (r : Refund) (env : Env) (w w' : World)
    → w.store.refund id ≡ some r
    → resolve_appeal admin id false env w ≡ ok (tt, w')
    → (w'.store.refund id
        ≡ some (record r { status = RefundStatus.rejected; rejected_at = some env.timestamp }))
      × (w'.calls
          ≡ TokenCall.transfer r.token env.current_contract_address r.customer r.amount ∷ w.calls)
unfolding resolve_appeal dismiss_appeal
resolve_appeal-dismisses admin id r env w w' f h =
    let r' = record r { status = RefundStatus.rejected; rejected_at = some env.timestamp } in
    let c = TokenCall.transfer r.token env.current_contract_address r.customer r.amount in
    let paid : World = record w { calls = c ∷ w.calls } in
    let counted = update_stats_on_reject-Idle r.merchant env paid in
    let replaced : w'.store.refund ≡ put w.store.refund id (some r') = ground (arith, counted) in
    (ap (λ g. g id) replaced ∙ put_self w.store.refund id _, ground (arith, counted))

-- An appeal that is opened and then dismissed pays the refund's whole amount to the customer and
-- leaves the refund rejected as it was before, with a new time of rejection only.
pub appeal-repays :
    (customer admin id : ℕ) (env env' : Env) (w w1 w2 : World)
    → appeal_refund customer id env w ≡ ok (tt, w1)
    → resolve_appeal admin id false env' w1 ≡ ok (tt, w2)
    → (r : Refund) × (w.store.refund id ≡ some r)
      × (r.status ≡ RefundStatus.rejected)
      × (w2.store.refund id ≡ some (record r { rejected_at = some env'.timestamp }))
      × (w2.calls
          ≡ TokenCall.transfer r.token env'.current_contract_address r.customer r.amount ∷ w.calls)
appeal-repays customer admin id env env' w w1 w2 h k =
    let (r, f, was, f1, calls) = appeal_refund-Opened customer id env w w1 h in
    let (f2, paid) =
      resolve_appeal-dismisses admin id (record r { status = RefundStatus.under_appeal }) env' w1 w2
        f1 k in
    (r, f, was, simp was f2, rw calls at paid)
