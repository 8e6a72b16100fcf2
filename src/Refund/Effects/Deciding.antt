-- ===== src/Refund/Effects/Deciding.antt =====
-- What the decisions on requests and the appeals do to the books of the refund contract.
use ahjoorxmr_contract.Base.{
  ℕ, ◌≡◌, refl, inl, inr, Bool, true, false, [], ◌∷◌, some, String, unwrap_or, put, without,
  Option-cases, ℤ, pos, ◌≤ℤ◌, ◌<ℤ◌, int_laws, arith,
}
use ahjoorxmr_contract.Host.{Env, ok, TokenCall}
use ahjoorxmr_contract.Refund.Types.{RefundStatus, Refund, is_requested_status, is_rejected_status}
use ahjoorxmr_contract.Refund.Events.{World}
use ahjoorxmr_contract.Refund.Decide.{
  approve_refund, reject_refund, cancel_refund_request, auto_cancel_expired_request,
  auto_reject_stale_refund, appeal_refund,
}
use ahjoorxmr_contract.Refund.Ledger.{
  Books, books, pending_amount, is_pending_status, Replaces, settle, appeal, Moves, one, ◌⟶◌,
  approve, reject, cancel,
}
use ahjoorxmr_contract.Refund.Ledger.Invariant.{Inv}
use ahjoorxmr_contract.Refund.Effects.Parts.{
  update_stats_on_approve-Idle, update_stats_on_reject-Idle,
}

-- The only status that the test accepts.
pub status-requested :
    (s : RefundStatus) → is_requested_status s ≡ true → s ≡ RefundStatus.requested
unfolding is_requested_status
status-requested s h = ground arith

-- The storage with a refund decided and out of the queue.
abbrev decided : ℕ → Refund → World → World
decided id r w = record w {
  store = record w.store {
    refund = put w.store.refund id (some r);
    pending_refund_queue = some (without id (unwrap_or w.store.pending_refund_queue []));
  };
}

nonneg_of_pos : (x : ℤ) → pos 0 <ℤ x → pos 0 ≤ℤ x
nonneg_of_pos x h = omega (arith, h)

-- A decision that moves no tokens.
decides :
    {a : Bool} (env : Env) (b b' : Books) (i : ℕ) (r r' : Refund)
    → Replaces b b' i r r'
    → r.status ⟶ r'.status
    → pending_amount r' ≤ℤ pending_amount r
    → b'.calls ≡ b.calls
    → Moves env a b b'
decides env b b' i r r' p edge le c = one (
    settle i r r' [] (record {
      replaces = p;
      edge = edge;
      out = tt;
      conserved = omega (int_laws, le);
      made_calls = c;
    }))

pub approve_refund-Moves :
    {a : Bool} (admin id : ℕ) (env : Env) (w w' : World)
    → approve_refund admin id env w ≡ ok (tt, w')
    → Moves env a (books w) (books w')
unfolding approve_refund
approve_refund-Moves admin id env w w' h = elim (Option-cases (w.store.refund id)) [
  | inl missing ↦ absurd (ground arith)
  | inr (r, f) ↦
      let r' = record r { status = RefundStatus.approved; approved_at = some env.timestamp } in
      let requested : r.status ≡ RefundStatus.requested =
        status-requested r.status (ground arith) in
      let idle = update_stats_on_approve-Idle r.merchant env (decided id r' w) in
      decides env (books w) (books w') id r r' (ground (arith, idle)) (rw requested approve)
        (rw requested (omega arith)) (ground (arith, idle))
]

pub reject_refund-Moves :
    {a : Bool} (admin id : ℕ) (reason : String) (env : Env) (w w' : World)
    → Inv (books w)
    → reject_refund admin id reason env w ≡ ok (tt, w')
    → Moves env a (books w) (books w')
unfolding reject_refund
reject_refund-Moves admin id reason env w w' v h = elim (Option-cases (w.store.refund id)) [
  | inl missing ↦ absurd (ground arith)
  | inr (r, f) ↦
      let r' = record r { status = RefundStatus.rejected; rejected_at = some env.timestamp } in
      let requested : r.status ≡ RefundStatus.requested =
        status-requested r.status (ground arith) in
      let idle = update_stats_on_reject-Idle r.merchant env (decided id r' w) in
      decides env (books w) (books w') id r r' (ground (arith, idle)) (rw requested reject)
        (rw requested (nonneg_of_pos r.amount (v.sound id r f).positive)) (ground (arith, idle))
]

-- The whole amount goes back to the customer, and the refund is over.
returns :
    {a : Bool} (env : Env) (b b' : Books) (i : ℕ) (r r' : Refund)
    → Inv b
    → Replaces b b' i r r'
    → r.status ≡ RefundStatus.requested
    → RefundStatus.requested ⟶ r'.status
    → is_pending_status r'.status ≡ false
    → b'.calls
      ≡ TokenCall.transfer r.token env.current_contract_address r.customer r.amount ∷ b.calls
    → Moves env a b b'
returns env b b' i r r' v p requested edge over c = one (
    settle i r r' (TokenCall.transfer r.token env.current_contract_address r.customer r.amount ∷ [])
      (record {
        replaces = p;
        edge = rw requested edge;
        out = ((refl, refl, omega (arith, (v.sound i r p.found).positive)), tt);
        conserved = rw (requested, over) (omega int_laws);
        made_calls = c;
      }))

pub cancel_refund_request-Moves :
    {a : Bool} (customer id : ℕ) (env : Env) (w w' : World)
    → Inv (books w)
    → cancel_refund_request customer id env w ≡ ok (tt, w')
    → Moves env a (books w) (books w')
unfolding cancel_refund_request
cancel_refund_request-Moves customer id env w w' v h = elim (Option-cases (w.store.refund id)) [
  | inl missing ↦ absurd (ground arith)
  | inr (r, f) ↦
      returns env (books w) (books w') id r (record r { status = RefundStatus.cancelled }) v
        (ground arith) (status-requested r.status (ground arith)) cancel refl (ground arith)
]

pub auto_cancel_expired_request-Moves :
    {a : Bool} (id : ℕ) (env : Env) (w w' : World)
    → Inv (books w)
    → auto_cancel_expired_request id env w ≡ ok (tt, w')
    → Moves env a (books w) (books w')
unfolding auto_cancel_expired_request
auto_cancel_expired_request-Moves id env w w' v h = elim (Option-cases (w.store.refund id)) [
  | inl missing ↦ absurd (ground arith)
  | inr (r, f) ↦
      returns env (books w) (books w') id r (record r { status = RefundStatus.cancelled }) v
        (ground arith) (status-requested r.status (ground arith)) cancel refl (ground arith)
]

pub auto_reject_stale_refund-Moves :
    {a : Bool} (id : ℕ) (env : Env) (w w' : World)
    → Inv (books w)
    → auto_reject_stale_refund id env w ≡ ok (tt, w')
    → Moves env a (books w) (books w')
unfolding auto_reject_stale_refund
auto_reject_stale_refund-Moves id env w w' v h = elim (Option-cases (w.store.refund id)) [
  | inl missing ↦ absurd (ground arith)
  | inr (r, f) ↦
      let r' = record r { status = RefundStatus.rejected; rejected_at = some env.timestamp } in
      let paid : World = record w {
        calls =
            TokenCall.transfer r.token env.current_contract_address r.customer r.amount ∷ w.calls;
      } in
      let idle = update_stats_on_reject-Idle r.merchant env (decided id r' paid) in
      returns env (books w) (books w') id r r' v (ground (arith, idle))
        (status-requested r.status (ground arith)) reject refl (ground (arith, idle))
]

pub status-rejected : (s : RefundStatus) → is_rejected_status s ≡ true → s ≡ RefundStatus.rejected
unfolding is_rejected_status
status-rejected s h = ground arith

pub appeal_refund-Moves :
    (customer id : ℕ) (env : Env) (w w' : World)
    → appeal_refund customer id env w ≡ ok (tt, w')
    → Moves env true (books w) (books w')
unfolding appeal_refund
appeal_refund-Moves customer id env w w' h = elim (Option-cases (w.store.refund id)) [
  | inl missing ↦ absurd (ground arith)
  | inr (r, f) ↦ one (
      appeal id r (record r { status = RefundStatus.under_appeal })
        (record {
          replaces = ground arith;
          was_rejected = status-rejected r.status (ground arith);
          appealed = refl;
          no_calls = ground arith;
        }))
]
