-- ===== src/Refund/Config/Calls.antt =====
-- What each entry point of contracts/ahjoor-refund/src/lib.rs does to the configuration.
use ahjoorxmr_contract.Base.{
  ℕ, ◌≡◌, refl, ◌∙◌, inl, inr, Bool, true, false, List, [], ◌∷◌, Option, none, some, String, ltb,
  unwrap_or, contains, ◌-◌, arith, ℤ, pos, ◌+ℤ◌, Option-cases,
}
use ahjoorxmr_contract.Host.{ok, Env, Outcome-cases, when, TokenCall}
use ahjoorxmr_contract.Refund.Types.{Refund, RefundStatus, Payment, Payments}
use ahjoorxmr_contract.Refund.Events.{World}
use ahjoorxmr_contract.Refund.Admin
use ahjoorxmr_contract.Refund.Records.{
  update_stats_on_request, update_stats_on_approve, update_stats_on_reject, update_stats_on_process,
  pay_refund, recorded_fee,
}
use ahjoorxmr_contract.Refund.Request.{check_cooldown, apply_tiers, request_refund}
use ahjoorxmr_contract.Refund.Decide
use ahjoorxmr_contract.Refund.Process
use ahjoorxmr_contract.Refund.Entry.{Call, invoke}
use ahjoorxmr_contract.Refund.Effects.Stages.{counted_up, requested_in, request_refund-Stages}
use ahjoorxmr_contract.Refund.Effects.Paying.{summed, stored}
use ahjoorxmr_contract.Refund.Effects.Bulk.{check_approved-Reads}
use ahjoorxmr_contract.Refund.Config.{config, Keeps}
use ahjoorxmr_contract.Refund.Config.Parts.{
  check_cooldown-Keeps, match_tier-Keeps, store_request-Keeps, pay_refund-Keeps,
  update_stats_on_process-Keeps,
}

apply_tiers-Keeps :
    (tiers : List (ℕ × ℕ)) (elapsed : ℕ) (paid already amount : ℤ) (env : Env) (w : World)
    → Keeps w (apply_tiers tiers elapsed paid already amount env w)
unfolding apply_tiers
apply_tiers-Keeps [] elapsed paid already amount env w = refl
apply_tiers-Keeps (t ∷ tiers) elapsed paid already amount env w =
    ground (arith, match_tier-Keeps (t ∷ tiers) elapsed paid already amount env w)

approve_refund-Keeps :
    (admin id : ℕ) (env : Env) (w : World) → Keeps w (Decide.approve_refund admin id env w)
unfolding Decide.approve_refund update_stats_on_approve
approve_refund-Keeps admin id env w = ground arith

reject_refund-Keeps :
    (admin id : ℕ) (why : String) (env : Env) (w : World)
    → Keeps w (Decide.reject_refund admin id why env w)
unfolding Decide.reject_refund update_stats_on_reject
reject_refund-Keeps admin id why env w = ground arith

auto_reject_stale_refund-Keeps :
    (id : ℕ) (env : Env) (w : World) → Keeps w (Decide.auto_reject_stale_refund id env w)
unfolding Decide.auto_reject_stale_refund update_stats_on_reject
auto_reject_stale_refund-Keeps id env w = ground arith

dismiss_appeal-Keeps :
    (r : Refund) (now : ℕ) (env : Env) (w : World) → Keeps w (Process.dismiss_appeal r now env w)
unfolding Process.dismiss_appeal update_stats_on_reject
dismiss_appeal-Keeps r now env w = ground arith

merchant_refund-Keeps :
    (payments : Payments) (merchant payment_id : ℕ) (amount : ℤ) (reason_code stored_code : ℕ)
    (stored_rejection : Option ℕ) (env : Env) (w : World)
    → Keeps w (
        Process.merchant_refund payments merchant payment_id amount reason_code stored_code
          stored_rejection env w)
unfolding Process.merchant_refund update_stats_on_request update_stats_on_process
merchant_refund-Keeps payments merchant payment_id amount reason_code stored_code stored_rejection
      env w =
    ground arith

register_escrow_refund-Keeps :
    (escrow_id buyer : ℕ) (amount : ℤ) (token : ℕ) (env : Env) (w : World)
    → Keeps w (Process.register_escrow_refund escrow_id buyer amount token env w)
unfolding Process.register_escrow_refund
register_escrow_refund-Keeps escrow_id buyer amount token env w = ground arith

note_cap-Keeps :
    (id : ℕ) (total : ℤ) (p : Option Payment) (env : Env) (w : World)
    → Keeps w (Process.note_cap id total p env w)
unfolding Process.note_cap
note_cap-Keeps id total none env w = refl
note_cap-Keeps id total (some p) env w = ground arith

process_refund_internal-Keeps :
    (payments : Payments) (id : ℕ) (env : Env) (w : World)
    → Keeps w (Process.process_refund_internal payments id env w)
unfolding Process.process_refund_internal
process_refund_internal-Keeps payments id env w = elim (Option-cases (w.store.refund id)) [
  | inl missing ↦ ground arith
  | inr (r, f) ↦
      let paid = pay_refund-Keeps id r env w in
      elim (Outcome-cases (pay_refund id r env w)) [
        | inl (((fee, rest), w1), k) ↦
            let same = rw k at paid in
            let sum = unwrap_or (w1.store.refunded_amount r.payment_id) (pos 0) +ℤ r.amount in
            let w2 = summed r.payment_id sum w1 in
            let r' = record r {
              status = RefundStatus.processed;
              processed_at = some env.timestamp;
              fee_amount = recorded_fee fee;
            } in
            elim (Option-cases w1.store.payment_contract_address) [
              | inl unset ↦ ground arith
              | inr (address, g) ↦
                  let noted = note_cap-Keeps id sum (payments address r.payment_id) env w2 in
                  elim (Outcome-cases
                    (Process.note_cap id sum (payments address r.payment_id) env w2)) [
                      | inl ((_, w3), n) ↦
                          let counted =
                            update_stats_on_process-Keeps r.merchant r.amount env
                              (stored id r' w3) in
                          ground (arith, counted, rw n at noted, same)
                      | inr (inl (x, n)) ↦ ground arith
                      | inr (inr (x, n)) ↦ ground arith
                    ]
            ]
        | inr (inl (x, k)) ↦ ground arith
        | inr (inr (x, k)) ↦ ground arith
      ]
]

auto_approve_refund-Keeps :
    (id : ℕ) (env : Env) (w : World) → Keeps w (Process.auto_approve_refund id env w)
unfolding Process.auto_approve_refund
auto_approve_refund-Keeps id env w = elim (Option-cases (w.store.refund id)) [
  | inl missing ↦ ground arith
  | inr (r, f) ↦
      let paid = pay_refund-Keeps id r env w in
      elim (Outcome-cases (pay_refund id r env w)) [
        | inl (((fee, rest), w1), k) ↦
            let r' = record r {
              status = RefundStatus.processed;
              processed_at = some env.timestamp;
              auto_approved_source = some "dispute_window";
              fee_amount = recorded_fee fee;
            } in
            let counted = update_stats_on_process-Keeps r.merchant r.amount env (stored id r' w1) in
            ground (arith, counted, rw k at paid)
        | inr (inl (x, k)) ↦ ground arith
        | inr (inr (x, k)) ↦ ground arith
      ]
]

grant_appeal-Keeps :
    (id : ℕ) (r : Refund) (now : ℕ) (env : Env) (w : World)
    → Keeps w (Process.grant_appeal id r now env w)
unfolding Process.grant_appeal
grant_appeal-Keeps id r now env w =
    let paid = pay_refund-Keeps id r env w in
    elim (Outcome-cases (pay_refund id r env w)) [
      | inl (((fee, rest), w1), k) ↦
          let sum = unwrap_or (w1.store.refunded_amount r.payment_id) (pos 0) +ℤ r.amount in
          ground (
            arith,
            update_stats_on_process-Keeps r.merchant r.amount env (summed r.payment_id sum w1),
            rw k at paid,
          )
      | inr (inl (x, k)) ↦ ground arith
      | inr (inr (x, k)) ↦ ground arith
    ]

resolve_appeal-Keeps :
    (admin id : ℕ) (approve : Bool) (env : Env) (w : World)
    → Keeps w (Process.resolve_appeal admin id approve env w)
unfolding Process.resolve_appeal
resolve_appeal-Keeps admin id approve env w = elim (Option-cases (w.store.refund id)) [
  | inl missing ↦ ground arith
  | inr (r, f) ↦ ground (
    arith,
    grant_appeal-Keeps id r env.timestamp env w,
    dismiss_appeal-Keeps r env.timestamp env w,
  )
]

process_each-Keeps :
    (payments : Payments) (ids : List ℕ) (sum : ℤ) (env : Env) (w : World)
    → Keeps w (Process.process_each payments ids sum env w)
unfolding Process.process_each
process_each-Keeps payments [] sum env w = refl
process_each-Keeps payments (id ∷ ids) sum env w = elim (Option-cases (w.store.refund id)) [
  | inl missing ↦ ground arith
  | inr (r, f) ↦
      let first = process_refund_internal-Keeps payments id env w in
      elim (Outcome-cases (Process.process_refund_internal payments id env w)) [
        | inl ((_, w1), k) ↦
            ground (arith, rw k at first, process_each-Keeps payments ids (sum +ℤ r.amount) env w1)
        | inr (inl (x, k)) ↦ ground arith
        | inr (inr (x, k)) ↦ ground arith
      ]
]

bulk_process_refunds-Keeps :
    (payments : Payments) (admin : ℕ) (ids : List ℕ) (env : Env) (w : World)
    → Keeps w (Process.bulk_process_refunds payments admin ids env w)
unfolding Process.bulk_process_refunds
bulk_process_refunds-Keeps payments admin ids env w =
    ground (arith, check_approved-Reads ids env w, process_each-Keeps payments ids (pos 0) env w)

pub cooled-Keeps :
    (b : Bool) (customer cooldown : ℕ) (env : Env) (w : World)
    → Keeps w (when b (check_cooldown customer cooldown) env w)
cooled-Keeps true customer cooldown env w = check_cooldown-Keeps customer cooldown env w
cooled-Keeps false customer cooldown env w = refl

request_refund-config :
    (payments : Payments) (customer payment_id : ℕ) (amount : ℤ) (reason : String) (reason_code : ℕ)
    (env : Env) (w w' : World) (id : ℕ)
    → request_refund payments customer payment_id amount reason reason_code env w ≡ ok (id, w')
    → config w' ≡ config w
request_refund-config payments customer payment_id amount reason reason_code env w w' id h =
    let s =
      request_refund-Stages payments customer payment_id amount reason reason_code env w w' id h in
    let cooldown = unwrap_or w.store.refund_cooldown 0 in
    let w1 = s.cooled_world in
    let w2 = s.tiered_world in
    let p = s.payment in
    let cool = rw s.cooled at (cooled-Keeps (ltb 0 cooldown) customer cooldown env w) in
    let tiered = rw s.tiered at (
      apply_tiers-Keeps (unwrap_or w1.store.refund_tiers []) (env.timestamp - p.created_at) p.amount
        (unwrap_or (w1.store.refunded_amount payment_id) (pos 0)) amount env w1) in
    let stored = rw s.stored at (
      store_request-Keeps (requested_in w2 env payment_id customer p s.x reason reason_code)
        cooldown s.applied (contains p.merchant (unwrap_or w2.store.auto_approved_merchants [])) env
        (counted_up (TokenCall.transfer p.token customer env.current_contract_address s.x) w2)) in
    stored ∙ tiered ∙ cool

request_refund-Keeps :
    (payments : Payments) (customer payment_id : ℕ) (amount : ℤ) (reason : String) (reason_code : ℕ)
    (env : Env) (w : World)
    → Keeps w (request_refund payments customer payment_id amount reason reason_code env w)
request_refund-Keeps payments customer payment_id amount reason reason_code env w =
    elim (Outcome-cases
      (request_refund payments customer payment_id amount reason reason_code env w)) [
        | inl ((id, w'), e) ↦ rw e (
            request_refund-config payments customer payment_id amount reason reason_code env w w' id
              e)
        | inr (inl (x, e)) ↦ rw e tt
        | inr (inr (x, e)) ↦ rw e tt
      ]

-- The calls that are there to change the configuration.
abbrev pub changes_config : Call → Bool
changes_config (Call.initialize _ _ _ _ _ _ _ _ _ _ _) = true
changes_config (Call.set_refund_tiers _ _) = true
changes_config (Call.add_to_auto_approve _ _) = true
changes_config (Call.remove_from_auto_approve _ _) = true
changes_config (Call.update_refund_fee _ _) = true
changes_config (Call.pause_contract _ _) = true
changes_config (Call.resume_contract _) = true
changes_config _ = false

-- A call that is not one of the seven administrative ones, if it succeeds, leaves the configuration
-- as it was.
pub invoke-Keeps :
    (payments : Payments) (c : Call) (env : Env) (w : World)
    → changes_config c ≡ false
    → Keeps w (invoke payments c env w)
unfolding invoke Admin.waive_cooldown Admin.add_delegate Admin.remove_delegate Admin.upgrade
    Admin.migrate Admin.get_version Decide.cancel_refund_request Decide.auto_cancel_expired_request
    Decide.extend_refund_deadline Decide.appeal_refund Process.process_refund
invoke-Keeps payments (Call.request_refund customer payment_id amount reason code) env w h =
    ground (arith, request_refund-Keeps payments customer payment_id amount reason code env w)
invoke-Keeps payments (Call.approve_refund admin id) env w h = approve_refund-Keeps admin id env w
invoke-Keeps payments (Call.reject_refund admin id why) env w h =
    reject_refund-Keeps admin id why env w
invoke-Keeps payments (Call.process_refund admin id) env w h =
    ground (arith, process_refund_internal-Keeps payments id env w)
invoke-Keeps payments (Call.merchant_refund merchant payment_id x code stored_code rejection) env w
      h =
    ground
      (arith, merchant_refund-Keeps payments merchant payment_id x code stored_code rejection env w)
invoke-Keeps payments (Call.bulk_process_refunds admin ids) env w h =
    bulk_process_refunds-Keeps payments admin ids env w
invoke-Keeps payments (Call.auto_approve_refund id) env w h = auto_approve_refund-Keeps id env w
invoke-Keeps payments (Call.auto_reject_stale_refund id) env w h =
    auto_reject_stale_refund-Keeps id env w
invoke-Keeps payments (Call.resolve_appeal admin id approve) env w h =
    resolve_appeal-Keeps admin id approve env w
invoke-Keeps payments (Call.register_escrow_refund escrow_id buyer x token) env w h =
    ground (arith, register_escrow_refund-Keeps escrow_id buyer x token env w)
invoke-Keeps payments _ env w h = ground arith
