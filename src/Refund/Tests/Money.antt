-- ===== src/Refund/Tests/Money.antt =====
-- The theorems on refunds and their money applied to concrete inputs.
use ahjoorxmr_contract.Base.{
  ◌≡◌, refl, false, List, [], ◌∷◌, none, some, pos, ◌≤ℤ◌, ◌+ℤ◌, ◌-ℤ◌, ◌/ℤ◌, arith,
  saturating_sub_i128, contains, without,
}
use ahjoorxmr_contract.Host.{Env, TokenCall, ok}
use ahjoorxmr_contract.Host.Tokens.{holdings}
use ahjoorxmr_contract.Refund.Types.{
  RefundStatus, Refund, Payments, is_requested_status, is_rejected_status, is_under_appeal_status,
  is_completed_status,
}
use ahjoorxmr_contract.Refund.Admin
use ahjoorxmr_contract.Refund.Records
use ahjoorxmr_contract.Refund.Request
use ahjoorxmr_contract.Refund.Decide
use ahjoorxmr_contract.Refund.Process
use ahjoorxmr_contract.Refund.Events.{World, Event}
use ahjoorxmr_contract.Refund.Entry.{Call, invoke, transact, run}
use ahjoorxmr_contract.Refund.Ledger.{books, Moves}
use ahjoorxmr_contract.Refund.Ledger.Invariant.{pending}
use ahjoorxmr_contract.Refund.Effects.Parts.{PaysRefund, pay_refund-PaysRefund}
use ahjoorxmr_contract.Refund.Refinement.{refund_call-Moves}
use ahjoorxmr_contract.Refund.Solvency.{Valid, refund_transact-Valid, run-covered}
use ahjoorxmr_contract.Refund.Lifecycle.{Survives, refund_run-Survives}
use ahjoorxmr_contract.Refund.Appeals.{appeal-repays}
use ahjoorxmr_contract.Refund.Queue.{queue, auto_approve_refund-queue}
use ahjoorxmr_contract.Refund.Tests.{
  day, payments, tiers, start, start_runs, request, requested, approved, processed, rejected,
  appealed, dismissed, late, start-Valid, requested-Valid, approved-Valid, first_refund,
  first_found, process_runs,
}

refund_call-Moves_example : Moves (day 22) false (books approved) (books processed)
refund_call-Moves_example =
    refund_call-Moves payments (Call.process_refund 0 0) (day 22) approved processed refl
      approved-Valid.running.initialized approved-Valid.inv approved-Valid.running.fee_bounded
      process_runs

refund_transact-Valid_example : Valid requested
refund_transact-Valid_example =
    refund_transact-Valid (day 20) payments request start refl start-Valid

abbrev history : List (Env × Payments × Call)
history =
    (day 20, payments, request)
    ∷ (day 21, payments, Call.approve_refund 0 0)
    ∷ (day 22, payments, Call.process_refund 0 0)
    ∷ []

run-covered_example :
    pending 7 (books (run history start)) ≤ℤ holdings 9 7 (run history start).calls
run-covered_example =
    run-covered 9 0 8 100 none 150 (some 5) 500 1000 (some tiers) 0 50 (day 1) start history 7
      start_runs ((refl, refl), ((refl, refl), ((refl, refl), tt))) (refl, (refl, (refl, tt)))

abbrev rest : List (Env × Payments × Call)
rest =
    (day 21, payments, Call.approve_refund 0 0) ∷ (day 22, payments, Call.process_refund 0 0) ∷ []

refund_run-Survives_example : Survives (books requested) (books (run rest requested)) 0 first_refund
refund_run-Survives_example =
    refund_run-Survives 9 rest requested 0 first_refund ((refl, refl), ((refl, refl), tt))
      requested-Valid first_found

appeal_runs : Decide.appeal_refund 1 0 (day 22) rejected ≡ ok (tt, appealed)
unfolding transact invoke Admin.initialize Admin.validate_refund_tiers Admin.check_tiers
    Request.request_refund Request.apply_tiers Request.match_tier Request.store_request
    Request.index_refund Records.bps_of Records.update_stats_on_request is_completed_status contains
    saturating_sub_i128 ◌+ℤ◌ ◌-ℤ◌ Decide.reject_refund is_requested_status without
    Records.update_stats_on_reject Decide.appeal_refund is_rejected_status Process.resolve_appeal
    Process.dismiss_appeal is_under_appeal_status
appeal_runs = refl

dismissal_runs : Process.resolve_appeal 0 0 false (day 23) appealed ≡ ok (tt, dismissed)
unfolding transact invoke Admin.initialize Admin.validate_refund_tiers Admin.check_tiers
    Request.request_refund Request.apply_tiers Request.match_tier Request.store_request
    Request.index_refund Records.bps_of Records.update_stats_on_request is_completed_status contains
    saturating_sub_i128 ◌+ℤ◌ ◌-ℤ◌ Decide.reject_refund is_requested_status without
    Records.update_stats_on_reject Decide.appeal_refund is_rejected_status Process.resolve_appeal
    Process.dismiss_appeal is_under_appeal_status
dismissal_runs = refl

appeal-repays_example :
    (r : Refund) × (rejected.store.refund 0 ≡ some r)
    × (r.status ≡ RefundStatus.rejected)
    × (dismissed.store.refund 0 ≡ some (record r { rejected_at = some 23 }))
    × (dismissed.calls ≡ TokenCall.transfer r.token 9 r.customer r.amount ∷ rejected.calls)
appeal-repays_example =
    appeal-repays 1 0 0 (day 22) (day 23) rejected appealed dismissed appeal_runs dismissal_runs

late_runs : Process.auto_approve_refund 0 (day 120) requested ≡ ok (tt, late)
unfolding transact invoke Admin.initialize Admin.validate_refund_tiers Admin.check_tiers
    Request.request_refund Request.apply_tiers Request.match_tier Request.store_request
    Request.index_refund Records.bps_of Records.update_stats_on_request is_completed_status contains
    saturating_sub_i128 ◌+ℤ◌ ◌-ℤ◌ ◌/ℤ◌ Process.auto_approve_refund is_requested_status
    Records.pay_refund Records.update_stats_on_process
late_runs = refl

auto_approve_refund-queue_example :
    (r : Refund) × (late.store.refund 0 ≡ some r)
    × (r.status ≡ RefundStatus.processed)
    × (queue late ≡ queue requested)
    × (late.store.refunded_amount ≡ requested.store.refunded_amount)
auto_approve_refund-queue_example = auto_approve_refund-queue 0 (day 120) requested late late_runs

-- What the payment of the first refund comes to.
abbrev settled : World
settled = record requested {
  calls = TokenCall.transfer 7 9 5 (pos 9) ∷ TokenCall.transfer 7 9 1 (pos 591) ∷ requested.calls;
  events = Event.refund_fee_collected 0 (pos 9) ∷ requested.events;
}

settled_runs : Records.pay_refund 0 first_refund (day 22) requested ≡ ok ((pos 9, pos 591), settled)
unfolding transact invoke Admin.initialize Admin.validate_refund_tiers Admin.check_tiers
    Request.request_refund Request.apply_tiers Request.match_tier Request.store_request
    Request.index_refund Records.bps_of Records.update_stats_on_request is_completed_status contains
    saturating_sub_i128 ◌+ℤ◌ ◌-ℤ◌ Records.pay_refund
settled_runs = refl

pay_refund-PaysRefund_example : PaysRefund (day 22) requested settled first_refund (pos 9) (pos 591)
pay_refund-PaysRefund_example =
    pay_refund-PaysRefund 0 600 first_refund (day 22) requested settled (pos 9) (pos 591) refl
      (omega arith) requested-Valid.running.fee_bounded settled_runs
