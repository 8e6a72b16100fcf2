-- ===== src/Refund/Tests.antt =====
-- The refund contract run on concrete inputs.
pub mod Money
pub mod Rules
use ahjoorxmr_contract.Base.{
  ℕ, ◌+◌, ◌≤◌, ◌<◌, ◌≡◌, refl, Bool, true, false, List, [], ◌∷◌, Option, none, some, ℤ, pos, ◌≤ℤ◌,
  ◌<ℤ◌, ◌+ℤ◌, ◌-ℤ◌, ◌*ℤ◌, ◌/ℤ◌, arith, ◌==◌, unwrap_or, if◌then◌else◌, saturating_sub_i128,
  contains, without,
}
use ahjoorxmr_contract.Host.{Env, TokenCall, ok, panic, trap, Outcome, SelfIsPassive}
use ahjoorxmr_contract.Refund.Types.{
  RefundStatus, Refund, Payment, Payments, PaymentStatus, Error, is_requested_status,
  is_approved_status, is_rejected_status, is_under_appeal_status, is_completed_status,
}
use ahjoorxmr_contract.Refund.Admin
use ahjoorxmr_contract.Refund.Records
use ahjoorxmr_contract.Refund.Request
use ahjoorxmr_contract.Refund.Decide
use ahjoorxmr_contract.Refund.Process
use ahjoorxmr_contract.Refund.Events.{World}
use ahjoorxmr_contract.Refund.Entry.{Call, invoke, transact, run, genesis}
use ahjoorxmr_contract.Refund.Sanction.{IsInitialized, initialize-IsInitialized}
use ahjoorxmr_contract.Refund.Solvency.{Valid, initialized-Valid, refund_transact-Valid}

-- The contract lives at 9; 0 is the admin, 1 the customer, 2 the merchant, 3 a delegate, 5 receives
-- the fees, 7 is the token, 8 the payment contract.
abbrev pub day : ℕ → Env
day n = record {
  timestamp = n;
  sequence = n;
  current_contract_address = 9;
  authorized = λ a. if a == 9 then false else true;
  token_accepts = λ calls c. true;
}

abbrev pub paid : Payment
paid = record {
  id = 1;
  customer = 1;
  merchant = 2;
  amount = pos 1000;
  token = 7;
  status = PaymentStatus.completed;
  created_at = 10;
}

abbrev pub payments : Payments
payments address id = if address == 8 then (if id == 1 then some paid else none) else none

abbrev pub tiers : List (ℕ × ℕ)
tiers = (1000, 8000) ∷ (5000, 5000) ∷ []

abbrev pub start : World
start =
    transact (day 1) payments (Call.initialize 0 8 100 none 150 (some 5) 500 1000 (some tiers) 0 50)
      genesis

pub start_runs :
    Admin.initialize 0 8 100 none 150 (some 5) 500 1000 (some tiers) 0 50 (day 1) genesis
    ≡ ok (tt, start)
unfolding transact invoke Admin.initialize Admin.validate_refund_tiers Admin.check_tiers
start_runs = refl

abbrev pub after : ℕ → Call → World → World
after n c w = transact (day n) payments c w

abbrev pub request : Call
request = Call.request_refund 1 1 (pos 600) "broken" 0

abbrev pub requested : World
requested = after 20 request start

abbrev pub approved : World
approved = after 21 (Call.approve_refund 0 0) requested

abbrev pub processed : World
processed = after 22 (Call.process_refund 0 0) approved

abbrev pub rejected : World
rejected = after 21 (Call.reject_refund 0 0 "used") requested

abbrev pub appealed : World
appealed = after 22 (Call.appeal_refund 1 0) rejected

abbrev pub dismissed : World
dismissed = after 23 (Call.resolve_appeal 0 0 false) appealed

abbrev pub late : World
late = after 120 (Call.auto_approve_refund 0) requested

pub passive : SelfIsPassive (day 20)
passive = refl

pub start-IsInitialized : IsInitialized genesis start
start-IsInitialized =
    initialize-IsInitialized 0 8 100 none 150 (some 5) 500 1000 (some tiers) 0 50 (day 1) genesis
      start start_runs

pub start-Valid : Valid start
start-Valid = initialized-Valid start start-IsInitialized

pub requested-Valid : Valid requested
requested-Valid = refund_transact-Valid (day 20) payments request start refl start-Valid

pub approved-Valid : Valid approved
approved-Valid =
    refund_transact-Valid (day 21) payments (Call.approve_refund 0 0) requested refl requested-Valid

pub request_runs :
    Request.request_refund payments 1 1 (pos 600) "broken" 0 (day 20) start ≡ ok (0, requested)
unfolding transact invoke Admin.initialize Admin.validate_refund_tiers Admin.check_tiers
    Request.request_refund Request.apply_tiers Request.match_tier Request.store_request
    Request.index_refund Records.bps_of Records.update_stats_on_request is_completed_status contains
    saturating_sub_i128 ◌+ℤ◌ ◌-ℤ◌
request_runs = refl

abbrev pub first_refund : Refund
first_refund = record {
  id = 0;
  payment_id = 1;
  customer = 1;
  merchant = 2;
  amount = pos 600;
  token = 7;
  status = RefundStatus.requested;
  reason = "broken";
  reason_code = 0;
  requested_at = 20;
  approved_at = none;
  processed_at = none;
  rejected_at = none;
  auto_approved_source = none;
  escrow_id = none;
  fee_amount = none;
}

pub first_found : requested.store.refund 0 ≡ some first_refund
unfolding transact invoke Admin.initialize Admin.validate_refund_tiers Admin.check_tiers
    Request.request_refund Request.apply_tiers Request.match_tier Request.store_request
    Request.index_refund Records.bps_of Records.update_stats_on_request is_completed_status contains
    saturating_sub_i128 ◌+ℤ◌ ◌-ℤ◌
first_found = refl

-- Of 600, 9 are the fee of 1.5 percent.
processed_calls :
    processed.calls
    ≡ TokenCall.transfer 7 9 5 (pos 9)
      ∷ TokenCall.transfer 7 9 1 (pos 591)
      ∷ TokenCall.transfer 7 1 9 (pos 600)
      ∷ []
unfolding transact invoke Admin.initialize Admin.validate_refund_tiers Admin.check_tiers
    Request.request_refund Request.apply_tiers Request.match_tier Request.store_request
    Request.index_refund Records.bps_of Records.update_stats_on_request is_completed_status contains
    saturating_sub_i128 ◌+ℤ◌ ◌-ℤ◌ ◌/ℤ◌ Decide.approve_refund is_requested_status without
    Records.update_stats_on_approve Process.process_refund Process.process_refund_internal
    Process.note_cap Records.pay_refund Records.update_stats_on_process is_approved_status
processed_calls = refl

pub process_runs : invoke payments (Call.process_refund 0 0) (day 22) approved ≡ ok (tt, processed)
unfolding transact invoke Admin.initialize Admin.validate_refund_tiers Admin.check_tiers
    Request.request_refund Request.apply_tiers Request.match_tier Request.store_request
    Request.index_refund Records.bps_of Records.update_stats_on_request is_completed_status contains
    saturating_sub_i128 ◌+ℤ◌ ◌-ℤ◌ ◌/ℤ◌ Decide.approve_refund is_requested_status without
    Records.update_stats_on_approve Process.process_refund Process.process_refund_internal
    Process.note_cap Records.pay_refund Records.update_stats_on_process is_approved_status
process_runs = refl
