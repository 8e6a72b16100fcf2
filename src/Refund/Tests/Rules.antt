-- ===== src/Refund/Tests/Rules.antt =====
-- The theorems on requests, tiers, pages and refusals applied to concrete inputs.
use ahjoorxmr_contract.Base.{
  ℕ, ◌*◌, ◌/◌, ◌≤◌, ◌≡◌, ◌≢◌, refl, ap, ◌⊎◌, true, false, [], ◌∷◌, none, some, ℤ, pos, ◌≤ℤ◌, ◌<ℤ◌,
  ◌+ℤ◌, ◌-ℤ◌, ◌/ℤ◌, arith, unwrap_or, put, saturating_sub_i128, contains, without, length, take,
  drop, IsDistinct, is_some,
}
use ahjoorxmr_contract.Host.{TokenCall, ok}
use ahjoorxmr_contract.Refund.Types.{
  RefundStatus, Refund, Payment, PaymentStatus, is_requested_status, is_approved_status,
  is_completed_status,
}
use ahjoorxmr_contract.Refund.Admin
use ahjoorxmr_contract.Refund.Records
use ahjoorxmr_contract.Refund.Request
use ahjoorxmr_contract.Refund.Decide
use ahjoorxmr_contract.Refund.Process
use ahjoorxmr_contract.Refund.Views.{paginate}
use ahjoorxmr_contract.Refund.Events.{World}
use ahjoorxmr_contract.Refund.Entry.{Call, invoke, transact, genesis}
use ahjoorxmr_contract.Refund.Config.{config}
use ahjoorxmr_contract.Refund.Sanction.{ByAdmin, refund_config-ByAdmin}
use ahjoorxmr_contract.Refund.Refusals.{
  invoke-final_refused, paused-Still, cancel_refund_request-succeeds, register_escrow_refund_self,
}
use ahjoorxmr_contract.Refund.Tiers.{
  succeeds, is_schedule, share_at, validate_refund_tiers-is_schedule, apply_tiers-within,
  request_refund-fits,
}
use ahjoorxmr_contract.Refund.Paging.{paginate-slice}
use ahjoorxmr_contract.Refund.Delegates.{
  delegates, add_delegate-IsDistinct, remove_delegate-add_delegate,
}
use ahjoorxmr_contract.Refund.Tests.{
  day, payments, start, requested, processed, request_runs, first_refund, first_found, after,
}

abbrev paused : World
paused = after 2 (Call.pause_contract 0 "audit") start

pause_runs : invoke payments (Call.pause_contract 0 "audit") (day 2) start ≡ ok (tt, paused)
unfolding transact invoke Admin.initialize Admin.validate_refund_tiers Admin.check_tiers
    Admin.pause_contract
pause_runs = refl

paused_now : paused.store.paused ≡ some true
unfolding transact invoke Admin.initialize Admin.validate_refund_tiers Admin.check_tiers
    Admin.pause_contract
paused_now = refl

running_before : start.store.paused ≡ none
unfolding transact invoke Admin.initialize Admin.validate_refund_tiers Admin.check_tiers
running_before = refl

pause_changes : config paused ≢ config start
pause_changes h = cc (ap (λ c. c.paused) h, paused_now, running_before)

refund_config-ByAdmin_example : (start.store.admin ≡ none) ⊎ ByAdmin (day 2) start
refund_config-ByAdmin_example =
    refund_config-ByAdmin payments (Call.pause_contract 0 "audit") (day 2) start paused pause_runs
      pause_changes

abbrev cheaper : World
cheaper = after 3 (Call.update_refund_fee 0 100) paused

cheaper_runs : invoke payments (Call.update_refund_fee 0 100) (day 3) paused ≡ ok (tt, cheaper)
unfolding transact invoke Admin.initialize Admin.validate_refund_tiers Admin.check_tiers
    Admin.pause_contract Admin.update_refund_fee
cheaper_runs = refl

paused_admin : is_some paused.store.admin ≡ true
unfolding transact invoke Admin.initialize Admin.validate_refund_tiers Admin.check_tiers
    Admin.pause_contract
paused_admin = refl

paused-Still_example : (cheaper.calls ≡ paused.calls) × (cheaper.store.refund ≡ paused.store.refund)
paused-Still_example =
    paused-Still payments (Call.update_refund_fee 0 100) (day 3) paused cheaper paused_now
      paused_admin cheaper_runs

abbrev processed_refund : Refund
processed_refund = record first_refund {
  status = RefundStatus.processed;
  approved_at = some 21;
  processed_at = some 22;
  fee_amount = some (pos 9);
}

processed_found : processed.store.refund 0 ≡ some processed_refund
unfolding transact invoke Admin.initialize Admin.validate_refund_tiers Admin.check_tiers
    Request.request_refund Request.apply_tiers Request.match_tier Request.store_request
    Request.index_refund Records.bps_of Records.update_stats_on_request is_completed_status contains
    saturating_sub_i128 ◌+ℤ◌ ◌-ℤ◌ ◌/ℤ◌ Decide.approve_refund is_requested_status without
    Records.update_stats_on_approve Process.process_refund Process.process_refund_internal
    Process.note_cap Records.pay_refund Records.update_stats_on_process is_approved_status
processed_found = refl

invoke-final_refused_example :
    invoke payments (Call.bulk_process_refunds 0 (0 ∷ [])) (day 23) processed ≢ ok (tt, processed)
unfolding contains
invoke-final_refused_example =
    invoke-final_refused payments (Call.bulk_process_refunds 0 (0 ∷ [])) 0 processed_refund (day 23)
      processed processed refl processed_found refl

not_paused : unwrap_or requested.store.paused false ≡ false
unfolding transact invoke Admin.initialize Admin.validate_refund_tiers Admin.check_tiers
    Request.request_refund Request.apply_tiers Request.match_tier Request.store_request
    Request.index_refund Records.bps_of Records.update_stats_on_request is_completed_status contains
    saturating_sub_i128 ◌+ℤ◌ ◌-ℤ◌
not_paused = refl

cancel_refund_request-succeeds_example :
    (w' : World) × (Decide.cancel_refund_request 1 0 (day 30) requested ≡ ok (tt, w'))
    × (w'.store.refund
        ≡ put requested.store.refund 0
            (some (record first_refund { status = RefundStatus.cancelled })))
    × (w'.calls ≡ TokenCall.transfer 7 9 1 (pos 600) ∷ requested.calls)
cancel_refund_request-succeeds_example =
    cancel_refund_request-succeeds 0 first_refund (day 30) requested not_paused first_found refl
      refl refl

-- The contract with itself as its escrow contract.
abbrev own_escrow : World
own_escrow = record genesis { store = record genesis.store { escrow_contract_address = some 9 } }

abbrev registered : World
registered = after 4 (Call.register_escrow_refund 6 1 (pos 10) 7) own_escrow

register_runs :
    Process.register_escrow_refund 6 1 (pos 10) 7 (day 4) own_escrow ≡ ok (0, registered)
unfolding transact invoke Process.register_escrow_refund
register_runs = refl

register_escrow_refund_self_example :
    (own_escrow.store.escrow_contract_address ≡ some 9)
    × (Process.register_escrow_refund 6 1
          (pos 10)
          7
          (record (day 4) { authorized = λ a. false })
          own_escrow
        ≡ ok (0, registered))
register_escrow_refund_self_example =
    register_escrow_refund_self 6 1 (pos 10) 7 (day 4) (record (day 4) { authorized = λ a. false })
      own_escrow registered 0 register_runs refl refl

request_refund-fits_example :
    (address : ℕ) × (p : Payment) × (x : ℤ) × (start.store.payment_contract_address ≡ some address)
    × (payments address 1 ≡ some p)
    × (p.status ≡ PaymentStatus.completed)
    × (pos 0 <ℤ x)
    × (x ≤ℤ pos 600)
    × (x +ℤ unwrap_or (start.store.refunded_amount 1) (pos 0) ≤ℤ p.amount)
    × (requested.calls ≡ TokenCall.transfer p.token 1 9 x ∷ start.calls)
request_refund-fits_example =
    request_refund-fits payments 1 1 (pos 600) "broken" 0 (day 20) start requested 0 request_runs

-- Of a payment of 1000, 800 may be refunded; 300 have been, so 500 of 600 are left.
tiers_run :
    Request.apply_tiers
      ((1000, 8000) ∷ (5000, 5000) ∷ [])
      10
      (pos 1000)
      (pos 300)
      (pos 600)
      (day 20)
      start
    ≡ ok ((pos 500, some (8000, pos 500)), start)
unfolding Request.apply_tiers Request.match_tier Records.bps_of saturating_sub_i128 ◌+ℤ◌ ◌-ℤ◌
tiers_run = refl

apply_tiers-within_example :
    (share : ℕ) × (start ≡ start)
    × (share_at 10 ((1000, 8000) ∷ (5000, 5000) ∷ []) ≡ some share)
    × (pos 500 ≤ℤ pos 600)
    × (pos 500 +ℤ pos 300 ≤ℤ pos (1000 * share / 10000))
apply_tiers-within_example =
    apply_tiers-within (1000, 8000) ((5000, 5000) ∷ []) 10 1000 (pos 300) (pos 600) (day 20) start
      start (pos 500) (some (8000, pos 500)) tiers_run

validate_refund_tiers-is_schedule_example :
    succeeds (Admin.validate_refund_tiers ((1000, 8000) ∷ (500, 5000) ∷ []) (day 1) genesis)
    ≡ is_schedule ((1000, 8000) ∷ (500, 5000) ∷ [])
validate_refund_tiers-is_schedule_example =
    validate_refund_tiers-is_schedule ((1000, 8000) ∷ (500, 5000) ∷ []) (day 1) genesis

paginate-slice_example :
    paginate (some (4 ∷ 5 ∷ 6 ∷ 7 ∷ [])) 2 1 (day 1) genesis
    ≡ ok (take 2 (drop 1 (4 ∷ 5 ∷ 6 ∷ 7 ∷ [])), genesis)
paginate-slice_example =
    paginate-slice (some (4 ∷ 5 ∷ 6 ∷ 7 ∷ [])) 2 1 (day 1) genesis (omega arith)

abbrev delegated : World
delegated = after 5 (Call.add_delegate 2 3) start

add_runs : Admin.add_delegate 2 3 (day 5) start ≡ ok (tt, delegated)
unfolding transact invoke Admin.initialize Admin.validate_refund_tiers Admin.check_tiers
    Admin.add_delegate contains
add_runs = refl

none_before : IsDistinct (delegates 2 start)
unfolding transact invoke Admin.initialize Admin.validate_refund_tiers Admin.check_tiers
none_before = tt

add_delegate-IsDistinct_example :
    IsDistinct (delegates 2 delegated) × (length (delegates 2 delegated) ≤ 5)
add_delegate-IsDistinct_example =
    add_delegate-IsDistinct 2 3 (day 5) start delegated none_before add_runs

abbrev undelegated : World
undelegated = after 6 (Call.remove_delegate 2 3) delegated

remove_runs : Admin.remove_delegate 2 3 (day 6) delegated ≡ ok (tt, undelegated)
unfolding transact invoke Admin.initialize Admin.validate_refund_tiers Admin.check_tiers
    Admin.add_delegate Admin.remove_delegate contains without
remove_runs = refl

remove_delegate-add_delegate_example : delegates 2 undelegated ≡ delegates 2 start
remove_delegate-add_delegate_example =
    remove_delegate-add_delegate 2 3 (day 5) (day 6) start delegated undelegated add_runs
      remove_runs
