-- ===== src/Escrow/Tests/Rules.antt =====
-- The theorems on administration, pauses and deadlines applied to concrete inputs.
use ahjoorxmr_contract.Base.{
  ◌≤◌, ◌≡◌, ◌≢◌, refl, ap, ◌⊎◌, true, false, ◌∷◌, none, some, pos, arith, unwrap_or,
}
use ahjoorxmr_contract.Host.{TokenCall, ok}
use ahjoorxmr_contract.Escrow.Types.{
  EscrowStatus, Escrow, DeadlineProposal, is_open_escrow_status, max_protocol_fee_bps,
}
use ahjoorxmr_contract.Escrow.Admin
use ahjoorxmr_contract.Escrow.Release
use ahjoorxmr_contract.Escrow.Events.{World}
use ahjoorxmr_contract.Escrow.Entry.{Call, invoke, transact}
use ahjoorxmr_contract.Escrow.Config.{config, Keeps}
use ahjoorxmr_contract.Escrow.Config.Calls.{invoke-Keeps}
use ahjoorxmr_contract.Escrow.Sanction.{ByAdmin, config-ByAdmin, invoke_fee_bounded}
use ahjoorxmr_contract.Escrow.Pausing.{paused-no_calls}
use ahjoorxmr_contract.Escrow.Extension.{Accepts, accept-Accepts}
use ahjoorxmr_contract.Escrow.Progress.{refund_succeeds, resume_after_pause}
use ahjoorxmr_contract.Escrow.Tests.{
  day, ready, proposed, extended, paused, ready-Valid, extended_runs, paused_runs, first_escrow,
  first_found, paused_now, running_before,
}

pause_call : invoke (Call.pause_contract 0 "audit") (day 6) ready ≡ ok (tt, paused)
unfolding invoke
pause_call = paused_runs

pause_changes : config paused ≢ config ready
pause_changes h = cc (ap (λ c. c.paused) h, paused_now, running_before)

config-ByAdmin_example : (ready.store.admin ≡ none) ⊎ ByAdmin (day 6) ready
config-ByAdmin_example =
    config-ByAdmin (Call.pause_contract 0 "audit") (day 6) ready paused pause_call pause_changes

invoke_fee_bounded_example : unwrap_or paused.store.protocol_fee_bps 0 ≤ max_protocol_fee_bps
invoke_fee_bounded_example =
    invoke_fee_bounded (Call.pause_contract 0 "audit") (day 6) ready paused ready-Valid.fee_bounded
      pause_call

invoke-Keeps_example : Keeps ready (invoke (Call.release_escrow 1 0) (day 6) ready)
invoke-Keeps_example = invoke-Keeps (Call.release_escrow 1 0) (day 6) ready refl

paused-no_calls_example : (transact (day 7) (Call.release_escrow 1 0) paused).calls ≡ paused.calls
paused-no_calls_example = paused-no_calls (Call.release_escrow 1 0) (day 7) paused paused_now

accept-Accepts_example :
    (e : Escrow) × (p : DeadlineProposal) × Accepts 1 1 (day 7) proposed extended e p
accept-Accepts_example = accept-Accepts 1 1 (day 7) proposed extended extended_runs

not_paused : unwrap_or ready.store.paused false ≡ false
not_paused = ap (λ p. unwrap_or p false) running_before

refund_succeeds_example :
    (w' : World) × (Release.auto_release_expired 0 (day 101) ready ≡ ok (tt, w'))
    × (w'.calls ≡ TokenCall.transfer 7 9 1 (pos 1001) ∷ ready.calls)
    × (w'.store.escrow 0 ≡ some (record first_escrow { status = EscrowStatus.refunded }))
unfolding is_open_escrow_status
refund_succeeds_example =
    refund_succeeds 0 first_escrow (day 101) ready not_paused first_found refl (omega arith) refl
      refl

resume_after_pause_example :
    (w2 : World) × (Admin.resume_contract 0 (day 8) paused ≡ ok (tt, w2))
    × (unwrap_or paused.store.paused false ≡ true)
    × (unwrap_or w2.store.paused false ≡ false)
    × (w2.store.escrow ≡ ready.store.escrow)
    × (w2.calls ≡ ready.calls)
resume_after_pause_example =
    resume_after_pause 0 "audit" (day 6) (day 8) ready paused paused_runs refl
