-- ===== src/Escrow/Tests/Money.antt =====
-- The theorems on the money of the escrow contract applied to concrete inputs.
use ahjoorxmr_contract.Base.{
  ℕ, ◌+ℤ◌, ◌-ℤ◌, ◌*ℤ◌, ◌/ℤ◌, ◌≡◌, refl, true, false, List, [], ◌∷◌, some, ℤ, pos, ◌≤ℤ◌, arith,
  unwrap_or,
}
use ahjoorxmr_contract.Host.{Env, TokenCall, ok}
use ahjoorxmr_contract.Host.Tokens.{holdings}
use ahjoorxmr_contract.Escrow.Types.{Escrow}
use ahjoorxmr_contract.Escrow.Admin
use ahjoorxmr_contract.Escrow.Create
use ahjoorxmr_contract.Escrow.Release
use ahjoorxmr_contract.Escrow.Events.{World}
use ahjoorxmr_contract.Escrow.Entry.{Call, invoke, transact, run, genesis}
use ahjoorxmr_contract.Escrow.Ledger.{books, Moves}
use ahjoorxmr_contract.Escrow.Ledger.Money.{owed}
use ahjoorxmr_contract.Escrow.Refinement.{invoke-Moves}
use ahjoorxmr_contract.Escrow.Solvency.{Valid, AllAdmissible, transact-Valid, run-solvent}
use ahjoorxmr_contract.Escrow.Lifecycle.{Survives, run-Survives}
use ahjoorxmr_contract.Escrow.Consent.{Respects, invoke-Respects}
use ahjoorxmr_contract.Escrow.Payouts.{
  Releases, release_escrow-Releases, Resolves, resolve_dispute-Resolves,
}
use ahjoorxmr_contract.Host.Payouts.{Pays}
use ahjoorxmr_contract.Escrow.Effects.Shares.{seller_calls, pay_sellers-Pays}
use ahjoorxmr_contract.Escrow.Settlement.{SettlesDispute, dispute-SettlesDispute}
use ahjoorxmr_contract.Escrow.Tests.{
  disputed_runs, day, setup, ready, released, disputed, resolved, setup_admissible, ready-Valid,
  released_runs, resolved_runs, first_escrow, first_found,
}

run-solvent_example : owed 7 (books (run setup genesis)) ≤ℤ holdings 9 7 (run setup genesis).calls
run-solvent_example = run-solvent 9 setup 7 setup_admissible

-- The release of escrow 0 and the dispute over escrow 1, from the world where both stand.
abbrev later : List (Env × Call)
later = (day 6, Call.release_escrow 1 0) ∷ (day 7, Call.dispute_escrow 1 1 "late" (pos 1500)) ∷ []

later_admissible : AllAdmissible 9 later
later_admissible = ((refl, refl, tt), ((refl, refl, tt), tt))

run-Survives_example : Survives (books ready) (books (run later ready)) 0 first_escrow
run-Survives_example =
    run-Survives 9 later ready 0 first_escrow later_admissible ready-Valid first_found

invoke-Moves_example : Moves (day 6) (books ready) (books released)
invoke-Moves_example =
    invoke-Moves (Call.release_escrow 1 0) (day 6) ready released ready-Valid.inv
      ready-Valid.fee_bounded tt released_runs

invoke-Respects_example : Respects (day 6) (books ready) (books released) 0 first_escrow
invoke-Respects_example =
    invoke-Respects (Call.release_escrow 1 0) (day 6) ready released 0 first_escrow refl tt
      ready-Valid first_found released_runs

transact-Valid_example : Valid 9 (transact (day 6) (Call.release_escrow 1 0) ready)
transact-Valid_example =
    transact-Valid 9 (day 6) (Call.release_escrow 1 0) ready (refl, refl, tt) ready-Valid

release_call : Release.release_escrow 1 0 (day 6) ready ≡ ok (tt, released)
unfolding invoke
release_call = released_runs

renews_not : (e : Escrow) → ready.store.escrow 0 ≡ some e → Release.renews e ≡ false
unfolding run transact invoke Admin.initialize Admin.add_allowed_token Admin.update_protocol_fee
    Create.create_escrow Create.create_escrow_core Create.resolve_sellers Create.add_bps
    Create.next_escrow_id Release.renews
renews_not e f = ground (arith, first_found)

release_escrow-Releases_example :
    (e : Escrow) × (paid : List TokenCall) × Releases 1 0 (day 6) ready released e paid
release_escrow-Releases_example =
    release_escrow-Releases 1 0 (day 6) ready released ready-Valid.inv renews_not release_call

disputed-Valid : Valid 9 disputed
disputed-Valid =
    transact-Valid 9 (day 6) (Call.dispute_escrow 1 1 "late" (pos 1500)) ready (refl, refl, tt)
      ready-Valid

resolve_dispute-Resolves_example :
    (e : Escrow) × (fee : ℤ) × Resolves 4 1 true (day 7) disputed resolved e fee
resolve_dispute-Resolves_example =
    resolve_dispute-Resolves 4 1 true (day 7) disputed resolved disputed-Valid.inv
      disputed-Valid.fee_bounded resolved_runs

abbrev both_sellers : List (ℕ × ℕ)
both_sellers = (2, 7000) ∷ (3, 3000) ∷ []

abbrev shared_out : World
shared_out = record ready {
  calls = TokenCall.transfer 7 9 2 (pos 701) ∷ TokenCall.transfer 7 9 3 (pos 300) ∷ ready.calls;
}

shared_out_runs : Release.pay_sellers 7 (pos 1001) both_sellers (day 6) ready ≡ ok (tt, shared_out)
unfolding Release.pay_sellers Release.pay_shares Release.pay ◌*ℤ◌ ◌/ℤ◌ ◌+ℤ◌ ◌-ℤ◌
shared_out_runs = refl

pay_sellers-Pays_example :
    Pays (day 6) ready shared_out 7 (pos 1001) (seller_calls 9 7 1001 both_sellers)
pay_sellers-Pays_example =
    pay_sellers-Pays 7 1001 both_sellers (day 6) ready shared_out refl shared_out_runs

dispute-SettlesDispute_example :
    (e : Escrow) × (fee : ℤ) × (paid : List TokenCall) × SettlesDispute 4 1
      (pos 1500)
      true
      9
      (unwrap_or disputed.store.fee_recipient 0)
      ready
      resolved
      e
      fee
      paid
dispute-SettlesDispute_example =
    dispute-SettlesDispute 1 4 1 "late" (pos 1500) true (day 6) (day 7) ready disputed resolved refl
      refl ready-Valid.inv disputed-Valid.fee_bounded disputed_runs resolved_runs
