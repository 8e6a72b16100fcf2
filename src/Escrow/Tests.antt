-- ===== src/Escrow/Tests.antt =====
-- The escrow contract run on concrete inputs.
pub mod Money
pub mod Rules
pub mod Numbers
use ahjoorxmr_contract.Base.{
  contains, without, IsDistinct, IsDistinct-append, IsDistinct-without, without_self, without-other,
  get_elem?-contains, ℕ, ◌≤◌, ◌<◌, ◌≡◌, refl, ◌⊎◌, inl, inr, Bool, true, false, List, [], ◌∷◌,
  Option, none, some, ℤ, pos, ◌≤ℤ◌, ◌+ℤ◌, ◌-ℤ◌, ◌*ℤ◌, ◌/ℤ◌, arith, ◌==◌, unwrap_or, if◌then◌else◌,
}
use ahjoorxmr_contract.Host.{Env, TokenCall, ok, panic, trap, Outcome}
use ahjoorxmr_contract.Host.Tokens.{holdings}
use ahjoorxmr_contract.Escrow.Types.{
  EscrowStatus, Escrow, EscrowBatchConfig, Error, is_open_escrow_status, is_disputed_status,
  is_partially_disputed_status, is_terminal_escrow_status,
}
use ahjoorxmr_contract.Escrow.Admin
use ahjoorxmr_contract.Escrow.Create
use ahjoorxmr_contract.Escrow.Release
use ahjoorxmr_contract.Escrow.Disputes
use ahjoorxmr_contract.Escrow.Deadlines
use ahjoorxmr_contract.Escrow.Arbiters
use ahjoorxmr_contract.Escrow.Events.{World}
use ahjoorxmr_contract.Escrow.Entry.{Call, invoke, transact, run, genesis}
use ahjoorxmr_contract.Escrow.Ledger.{books}
use ahjoorxmr_contract.Escrow.Ledger.Money.{owed}
use ahjoorxmr_contract.Escrow.Pool.{pool_of}
use ahjoorxmr_contract.Escrow.Solvency.{Valid, AllAdmissible, run-Valid, genesis-Valid, run-solvent}

-- The contract lives at 9; 0 is the admin, 1 the buyer, 2 and 3 are sellers, 4 is the arbiter, 5
-- receives the fees, 7 is the token.
abbrev pub day : ℕ → Env
day n = record {
  timestamp = n;
  sequence = n;
  current_contract_address = 9;
  authorized = λ a. if a == 9 then false else true;
  token_accepts = λ calls c. true;
}

abbrev pub setup : List (Env × Call)
setup =
    (day 1, Call.initialize 0)
    ∷ (day 2, Call.add_allowed_token 0 7)
    ∷ (day 3, Call.update_protocol_fee 0 150 5)
    ∷ (day 4, Call.create_escrow 1 2 4 (pos 1001) 7 100 none ((2, 7000) ∷ (3, 3000) ∷ []) false 0 0)
    ∷ (day 5, Call.create_escrow 1 2 4 (pos 2000) 7 100 none [] false 0 0)
    ∷ []

abbrev pub ready : World
ready = run setup genesis

-- Worlds that the theorems are applied to.
abbrev pub after : ℕ → Call → World → World
after n c w = transact (day n) c w

abbrev pub released : World
released = after 6 (Call.release_escrow 1 0) ready

abbrev pub disputed : World
disputed = after 6 (Call.dispute_escrow 1 1 "late" (pos 1500)) ready

abbrev pub resolved : World
resolved = after 7 (Call.resolve_dispute 4 1 true) disputed

abbrev pub proposed : World
proposed = after 6 (Call.propose_deadline_extension 2 1 200) ready

abbrev pub extended : World
extended = after 7 (Call.accept_deadline_extension 1 1) proposed

abbrev pub paused : World
paused = after 6 (Call.pause_contract 0 "audit") ready

abbrev pub pooled : World
pooled = run ((day 6, Call.add_arbiter 0 4) ∷ (day 7, Call.add_arbiter 0 6) ∷ []) ready

abbrev pub one_of : ℕ → EscrowBatchConfig
one_of seller = record {
  seller = seller;
  arbiter = 4;
  amount = pos 50;
  token = 7;
  deadline = 100;
  metadata_hash = none;
  sellers = [];
  auto_renew = false;
  renewal_count = 0;
}

abbrev pub batched : World
batched = after 6 (Call.create_escrows_batch 1 (one_of 2 ∷ one_of 3 ∷ [])) ready

pub setup_admissible : AllAdmissible 9 setup
setup_admissible = (
  (refl, refl, tt),
  ((refl, refl, tt), ((refl, refl, tt), ((refl, refl, tt), ((refl, refl, tt), tt)))),
)

pub ready-Valid : Valid 9 ready
ready-Valid = run-Valid 9 setup genesis setup_admissible (genesis-Valid 9)

-- The first seller gets what the rounding of the others leaves: 701 and 300 of 1001.
released_calls :
    released.calls
    ≡ TokenCall.transfer 7 9 2 (pos 701)
      ∷ TokenCall.transfer 7 9 3 (pos 300)
      ∷ TokenCall.transfer 7 1 9 (pos 2000)
      ∷ TokenCall.transfer 7 1 9 (pos 1001)
      ∷ []
unfolding run transact invoke Admin.initialize Admin.add_allowed_token Admin.update_protocol_fee
    Create.create_escrow Create.create_escrow_core Create.resolve_sellers Create.add_bps
    Create.next_escrow_id Release.release_escrow Release.pay_out Release.pay_sellers
    Release.pay_shares Release.pay Release.try_auto_renew Release.renews
    Release.update_last_buyer_action is_open_escrow_status ◌*ℤ◌ ◌/ℤ◌ ◌+ℤ◌ ◌-ℤ◌
released_calls = refl

pub released_runs : invoke (Call.release_escrow 1 0) (day 6) ready ≡ ok (tt, released)
unfolding run transact invoke Admin.initialize Admin.add_allowed_token Admin.update_protocol_fee
    Create.create_escrow Create.create_escrow_core Create.resolve_sellers Create.add_bps
    Create.next_escrow_id Release.release_escrow Release.pay_out Release.pay_sellers
    Release.pay_shares Release.pay Release.try_auto_renew Release.renews
    Release.update_last_buyer_action is_open_escrow_status ◌*ℤ◌ ◌/ℤ◌ ◌+ℤ◌ ◌-ℤ◌
released_runs = refl

-- 500 of 2000 are not in dispute; of the others, 22 are the fee of 1.5 percent.
resolved_calls :
    resolved.calls
    ≡ TokenCall.transfer 7 9 2 (pos 1478)
      ∷ TokenCall.transfer 7 9 5 (pos 22)
      ∷ TokenCall.transfer 7 9 2 (pos 500)
      ∷ TokenCall.transfer 7 1 9 (pos 2000)
      ∷ TokenCall.transfer 7 1 9 (pos 1001)
      ∷ []
unfolding run transact invoke Admin.initialize Admin.add_allowed_token Admin.update_protocol_fee
    Create.create_escrow Create.create_escrow_core Create.resolve_sellers Create.add_bps
    Create.next_escrow_id Disputes.dispute_escrow Release.pay Release.update_last_buyer_action
    is_open_escrow_status ◌*ℤ◌ ◌/ℤ◌ ◌-ℤ◌ Disputes.resolve_dispute Disputes.pay_protocol_fee
    is_disputed_status is_partially_disputed_status
resolved_calls = refl

pub resolved_runs : Disputes.resolve_dispute 4 1 true (day 7) disputed ≡ ok (tt, resolved)
unfolding run transact invoke Admin.initialize Admin.add_allowed_token Admin.update_protocol_fee
    Create.create_escrow Create.create_escrow_core Create.resolve_sellers Create.add_bps
    Create.next_escrow_id Disputes.dispute_escrow Release.pay Release.update_last_buyer_action
    is_open_escrow_status ◌*ℤ◌ ◌/ℤ◌ ◌-ℤ◌ Disputes.resolve_dispute Disputes.pay_protocol_fee
    is_disputed_status is_partially_disputed_status
resolved_runs = refl

pub extended_runs : Deadlines.accept_deadline_extension 1 1 (day 7) proposed ≡ ok (tt, extended)
unfolding run transact invoke Admin.initialize Admin.add_allowed_token Admin.update_protocol_fee
    Create.create_escrow Create.create_escrow_core Create.resolve_sellers Create.add_bps
    Create.next_escrow_id Deadlines.propose_deadline_extension Deadlines.accept_deadline_extension
    Deadlines.remove_deadline_proposal is_disputed_status is_terminal_escrow_status
extended_runs = refl

pub paused_runs : Admin.pause_contract 0 "audit" (day 6) ready ≡ ok (tt, paused)
unfolding run transact invoke Admin.initialize Admin.add_allowed_token Admin.update_protocol_fee
    Create.create_escrow Create.create_escrow_core Create.resolve_sellers Create.add_bps
    Create.next_escrow_id Admin.pause_contract
paused_runs = refl

pub batched_runs :
    Create.create_escrows_batch 1 (one_of 2 ∷ one_of 3 ∷ []) (day 6) ready
    ≡ ok (2 ∷ 3 ∷ [], batched)
unfolding run transact invoke Admin.initialize Admin.add_allowed_token Admin.update_protocol_fee
    Create.create_escrow Create.create_escrow_core Create.resolve_sellers Create.add_bps
    Create.next_escrow_id Create.create_escrows_batch Create.create_each
batched_runs = refl

pub pooled_pool : pool_of pooled ≡ 4 ∷ 6 ∷ []
unfolding run transact invoke Admin.initialize Admin.add_allowed_token Admin.update_protocol_fee
    Create.create_escrow Create.create_escrow_core Create.resolve_sellers Create.add_bps
    Create.next_escrow_id Arbiters.add_arbiter contains
pooled_pool = refl

abbrev pub first_escrow : Escrow
first_escrow = record {
  id = 0;
  buyer = 1;
  seller = 2;
  arbiter = 4;
  amount = pos 1001;
  token = 7;
  status = EscrowStatus.active;
  created_at = 4;
  deadline = 100;
  metadata_hash = none;
  sellers = (2, 7000) ∷ (3, 3000) ∷ [];
  auto_renew = false;
  renewal_count = 0;
  renewals_remaining = 0;
  dispute_timeout_seconds = none;
  buyer_inactivity_release_seconds = 0;
}

pub first_found : ready.store.escrow 0 ≡ some first_escrow
unfolding run transact invoke Admin.initialize Admin.add_allowed_token Admin.update_protocol_fee
    Create.create_escrow Create.create_escrow_core Create.resolve_sellers Create.add_bps
    Create.next_escrow_id
first_found = refl

pub paused_now : paused.store.paused ≡ some true
unfolding run transact invoke Admin.initialize Admin.add_allowed_token Admin.update_protocol_fee
    Create.create_escrow Create.create_escrow_core Create.resolve_sellers Create.add_bps
    Create.next_escrow_id Admin.pause_contract
paused_now = refl

pub running_before : ready.store.paused ≡ none
unfolding run transact invoke Admin.initialize Admin.add_allowed_token Admin.update_protocol_fee
    Create.create_escrow Create.create_escrow_core Create.resolve_sellers Create.add_bps
    Create.next_escrow_id
running_before = refl

pub disputed_runs : Disputes.dispute_escrow 1 1 "late" (pos 1500) (day 6) ready ≡ ok (tt, disputed)
unfolding run transact invoke Admin.initialize Admin.add_allowed_token Admin.update_protocol_fee
    Create.create_escrow Create.create_escrow_core Create.resolve_sellers Create.add_bps
    Create.next_escrow_id Disputes.dispute_escrow Release.pay Release.update_last_buyer_action
    is_open_escrow_status ◌*ℤ◌ ◌/ℤ◌ ◌-ℤ◌ is_disputed_status is_partially_disputed_status
disputed_runs = refl
