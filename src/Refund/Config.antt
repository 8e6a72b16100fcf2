-- ===== src/Refund/Config.antt =====
-- The configuration of the refund contract, contracts/ahjoor-refund/src/lib.rs.
pub mod Parts
pub mod Calls
use ahjoorxmr_contract.Base.{
  ℕ, ◌≡◌, refl, ◌∙◌, inl, inr, Bool, true, false, List, [], ◌∷◌, ◌++◌, Option, none, some, String,
  ltb, unwrap_or, put, arith, ℤ, pos, ◌+ℤ◌, Option-cases,
}
use ahjoorxmr_contract.Host.{Env, ok, panic, trap, Outcome, Outcome-cases, ⊤}
use ahjoorxmr_contract.Refund.Types.{Error, Refund, Payment, Payments, Store}
use ahjoorxmr_contract.Refund.Events.{World}
use ahjoorxmr_contract.Refund.Admin
use ahjoorxmr_contract.Refund.Records.{
  update_stats, update_stats_on_request, update_stats_on_approve, update_stats_on_reject,
  update_stats_on_process, bps_of, pay, pay_refund, append_index,
}
use ahjoorxmr_contract.Refund.Request.{
  check_cooldown, match_tier, apply_tiers, index_refund, store_request, request_refund,
}
use ahjoorxmr_contract.Refund.Decide
use ahjoorxmr_contract.Refund.Process
use ahjoorxmr_contract.Refund.Entry.{Call, invoke, void}

-- What the administration sets.
pub record Config : Type 0 where
  pub admin : Option ℕ
  pub paused : Option Bool
  pub pause_reason : Option String
  pub payment_contract_address : Option ℕ
  pub escrow_contract_address : Option ℕ
  pub dispute_window : Option ℕ
  pub refund_fee_bps : Option ℕ
  pub fee_recipient : Option ℕ
  pub auto_reject_window : Option ℕ
  pub appeal_window : Option ℕ
  pub refund_tiers : Option (List (ℕ × ℕ))
  pub refund_cooldown : Option ℕ
  pub customer_cancel_window : Option ℕ
  pub auto_approved_merchants : Option (List ℕ)

abbrev pub config : World → Config
config w = record {
  admin = w.store.admin;
  paused = w.store.paused;
  pause_reason = w.store.pause_reason;
  payment_contract_address = w.store.payment_contract_address;
  escrow_contract_address = w.store.escrow_contract_address;
  dispute_window = w.store.dispute_window;
  refund_fee_bps = w.store.refund_fee_bps;
  fee_recipient = w.store.fee_recipient;
  auto_reject_window = w.store.auto_reject_window;
  appeal_window = w.store.appeal_window;
  refund_tiers = w.store.refund_tiers;
  refund_cooldown = w.store.refund_cooldown;
  customer_cancel_window = w.store.customer_cancel_window;
  auto_approved_merchants = w.store.auto_approved_merchants;
}

abbrev pub Keeps : {A : Type 0} → World → Outcome Error (A × World) → Type 0
Keeps w (ok (_, w')) = config w' ≡ config w
Keeps w (panic _) = Unit
Keeps w (trap _) = Unit
