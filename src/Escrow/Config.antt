-- ===== src/Escrow/Config.antt =====
-- The configuration in the storage of the escrow contract (contracts/ahjoor-escrow/src/lib.rs).
pub mod Parts
pub mod Calls
use ahjoorxmr_contract.Base.{
  ℕ, ◌≡◌, refl, ◌∙◌, inl, inr, List, [], ◌∷◌, ◌++◌, Bool, true, false, Option, none, some, String,
  arith, ℤ, pos, unwrap_or, Bool-cases, Option-cases, ◌==◌, put, ltb, ◌*ℤ◌, ◌/ℤ◌, ◌+ℤ◌,
}
use ahjoorxmr_contract.Host.{Env, ok, panic, trap, Outcome, Outcome-cases, when, TokenCall, ⊤}
use ahjoorxmr_contract.Escrow.Types.{Error, Escrow, EscrowStatus, EscrowBatchConfig}
use ahjoorxmr_contract.Escrow.Events.{World}
use ahjoorxmr_contract.Escrow.Admin
use ahjoorxmr_contract.Escrow.Create
use ahjoorxmr_contract.Escrow.Create.{
  resolve_sellers, create_escrow_core, create_each, next_escrow_id,
}
use ahjoorxmr_contract.Escrow.Release
use ahjoorxmr_contract.Escrow.Release.{
  pay, pay_shares, pay_sellers, pay_out, renew, try_auto_renew, update_last_buyer_action,
}
use ahjoorxmr_contract.Escrow.Disputes
use ahjoorxmr_contract.Escrow.Deadlines
use ahjoorxmr_contract.Escrow.Parties
use ahjoorxmr_contract.Escrow.Templates
use ahjoorxmr_contract.Escrow.Arbiters
use ahjoorxmr_contract.Escrow.Arbiters.{flag_escrows}
use ahjoorxmr_contract.Escrow.Entry.{Call, invoke}

pub record Config : Type 0 where
  pub admin : Option ℕ
  pub paused : Option Bool
  pub pause_reason : Option String
  pub protocol_fee_bps : Option ℕ
  pub fee_recipient : Option ℕ
  pub default_dispute_timeout : Option ℕ
  pub allowed_token : ℕ → Option Bool
  pub arbiter_pool : Option (List ℕ)

abbrev pub config : World → Config
config w = record {
  admin = w.store.admin;
  paused = w.store.paused;
  pause_reason = w.store.pause_reason;
  protocol_fee_bps = w.store.protocol_fee_bps;
  fee_recipient = w.store.fee_recipient;
  default_dispute_timeout = w.store.default_dispute_timeout;
  allowed_token = w.store.allowed_token;
  arbiter_pool = w.store.arbiter_pool;
}

-- A call that keeps the configuration, if it succeeds.
abbrev pub Keeps : {A : Type 0} → World → Outcome Error (A × World) → Type 0
Keeps w (ok (_, w')) = config w' ≡ config w
Keeps w (panic _) = Unit
Keeps w (trap _) = Unit
