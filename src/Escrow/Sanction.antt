-- ===== src/Escrow/Sanction.antt =====
-- Who changes the configuration of the escrow contract, and the bound on its fee: the calls of
-- `require_admin` and `update_protocol_fee` in contracts/ahjoor-escrow/src/lib.rs.
use ahjoorxmr_contract.Base.{
  without, ℕ, ◌≤◌, ◌≡◌, ◌≢◌, ap, ◌⊎◌, inl, inr, true, List, none, some, arith, unwrap_or,
  Bool-cases, Option-cases,
}
use ahjoorxmr_contract.Host.{Env, ok, Outcome, ⊤}
use ahjoorxmr_contract.Escrow.Types.{Error, max_protocol_fee_bps}
use ahjoorxmr_contract.Escrow.Events.{World}
use ahjoorxmr_contract.Escrow.Admin
use ahjoorxmr_contract.Escrow.Arbiters
use ahjoorxmr_contract.Escrow.Entry.{Call, invoke}
use ahjoorxmr_contract.Escrow.Config.{config, Keeps}
use ahjoorxmr_contract.Escrow.Config.Parts.{flag_escrows-Keeps}
use ahjoorxmr_contract.Escrow.Config.Calls.{changes_config, invoke-Keeps}

-- The admin was stored before the call and has authorised it.
abbrev pub ByAdmin : Env → World → Type 0
ByAdmin env w = (a : ℕ) × (w.store.admin ≡ some a) × (env.authorized a ≡ true)

config_call-ByAdmin :
    (c : Call) (env : Env) (w w' : World)
    → changes_config c ≡ true
    → invoke c env w ≡ ok (tt, w')
    → (w.store.admin ≡ none) ⊎ ByAdmin env w
unfolding invoke Admin.initialize Admin.update_default_dispute_timeout Admin.update_protocol_fee
    Admin.pause_contract Admin.resume_contract Admin.add_allowed_token Admin.remove_allowed_token
    Arbiters.add_arbiter Arbiters.remove_arbiter
config_call-ByAdmin (Call.initialize admin) env w w' c h = elim (Option-cases w.store.admin) [
  | inl fresh ↦ inl fresh
  | inr (a, e) ↦ absurd (ground arith)
]
config_call-ByAdmin _ env w w' c h = elim (Option-cases w.store.admin) [
  | inl fresh ↦ inl fresh
  | inr (a, e) ↦ inr (a, e, ground arith)
]

Keeps-ok :
    (w w' : World) (o : Outcome Error (⊤ × World))
    → o ≡ ok (tt, w')
    → Keeps w o
    → config w' ≡ config w
Keeps-ok w w' o e k = rw e at k

-- A call that changes the configuration has been authorised by the stored admin, unless there was
-- no admin before it.
pub config-ByAdmin :
    (c : Call) (env : Env) (w w' : World)
    → invoke c env w ≡ ok (tt, w')
    → config w' ≢ config w
    → (w.store.admin ≡ none) ⊎ ByAdmin env w
config-ByAdmin c env w w' h changed = elim (Bool-cases (changes_config c)) [
  | inl does ↦ config_call-ByAdmin c env w w' does h
  | inr keeps ↦ absurd (changed (Keeps-ok w w' _ h (invoke-Keeps c env w keeps)))
]

remove_arbiter-fee :
    (admin arbiter : ℕ) (ids : List ℕ) (env : Env) (w w' : World)
    → Arbiters.remove_arbiter admin arbiter ids env w ≡ ok (tt, w')
    → w'.store.protocol_fee_bps ≡ w.store.protocol_fee_bps
unfolding Arbiters.remove_arbiter
remove_arbiter-fee admin arbiter ids env w w' h = elim (Option-cases w.store.arbiter_pool) [
  | inl empty ↦ absurd (ground arith)
  | inr (pool, e) ↦
      let kept : World = record w {
        store = record w.store { arbiter_pool = some (without arbiter pool) };
      } in
      let reset : World = record w {
        store = record w.store {
          arbiter_pool = some (without arbiter pool);
          next_arbiter_index = some 0;
        };
      } in
      ground
        (arith, flag_escrows-Keeps arbiter ids env kept, flag_escrows-Keeps arbiter ids env reset)
]

fee_call-bounded :
    (c : Call) (env : Env) (w w' : World)
    → changes_config c ≡ true
    → unwrap_or w.store.protocol_fee_bps 0 ≤ max_protocol_fee_bps
    → invoke c env w ≡ ok (tt, w')
    → unwrap_or w'.store.protocol_fee_bps 0 ≤ max_protocol_fee_bps
unfolding invoke Admin.initialize Admin.update_default_dispute_timeout Admin.update_protocol_fee
    Admin.pause_contract Admin.resume_contract Admin.add_allowed_token Admin.remove_allowed_token
    Arbiters.add_arbiter
fee_call-bounded (Call.remove_arbiter admin arbiter ids) env w w' c bounded h =
    rw (remove_arbiter-fee admin arbiter ids env w w' h) bounded
fee_call-bounded _ env w w' c bounded h = ground arith

-- A successful call leaves the protocol fee at most 200 basis points when it was so before.
pub invoke_fee_bounded :
    (c : Call) (env : Env) (w w' : World)
    → unwrap_or w.store.protocol_fee_bps 0 ≤ max_protocol_fee_bps
    → invoke c env w ≡ ok (tt, w')
    → unwrap_or w'.store.protocol_fee_bps 0 ≤ max_protocol_fee_bps
invoke_fee_bounded c env w w' bounded h = elim (Bool-cases (changes_config c)) [
  | inl does ↦ fee_call-bounded c env w w' does bounded h
  | inr keeps ↦
      rw (ap (λ c. c.protocol_fee_bps) (Keeps-ok w w' _ h (invoke-Keeps c env w keeps))) bounded
]
