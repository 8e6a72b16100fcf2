-- ===== src/Refund/Sanction.antt =====
-- Who changes the configuration of the refund contract: the calls of `require_admin` in
-- contracts/ahjoor-refund/src/lib.rs.
use ahjoorxmr_contract.Base.{
  ℕ, ◌≤◌, ◌≡◌, ◌≢◌, ap, ◌⊎◌, inl, inr, true, List, [], Option, none, some, is_some, arith,
  unwrap_or, Bool-cases, Option-cases,
}
use ahjoorxmr_contract.Host.{Env, ok, Outcome, ⊤}
use ahjoorxmr_contract.Refund.Types.{Error, Payments}
use ahjoorxmr_contract.Refund.Events.{World}
use ahjoorxmr_contract.Refund.Admin
use ahjoorxmr_contract.Refund.Entry.{Call, invoke}
use ahjoorxmr_contract.Refund.Config.{Config, config, Keeps}
use ahjoorxmr_contract.Refund.Config.Calls.{changes_config, invoke-Keeps}
use ahjoorxmr_contract.Refund.Refinement.{check_tiers-Reads}

-- The admin was stored before the call and has authorised it.
abbrev pub ByAdmin : Env → World → Type 0
ByAdmin env w = (a : ℕ) × (w.store.admin ≡ some a) × (env.authorized a ≡ true)

config_call-ByAdmin :
    (payments : Payments) (c : Call) (env : Env) (w w' : World)
    → changes_config c ≡ true
    → invoke payments c env w ≡ ok (tt, w')
    → (w.store.admin ≡ none) ⊎ ByAdmin env w
unfolding invoke Admin.initialize Admin.set_refund_tiers Admin.add_to_auto_approve
    Admin.remove_from_auto_approve Admin.update_refund_fee Admin.pause_contract
    Admin.resume_contract
config_call-ByAdmin payments (Call.initialize _ _ _ _ _ _ _ _ _ _ _) env w w' c h =
    elim (Option-cases w.store.admin) [ inl fresh ↦ inl fresh | inr (a, e) ↦ absurd (ground arith) ]
config_call-ByAdmin payments _ env w w' c h = elim (Option-cases w.store.admin) [
  | inl fresh ↦ inl fresh
  | inr (a, e) ↦ inr (a, e, ground arith)
]

Keeps-ok :
    (w w' : World) (o : Outcome Error (⊤ × World))
    → o ≡ ok (tt, w')
    → Keeps w o
    → config w' ≡ config w
Keeps-ok w w' o e k = rw e at k

-- A call that changes the configuration has been authorised by the stored admin, unless there was
-- no admin before it.
pub refund_config-ByAdmin :
    (payments : Payments) (c : Call) (env : Env) (w w' : World)
    → invoke payments c env w ≡ ok (tt, w')
    → config w' ≢ config w
    → (w.store.admin ≡ none) ⊎ ByAdmin env w
refund_config-ByAdmin payments c env w w' h changed = elim (Bool-cases (changes_config c)) [
  | inl does ↦ config_call-ByAdmin payments c env w w' does h
  | inr keeps ↦ absurd (changed (Keeps-ok w w' _ h (invoke-Keeps payments c env w keeps)))
]

-- The contract has its admin, and the fee is at most 200 basis points.
pub record IsRunning (w : World) : Type 0 where
  pub initialized : is_some w.store.admin ≡ true
  pub fee_bounded : unwrap_or w.store.refund_fee_bps 0 ≤ 200

IsRunning-same : (w w' : World) → config w' ≡ config w → IsRunning w → IsRunning w'
IsRunning-same w w' e v = record {
  initialized = rw (ap (λ (c : Config). c.admin) e) v.initialized;
  fee_bounded = rw (ap (λ (c : Config). c.refund_fee_bps) e) v.fee_bounded;
}

config_call-IsRunning :
    (payments : Payments) (c : Call) (env : Env) (w w' : World)
    → changes_config c ≡ true
    → is_some w.store.admin ≡ true
    → unwrap_or w.store.refund_fee_bps 0 ≤ 200
    → invoke payments c env w ≡ ok (tt, w')
    → (is_some w'.store.admin ≡ true) × (unwrap_or w'.store.refund_fee_bps 0 ≤ 200)
unfolding invoke Admin.initialize Admin.set_refund_tiers Admin.add_to_auto_approve
    Admin.remove_from_auto_approve Admin.update_refund_fee Admin.pause_contract
    Admin.resume_contract Admin.validate_refund_tiers
config_call-IsRunning payments (Call.initialize _ _ _ _ _ _ _ _ _ _ _) env w w' c init fee h =
    elim (Option-cases w.store.admin) [
      | inl fresh ↦ absurd (ground arith)
      | inr (a, e) ↦ absurd (ground arith)
    ]
config_call-IsRunning payments (Call.set_refund_tiers admin tiers) env w w' c init fee h =
    let same = check_tiers-Reads true 0 tiers env w in (ground (arith, same), ground (arith, same))
config_call-IsRunning payments _ env w w' c init fee h = (ground arith, ground arith)

-- A successful call leaves a running contract running.
pub invoke-IsRunning :
    (payments : Payments) (c : Call) (env : Env) (w w' : World)
    → IsRunning w
    → invoke payments c env w ≡ ok (tt, w')
    → IsRunning w'
invoke-IsRunning payments c env w w' v h = elim (Bool-cases (changes_config c)) [
  | inl does ↦
      let (init, fee) =
        config_call-IsRunning payments c env w w' does v.initialized v.fee_bounded h in
      record { initialized = init; fee_bounded = fee }
  | inr keeps ↦ IsRunning-same w w' (Keeps-ok w w' _ h (invoke-Keeps payments c env w keeps)) v
]

-- The storage at the check of the tiers in `initialize`.
abbrev with_escrow : Option ℕ → World → World
with_escrow none w = w
with_escrow (some a) w = record w { store = record w.store { escrow_contract_address = some a } }

abbrev with_recipient : Option ℕ → World → World
with_recipient none w = w
with_recipient (some a) w = record w { store = record w.store { fee_recipient = some a } }

abbrev half_initialized : ℕ → ℕ → ℕ → Option ℕ → ℕ → Option ℕ → World → World
half_initialized admin payment_contract window escrow fee_bps recipient w =
    let w1 : World = record w {
      store = record w.store {
        admin = some admin;
        refund_counter = some 0;
        contract_version = some 1;
        payment_contract_address = some payment_contract;
        dispute_window = some window;
      };
    } in
    let w2 = with_escrow escrow w1 in
    let w3 : World = record w2 { store = record w2.store { refund_fee_bps = some fee_bps } } in
    with_recipient recipient w3

-- The contract as `initialize` leaves it.
pub record IsInitialized (w w' : World) : Type 0 where
  pub running : IsRunning w'
  pub counter : w'.store.refund_counter ≡ some 0
  pub same_refunds : w'.store.refund ≡ w.store.refund
  pub same_calls : w'.calls ≡ w.calls

initialize-parts :
    (admin payment_contract window : ℕ) (escrow : Option ℕ) (fee_bps : ℕ) (recipient : Option ℕ)
    (reject_window appeal_window : ℕ) (tiers : Option (List (ℕ × ℕ))) (cooldown cancel_window : ℕ)
    (env : Env) (w w' : World)
    → Admin.initialize admin payment_contract window escrow fee_bps recipient reject_window
        appeal_window tiers cooldown cancel_window env w
      ≡ ok (tt, w')
    → (is_some w'.store.admin ≡ true)
      × (unwrap_or w'.store.refund_fee_bps 0 ≤ 200)
      × (w'.store.refund_counter ≡ some 0)
      × (w'.store.refund ≡ w.store.refund)
      × (w'.calls ≡ w.calls)
unfolding Admin.initialize Admin.validate_refund_tiers
initialize-parts admin payment_contract window none fee_bps none reject_window appeal_window tiers
      cooldown cancel_window env w w' h =
    let reads =
      check_tiers-Reads true 0 (unwrap_or tiers []) env
        (half_initialized admin payment_contract window none fee_bps none w) in
    ground (arith, reads)
initialize-parts admin payment_contract window (some a) fee_bps none reject_window appeal_window
      tiers cooldown cancel_window env w w' h =
    let reads =
      check_tiers-Reads true 0 (unwrap_or tiers []) env
        (half_initialized admin payment_contract window (some a) fee_bps none w) in
    ground (arith, reads)
initialize-parts admin payment_contract window none fee_bps (some b) reject_window appeal_window
      tiers cooldown cancel_window env w w' h =
    let reads =
      check_tiers-Reads true 0 (unwrap_or tiers []) env
        (half_initialized admin payment_contract window none fee_bps (some b) w) in
    ground (arith, reads)
initialize-parts admin payment_contract window (some a) fee_bps (some b) reject_window appeal_window
      tiers cooldown cancel_window env w w' h =
    let reads =
      check_tiers-Reads true 0 (unwrap_or tiers []) env
        (half_initialized admin payment_contract window (some a) fee_bps (some b) w) in
    ground (arith, reads)

pub initialize-IsInitialized :
    (admin payment_contract window : ℕ) (escrow : Option ℕ) (fee_bps : ℕ) (recipient : Option ℕ)
    (reject_window appeal_window : ℕ) (tiers : Option (List (ℕ × ℕ))) (cooldown cancel_window : ℕ)
    (env : Env) (w w' : World)
    → Admin.initialize admin payment_contract window escrow fee_bps recipient reject_window
        appeal_window tiers cooldown cancel_window env w
      ≡ ok (tt, w')
    → IsInitialized w w'
initialize-IsInitialized admin payment_contract window escrow fee_bps recipient reject_window
      appeal_window tiers cooldown cancel_window env w w' h =
    let (init, fee, counter, refunds, calls) =
      initialize-parts admin payment_contract window escrow fee_bps recipient reject_window
        appeal_window tiers cooldown cancel_window env w w' h in
    record {
      running = record { initialized = init; fee_bounded = fee };
      counter = counter;
      same_refunds = refunds;
      same_calls = calls;
    }
