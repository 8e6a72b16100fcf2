-- ===== src/Refund/Config/Parts.antt =====
-- What the parts of the entry points of contracts/ahjoor-refund/src/lib.rs do to the configuration.
use ahjoorxmr_contract.Base.{ℕ, inl, inr, Bool, true, false, List, [], ◌∷◌, Option, arith, ℤ}
use ahjoorxmr_contract.Host.{Env, Outcome-cases}
use ahjoorxmr_contract.Refund.Types.{Refund}
use ahjoorxmr_contract.Refund.Events.{World}
use ahjoorxmr_contract.Refund.Records.{
  update_stats_on_request, update_stats_on_approve, update_stats_on_reject, update_stats_on_process,
  bps_of, pay_refund,
}
use ahjoorxmr_contract.Refund.Request.{check_cooldown, match_tier, index_refund, store_request}
use ahjoorxmr_contract.Refund.Effects.Requesting.{placed, queued}
use ahjoorxmr_contract.Refund.Config.{Keeps}

pub update_stats_on_request-Keeps :
    (merchant : ℕ) (env : Env) (w : World) → Keeps w (update_stats_on_request merchant env w)
unfolding update_stats_on_request
update_stats_on_request-Keeps merchant env w = ground arith

pub update_stats_on_process-Keeps :
    (merchant : ℕ) (x : ℤ) (env : Env) (w : World)
    → Keeps w (update_stats_on_process merchant x env w)
unfolding update_stats_on_process
update_stats_on_process-Keeps merchant x env w = ground arith

pub update_stats_on_reject-Keeps :
    (merchant : ℕ) (env : Env) (w : World) → Keeps w (update_stats_on_reject merchant env w)
unfolding update_stats_on_reject
update_stats_on_reject-Keeps merchant env w = ground arith

pub update_stats_on_approve-Keeps :
    (merchant : ℕ) (env : Env) (w : World) → Keeps w (update_stats_on_approve merchant env w)
unfolding update_stats_on_approve
update_stats_on_approve-Keeps merchant env w = ground arith

pub pay_refund-Keeps :
    (id : ℕ) (r : Refund) (env : Env) (w : World) → Keeps w (pay_refund id r env w)
unfolding pay_refund
pay_refund-Keeps id r env w = ground arith

pub bps_of-Keeps : (x : ℤ) (bps : ℕ) (env : Env) (w : World) → Keeps w (bps_of x bps env w)
unfolding bps_of
bps_of-Keeps x bps env w = ground arith

pub index_refund-Keeps : (r : Refund) (env : Env) (w : World) → Keeps w (index_refund r env w)
unfolding index_refund
index_refund-Keeps r env w = ground arith

pub match_tier-Keeps :
    (tiers : List (ℕ × ℕ)) (elapsed : ℕ) (paid already amount : ℤ) (env : Env) (w : World)
    → Keeps w (match_tier tiers elapsed paid already amount env w)
unfolding match_tier
match_tier-Keeps [] elapsed paid already amount env w = tt
match_tier-Keeps ((m, bps) ∷ tiers) elapsed paid already amount env w =
    ground
      (arith, match_tier-Keeps tiers elapsed paid already amount env w, bps_of-Keeps paid bps env w)

pub check_cooldown-Keeps :
    (customer cooldown : ℕ) (env : Env) (w : World)
    → Keeps w (check_cooldown customer cooldown env w)
unfolding check_cooldown
check_cooldown-Keeps customer cooldown env w = ground arith

pub store_request-Keeps :
    (r : Refund) (cooldown : ℕ) (applied : Option (ℕ × ℤ)) (white : Bool) (env : Env) (w : World)
    → Keeps w (store_request r cooldown applied white env w)
unfolding store_request
store_request-Keeps r cooldown applied true env w =
    let indexed = index_refund-Keeps r env (placed r w) in
    elim (Outcome-cases (index_refund r env (placed r w))) [
      | inl ((_, w1), k) ↦
          ground (arith, rw k at indexed, update_stats_on_request-Keeps r.merchant env w1)
      | inr (inl (x, k)) ↦ ground arith
      | inr (inr (x, k)) ↦ ground arith
    ]
store_request-Keeps r cooldown applied false env w =
    let indexed = index_refund-Keeps r env (placed r w) in
    elim (Outcome-cases (index_refund r env (placed r w))) [
      | inl ((_, w1), k) ↦
          ground
            (arith, rw k at indexed, update_stats_on_request-Keeps r.merchant env (queued r.id w1))
      | inr (inl (x, k)) ↦ ground arith
      | inr (inr (x, k)) ↦ ground arith
    ]
