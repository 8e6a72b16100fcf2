-- ===== src/Refund/Effects/Parts.antt =====
-- What the shared parts of the refund contract's entry points do to its books.
use ahjoorxmr_contract.Base.{
  ℕ, ◌*◌, ◌/◌, ◌≤◌, ◌<◌, ◌≡◌, refl, inl, inr, List, [], ◌∷◌, ◌++◌, Option, none, some,
  if◌then◌else◌, unwrap_or, Option-cases, Bool-cases, ℤ, pos, ◌-ℤ◌, ◌*ℤ◌, ◌≤ℤ◌, ◌<ℤ◌, ltb_ℤ,
  int_laws, arith, pos-*ℤ, le_of_fiftieth,
}
use ahjoorxmr_contract.Host.{Env, ok, panic, trap, Outcome, Outcome-cases, TokenCall}
use ahjoorxmr_contract.Host.Tokens.{AllOut, total}
use ahjoorxmr_contract.Refund.Types.{Error, Refund}
use ahjoorxmr_contract.Refund.Events.{World}
use ahjoorxmr_contract.Refund.Records.{
  update_stats_on_request, update_stats_on_approve, update_stats_on_reject, update_stats_on_process,
  bps_of, pay, pay_refund,
}
use ahjoorxmr_contract.Refund.Request.{match_tier, apply_tiers, index_refund, check_cooldown}

-- A call that leaves the books and the fee, if it succeeds.
abbrev pub Idle : {A : Type 0} → World → Outcome Error (A × World) → Type 0
Idle w (ok (_, w')) =
    (w'.store.refund_counter ≡ w.store.refund_counter)
    × (w'.store.refund ≡ w.store.refund)
    × (w'.calls ≡ w.calls)
    × (w'.store.refunded_amount ≡ w.store.refunded_amount)
    × (w'.store.refund_fee_bps ≡ w.store.refund_fee_bps)
Idle w (panic _) = Unit
Idle w (trap _) = Unit

pub update_stats_on_request-Idle :
    (merchant : ℕ) (env : Env) (w : World) → Idle w (update_stats_on_request merchant env w)
unfolding update_stats_on_request
update_stats_on_request-Idle merchant env w = ground arith

pub update_stats_on_approve-Idle :
    (merchant : ℕ) (env : Env) (w : World) → Idle w (update_stats_on_approve merchant env w)
unfolding update_stats_on_approve
update_stats_on_approve-Idle merchant env w = ground arith

pub update_stats_on_reject-Idle :
    (merchant : ℕ) (env : Env) (w : World) → Idle w (update_stats_on_reject merchant env w)
unfolding update_stats_on_reject
update_stats_on_reject-Idle merchant env w = ground arith

pub update_stats_on_process-Idle :
    (merchant : ℕ) (x : ℤ) (env : Env) (w : World)
    → Idle w (update_stats_on_process merchant x env w)
unfolding update_stats_on_process
update_stats_on_process-Idle merchant x env w = ground arith

pub index_refund-Idle : (r : Refund) (env : Env) (w : World) → Idle w (index_refund r env w)
unfolding index_refund
index_refund-Idle r env w = ground arith

pub check_cooldown-Idle :
    (customer cooldown : ℕ) (env : Env) (w : World)
    → Idle w (check_cooldown customer cooldown env w)
unfolding check_cooldown
check_cooldown-Idle customer cooldown env w = ground arith

-- The share of an amount that is not negative is what it is on numbers.
pub bps_of-lem :
    (n bps : ℕ) (env : Env) (w w' : World) (z : ℤ)
    → bps_of (pos n) bps env w ≡ ok (z, w')
    → (z ≡ pos (n * bps / 10000)) × (w' ≡ w)
unfolding bps_of
bps_of-lem n bps env w w' z h = ground arith

-- The amount under the tiers is positive and at most what is asked for; nothing is changed.
abbrev pub Caps : ℤ → World → Outcome Error ((ℤ × Option (ℕ × ℤ)) × World) → Type 0
Caps amount w (ok ((x, _), w')) = (w' ≡ w) × (pos 0 <ℤ x) × (x ≤ℤ amount)
Caps amount w (panic _) = Unit
Caps amount w (trap _) = Unit

abbrev Fits : ℤ → World → Outcome Error ((ℤ × ℕ × ℤ) × World) → Type 0
Fits amount w (ok ((x, _, _), w')) = (w' ≡ w) × (pos 0 <ℤ x) × (x ≤ℤ amount)
Fits amount w (panic _) = Unit
Fits amount w (trap _) = Unit

match_tier-Fits :
    (tiers : List (ℕ × ℕ)) (elapsed : ℕ) (paid already amount : ℤ) (env : Env) (w : World)
    → pos 0 <ℤ amount
    → Fits amount w (match_tier tiers elapsed paid already amount env w)
unfolding match_tier bps_of
match_tier-Fits [] elapsed paid already amount env w h = tt
match_tier-Fits ((max_seconds, tier_bps) ∷ tiers) elapsed paid already amount env w h =
    ground (arith, match_tier-Fits tiers elapsed paid already amount env w h)

pub apply_tiers-Caps :
    (tiers : List (ℕ × ℕ)) (elapsed : ℕ) (paid already amount : ℤ) (env : Env) (w : World)
    → pos 0 <ℤ amount
    → Caps amount w (apply_tiers tiers elapsed paid already amount env w)
unfolding apply_tiers
apply_tiers-Caps [] elapsed paid already amount env w h = (refl, h, omega arith)
apply_tiers-Caps (t ∷ tiers) elapsed paid already amount env w h =
    ground (arith, match_tier-Fits (t ∷ tiers) elapsed paid already amount env w h)

-- What a refund pays, newest first: the fee, where there is one and a recipient, after the rest.
abbrev pub refund_calls : ℕ → Refund → ℤ → Option ℕ → List TokenCall
refund_calls self r fee none = TokenCall.transfer r.token self r.customer (r.amount -ℤ fee) ∷ []
refund_calls self r fee (some fee_recipient) =
    if ltb_ℤ (pos 0) fee
    then TokenCall.transfer r.token self fee_recipient fee
      ∷ TokenCall.transfer r.token self r.customer (r.amount -ℤ fee)
      ∷ []
    else TokenCall.transfer r.token self r.customer (r.amount -ℤ fee) ∷ []

-- The payment of a refund less its fee.
pub record PaysRefund (env : Env) (w w' : World) (r : Refund) (fee rest : ℤ) : Type 0 where
  pub same_store : w'.store ≡ w.store
  pub fee_nonneg : pos 0 ≤ℤ fee
  pub fee_at_most : fee *ℤ pos 50 ≤ℤ r.amount
  pub less_fee : rest ≡ r.amount -ℤ fee
  pub made_calls :
      w'.calls ≡ refund_calls env.current_contract_address r fee w.store.fee_recipient ++ w.calls

refund_fee-small : (n bps : ℕ) → bps ≤ 200 → n * bps / 10000 * 50 ≤ n
refund_fee-small n bps h = grind arith

-- The fee that is computed, and what is then left.
pay_refund-fee :
    (id n : ℕ) (r : Refund) (env : Env) (w w' : World) (fee rest : ℤ)
    → r.amount ≡ pos n
    → pay_refund id r env w ≡ ok ((fee, rest), w')
    → (fee ≡ pos (n * unwrap_or w.store.refund_fee_bps 0 / 10000)) × (rest ≡ r.amount -ℤ fee)
unfolding pay_refund pay
pay_refund-fee id n r env w w' fee rest e k =
    elim (Outcome-cases (bps_of r.amount (unwrap_or w.store.refund_fee_bps 0) env w)) [
      | inl ((z, w1), f) ↦
          let (size, same) =
            bps_of-lem n (unwrap_or w.store.refund_fee_bps 0) env w w1 z (rw e at f) in
          ground arith
      | inr (inl (x, f)) ↦ ground arith
      | inr (inr (x, f)) ↦ ground arith
    ]

-- The transfers that are made.
pay_refund-calls :
    (id n : ℕ) (r : Refund) (env : Env) (w w' : World) (fee rest : ℤ)
    → r.amount ≡ pos n
    → pos 0 <ℤ rest
    → pay_refund id r env w ≡ ok ((fee, rest), w')
    → (w'.store ≡ w.store)
      × (w'.calls
          ≡ refund_calls env.current_contract_address r fee w.store.fee_recipient ++ w.calls)
unfolding pay_refund pay
pay_refund-calls id n r env w w' fee rest e h k = elim (Option-cases w.store.fee_recipient) [
  | inl nobody ↦ elim (Outcome-cases (bps_of r.amount (unwrap_or w.store.refund_fee_bps 0) env w)) [
    | inl ((z, w1), f) ↦
        let (size, same) =
          bps_of-lem n (unwrap_or w.store.refund_fee_bps 0) env w w1 z (rw e at f) in
        (ground arith, ground arith)
    | inr (inl (x, f)) ↦ (ground arith, ground arith)
    | inr (inr (x, f)) ↦ (ground arith, ground arith)
  ]
  | inr (a, g) ↦ elim (Outcome-cases (bps_of r.amount (unwrap_or w.store.refund_fee_bps 0) env w)) [
    | inl ((z, w1), f) ↦
        let (size, same) =
          bps_of-lem n (unwrap_or w.store.refund_fee_bps 0) env w w1 z (rw e at f) in
        (ground arith, ground arith)
    | inr (inl (x, f)) ↦ (ground arith, ground arith)
    | inr (inr (x, f)) ↦ (ground arith, ground arith)
  ]
]

-- Where a refund is positive and the fee at most 200 basis points, its payment is the fee, at most a
-- fiftieth, to the recipient of fees if there is one, and the rest to the customer.
pub pay_refund-PaysRefund :
    (id n : ℕ) (r : Refund) (env : Env) (w w' : World) (fee rest : ℤ)
    → r.amount ≡ pos n
    → 0 < n
    → unwrap_or w.store.refund_fee_bps 0 ≤ 200
    → pay_refund id r env w ≡ ok ((fee, rest), w')
    → PaysRefund env w w' r fee rest
pay_refund-PaysRefund id n r env w w' fee rest e h bounded k =
    let (size, less) = pay_refund-fee id n r env w w' fee rest e k in
    let small = refund_fee-small n (unwrap_or w.store.refund_fee_bps 0) bounded in
    let nonneg : pos 0 ≤ℤ fee = rw size (omega arith) in
    let positive : pos 0 <ℤ rest = rw (less, e, size) (omega (int_laws, small)) in
    let (same, calls) = pay_refund-calls id n r env w w' fee rest e positive k in
    record {
      same_store = same;
      fee_nonneg = nonneg;
      fee_at_most = rw (size, e, pos-*ℤ) (omega (arith, small));
      less_fee = less;
      made_calls = calls;
    }

-- A refund's payment is out of the contract and at most the amount.
pub refund_calls-Out :
    (self : ℕ) (r : Refund) (fee : ℤ) (fee_recipient : Option ℕ)
    → pos 0 ≤ℤ fee
    → fee *ℤ pos 50 ≤ℤ r.amount
    → pos 0 <ℤ r.amount
    → AllOut self r.token (refund_calls self r fee fee_recipient)
      × (total (refund_calls self r fee fee_recipient) ≤ℤ r.amount)
refund_calls-Out self r fee none h k p =
    let le = le_of_fiftieth fee r.amount h k in (((refl, refl, omega int_laws), tt), omega int_laws)
refund_calls-Out self r fee (some a) h k p = elim (Bool-cases (ltb_ℤ (pos 0) fee)) [
  | inl some_fee ↦
      let le = le_of_fiftieth fee r.amount h k in
      rw some_fee (((refl, refl, h), ((refl, refl, omega int_laws), tt)), omega int_laws)
  | inr no_fee ↦
      let le = le_of_fiftieth fee r.amount h k in
      rw no_fee (((refl, refl, omega int_laws), tt), omega int_laws)
]
