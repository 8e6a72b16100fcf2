-- ===== src/Refund/Effects/Stages.antt =====
-- The stages of a request for a refund: contracts/ahjoor-refund/src/lib.rs (`request_refund`).
use ahjoorxmr_contract.Base.{
  ℕ, ◌+◌, ◌-◌, ◌≡◌, inl, inr, true, [], ◌∷◌, Option, some, String, ltb, unwrap_or, contains,
  Option-cases, ℤ, pos, ◌+ℤ◌, ◌≤ℤ◌, ◌<ℤ◌, arith,
}
use ahjoorxmr_contract.Host.{Env, ok, Outcome-cases, TokenCall, when}
use ahjoorxmr_contract.Refund.Types.{Payment, Payments, Refund, is_completed_status}
use ahjoorxmr_contract.Refund.Events.{World}
use ahjoorxmr_contract.Refund.Request.{
  check_cooldown, apply_tiers, new_refund, store_request, request_refund,
}
use ahjoorxmr_contract.Refund.Effects.Parts.{apply_tiers-Caps}

-- The storage with the next number taken, after the transfer `c`.
abbrev pub counted_up : TokenCall → World → World
counted_up c w = record w {
  store = record w.store { refund_counter = some (unwrap_or w.store.refund_counter 0 + 1) };
  calls = c ∷ w.calls;
}

-- The refund that is stored when `x` of a payment is requested in the world `w`.
abbrev pub requested_in : World → Env → ℕ → ℕ → Payment → ℤ → String → ℕ → Refund
requested_in w env payment_id customer p x reason code =
    new_refund (unwrap_or w.store.refund_counter 0) payment_id customer p x reason code
      env.timestamp (contains p.merchant (unwrap_or w.store.auto_approved_merchants []))

-- What a request that succeeds has gone through: the cooldown, the payment, the tiers and the rest.
pub record Stages (payments : Payments) (customer payment_id : ℕ) (amount : ℤ) (reason : String)
    (code : ℕ) (env : Env) (w w' : World) : Type 0 where
  pub cooled_world : World
  pub tiered_world : World
  pub address : ℕ
  pub payment : Payment
  pub x : ℤ
  pub applied : Option (ℕ × ℤ)
  pub cooled :
      when
        (ltb 0 (unwrap_or w.store.refund_cooldown 0))
        (check_cooldown customer (unwrap_or w.store.refund_cooldown 0))
        env
        w
      ≡ ok (tt, cooled_world)
  pub configured : cooled_world.store.payment_contract_address ≡ some address
  pub known : payments address payment_id ≡ some payment
  pub completed : is_completed_status payment.status ≡ true
  pub authorized : env.authorized customer ≡ true
  pub asked_positive : pos 0 <ℤ amount
  pub tiered :
      apply_tiers
        (unwrap_or cooled_world.store.refund_tiers [])
        (env.timestamp - payment.created_at)
        payment.amount
        (unwrap_or (cooled_world.store.refunded_amount payment_id) (pos 0))
        amount
        env
        cooled_world
      ≡ ok ((x, applied), tiered_world)
  pub fits :
      x +ℤ unwrap_or (cooled_world.store.refunded_amount payment_id) (pos 0) ≤ℤ payment.amount
  pub stored :
      store_request
        (requested_in tiered_world env payment_id customer payment x reason code)
        (unwrap_or w.store.refund_cooldown 0)
        applied
        (contains payment.merchant (unwrap_or tiered_world.store.auto_approved_merchants []))
        env
        (counted_up
          (TokenCall.transfer payment.token customer env.current_contract_address x)
          tiered_world)
      ≡ ok (tt, w')

pub request_refund-Stages :
    (payments : Payments) (customer payment_id : ℕ) (amount : ℤ) (reason : String) (reason_code : ℕ)
    (env : Env) (w w' : World) (id : ℕ)
    → request_refund payments customer payment_id amount reason reason_code env w ≡ ok (id, w')
    → Stages payments customer payment_id amount reason reason_code env w w'
unfolding request_refund
request_refund-Stages payments customer payment_id amount reason reason_code env w w' id h =
    let cooldown = unwrap_or w.store.refund_cooldown 0 in
    elim (Outcome-cases (when (ltb 0 cooldown) (check_cooldown customer cooldown) env w)) [
      | inl ((_, w1), k1) ↦ elim (Option-cases w1.store.payment_contract_address) [
        | inl unset ↦ absurd (ground arith)
        | inr (address, g) ↦ elim (Option-cases (payments address payment_id)) [
          | inl unknown ↦ absurd (ground arith)
          | inr (p, q) ↦
              let already = unwrap_or (w1.store.refunded_amount payment_id) (pos 0) in
              let tiers = unwrap_or w1.store.refund_tiers [] in
              let elapsed = env.timestamp - p.created_at in
              let positive : pos 0 <ℤ amount = ground arith in
              let caps = apply_tiers-Caps tiers elapsed p.amount already amount env w1 positive in
              elim (Outcome-cases (apply_tiers tiers elapsed p.amount already amount env w1)) [
                | inl (((x, applied), w2), k2) ↦
                    let (same, above, below) = rw k2 at caps in
                    record {
                      cooled_world = w1;
                      tiered_world = w2;
                      address = address;
                      payment = p;
                      x = x;
                      applied = applied;
                      cooled = k1;
                      configured = g;
                      known = q;
                      completed = ground arith;
                      authorized = ground arith;
                      asked_positive = positive;
                      tiered = k2;
                      fits = ground (arith, same);
                      stored = ground arith;
                    }
                | inr (inl (x, k)) ↦ absurd (ground arith)
                | inr (inr (x, k)) ↦ absurd (ground arith)
              ]
        ]
      ]
      | inr (inl (x, k)) ↦ absurd (ground arith)
      | inr (inr (x, k)) ↦ absurd (ground arith)
    ]
