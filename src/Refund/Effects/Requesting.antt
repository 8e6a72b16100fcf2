-- ===== src/Refund/Effects/Requesting.antt =====
-- What a request for a refund does to the books of the refund contract.
use ahjoorxmr_contract.Base.{
  ℕ, ◌+◌, ◌-◌, ◌≡◌, ◌≢◌, refl, sym, ap, ◌∙◌, inl, inr, Bool, true, false, [], ◌∷◌, ◌++◌, Option,
  some, String, ltb, unwrap_or, put, contains, ℤ, pos, ◌<ℤ◌, arith,
}
use ahjoorxmr_contract.Host.{
  Env, ok, panic, trap, Outcome, Outcome-cases, TokenCall, SelfIsPassive, outside_of_authorized,
  when, ⊤,
}
use ahjoorxmr_contract.Refund.Types.{Error, RefundStatus, Refund, Payment, Payments}
use ahjoorxmr_contract.Refund.Events.{World}
use ahjoorxmr_contract.Refund.Request.{
  check_cooldown, new_refund, index_refund, store_request, request_refund,
}
use ahjoorxmr_contract.Refund.Ledger.{
  books, is_pending_status, pending_amount, asked_for, open_new, Moves, one,
}
use ahjoorxmr_contract.Refund.Effects.Parts.{
  Idle, update_stats_on_request-Idle, index_refund-Idle, check_cooldown-Idle, apply_tiers-Caps,
}
use ahjoorxmr_contract.Refund.Effects.Opening.{holdings-in}
use ahjoorxmr_contract.Refund.Effects.Stages.{counted_up, requested_in, request_refund-Stages}

pub when_cooldown-Idle :
    (b : Bool) (customer cooldown : ℕ) (env : Env) (w : World)
    → Idle w (when b (check_cooldown customer cooldown) env w)
when_cooldown-Idle true customer cooldown env w = check_cooldown-Idle customer cooldown env w
when_cooldown-Idle false customer cooldown env w = (refl, refl, refl, refl, refl)

abbrev pub placed : Refund → World → World
placed r w = record w { store = record w.store { refund = put w.store.refund r.id (some r) } }

abbrev pub queued : ℕ → World → World
queued id w = record w {
  store = record w.store {
    pending_refund_queue = some (unwrap_or w.store.pending_refund_queue [] ++ (id ∷ []));
  };
}

-- A call that puts a refund in the storage and makes no token call.
abbrev pub Places : Refund → World → Outcome Error (⊤ × World) → Type 0
Places r w (ok (_, w')) =
    (w'.store.refund_counter ≡ w.store.refund_counter)
    × (w'.store.refund ≡ put w.store.refund r.id (some r))
    × (w'.calls ≡ w.calls)
Places r w (panic _) = Unit
Places r w (trap _) = Unit

pub store_request-Places :
    (r : Refund) (cooldown : ℕ) (applied : Option (ℕ × ℤ)) (white : Bool) (env : Env) (w : World)
    → Places r w (store_request r cooldown applied white env w)
unfolding store_request
store_request-Places r cooldown applied true env w =
    let indexed = index_refund-Idle r env (placed r w) in
    elim (Outcome-cases (index_refund r env (placed r w))) [
      | inl ((_, w1), k) ↦
          let idle = rw k at indexed in
          ground (arith, idle, update_stats_on_request-Idle r.merchant env w1)
      | inr (inl (x, k)) ↦ ground arith
      | inr (inr (x, k)) ↦ ground arith
    ]
store_request-Places r cooldown applied false env w =
    let indexed = index_refund-Idle r env (placed r w) in
    elim (Outcome-cases (index_refund r env (placed r w))) [
      | inl ((_, w1), k) ↦
          let idle = rw k at indexed in
          ground (arith, idle, update_stats_on_request-Idle r.merchant env (queued r.id w1))
      | inr (inl (x, k)) ↦ ground arith
      | inr (inr (x, k)) ↦ ground arith
    ]

-- A request that succeeds has taken the amount of a new refund from its customer.
abbrev Requested : ℕ → Env → World → World → Type 0
Requested customer env w w' =
    (p : Payment) × (reason : String) × (code : ℕ) × (payment_id : ℕ) × (x : ℤ) × (white : Bool)
    × (pos 0 <ℤ x)
    × (env.authorized customer ≡ true)
    × (w'.store.refund_counter ≡ some (unwrap_or w.store.refund_counter 0 + 1))
    × (w'.store.refund
        ≡ put w.store.refund (unwrap_or w.store.refund_counter 0) (
            some (
              new_refund (unwrap_or w.store.refund_counter 0) payment_id customer p x reason code
                env.timestamp white)))
    × (w'.calls ≡ TokenCall.transfer p.token customer env.current_contract_address x ∷ w.calls)

request_refund-Requested :
    (payments : Payments) (customer payment_id : ℕ) (amount : ℤ) (reason : String) (reason_code : ℕ)
    (env : Env) (w w' : World) (id : ℕ)
    → request_refund payments customer payment_id amount reason reason_code env w ≡ ok (id, w')
    → Requested customer env w w'
request_refund-Requested payments customer payment_id amount reason reason_code env w w' id h =
    let s =
      request_refund-Stages payments customer payment_id amount reason reason_code env w w' id h in
    let cooldown = unwrap_or w.store.refund_cooldown 0 in
    let w1 = s.cooled_world in
    let w2 = s.tiered_world in
    let p = s.payment in
    let white = contains p.merchant (unwrap_or w2.store.auto_approved_merchants []) in
    let c = TokenCall.transfer p.token customer env.current_contract_address s.x in
    let idle = rw s.cooled at (when_cooldown-Idle (ltb 0 cooldown) customer cooldown env w) in
    let (same, above, below) = rw s.tiered at (
      apply_tiers-Caps (unwrap_or w1.store.refund_tiers []) (env.timestamp - p.created_at) p.amount
        (unwrap_or (w1.store.refunded_amount payment_id) (pos 0)) amount env w1 s.asked_positive) in
    let (counter, refunds, calls) = rw s.stored at (
      store_request-Places (requested_in w2 env payment_id customer p s.x reason reason_code)
        cooldown s.applied white env (counted_up c w2)) in
    let number : unwrap_or w2.store.refund_counter 0 ≡ unwrap_or w.store.refund_counter 0 =
      rw same (rw idle.0 refl) in
    (
      p,
      reason,
      reason_code,
      payment_id,
      s.x,
      white,
      above,
      s.authorized,
      rw (sym number) counter,
      rw (sym number, sym (ap (λ (v : World). v.store.refund) same ∙ idle.1)) refunds,
      rw (sym (ap (λ (v : World). v.calls) same ∙ idle.2)) calls,
    )

pending_new :
    (id payment_id customer : ℕ) (p : Payment) (x : ℤ) (reason : String) (code now : ℕ)
    (white : Bool)
    → (pending_amount (new_refund id payment_id customer p x reason code now white) ≡ x)
      × (is_pending_status (new_refund id payment_id customer p x reason code now white).status
          ≡ true)
      × ((new_refund id payment_id customer p x reason code now white).status
          ≢ RefundStatus.under_appeal)
pending_new id payment_id customer p x reason code now true = (refl, refl, λ h. cc)
pending_new id payment_id customer p x reason code now false = (refl, refl, λ h. cc)

pub request_refund-Moves :
    {a : Bool} (payments : Payments) (customer payment_id : ℕ) (amount : ℤ) (reason : String)
    (reason_code : ℕ) (env : Env) (w w' : World) (id : ℕ)
    → SelfIsPassive env
    → request_refund payments customer payment_id amount reason reason_code env w ≡ ok (id, w')
    → Moves env a (books w) (books w')
request_refund-Moves payments customer payment_id amount reason reason_code env w w' id passive h =
    let (p, why, code, pid, x, white, above, auth, counter, added, calls) =
      request_refund-Requested payments customer payment_id amount reason reason_code env w w' id
        h in
    let n = unwrap_or w.store.refund_counter 0 in
    let r = new_refund n pid customer p x why code env.timestamp white in
    let (held, waits, calm) = pending_new n pid customer p x why code env.timestamp white in
    one (
      open_new r (record {
        numbered = refl;
        positive = above;
        fresh_status = calm;
        counted = ap (λ c. unwrap_or c 0) counter;
        added = added;
        arises = asked_for auth waits calls;
        funded = λ t.
            rw (calls, held)
              (holdings-in env.current_contract_address t p.token customer x w.calls
                (outside_of_authorized env customer passive auth));
      }))
