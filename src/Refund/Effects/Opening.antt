-- ===== src/Refund/Effects/Opening.antt =====
-- What new refunds do to the books of the refund contract.
use ahjoorxmr_contract.Base.{
  ℕ, ◌+◌, ◌≡◌, ◌≢◌, refl, inl, inr, Bool, true, false, List, ◌∷◌, Option, none, some, if◌then◌else◌,
  ◌==◌, unwrap_or, put, Option-cases, Bool-cases, ℤ, pos, ◌+ℤ◌, ◌≤ℤ◌, ◌<ℤ◌, int_laws, arith,
}
use ahjoorxmr_contract.Host.{
  Env, ok, Outcome-cases, TokenCall, SelfIsPassive, outside_of_authorized,
}
use ahjoorxmr_contract.Host.Tokens.{holdings}
use ahjoorxmr_contract.Refund.Types.{RefundStatus, Refund, Payments}
use ahjoorxmr_contract.Refund.Events.{World}
use ahjoorxmr_contract.Refund.Records.{update_stats_on_request, append_index}
use ahjoorxmr_contract.Refund.Process.{merchant_record, merchant_refund, register_escrow_refund}
use ahjoorxmr_contract.Refund.Ledger.{
  Books, books, Arises, given, for_escrow, Opens, open_new, Moves, one,
}
use ahjoorxmr_contract.Refund.Effects.Parts.{
  update_stats_on_request-Idle, update_stats_on_process-Idle,
}

==-away : (a b : ℕ) → a ≢ b → (a == b) ≡ false
==-away a b h = ground arith

==-here : (a : ℕ) → (a == a) ≡ true
==-here a = ground arith

-- A transfer from somebody else takes nothing from the contract.
holdings-others :
    (self t token from to : ℕ) (x : ℤ) (cs : List TokenCall)
    → from ≢ self
    → pos 0 <ℤ x
    → holdings self t cs ≤ℤ holdings self t (TokenCall.transfer token from to x ∷ cs)
unfolding holdings
holdings-others self t token from to x cs away h = elim (Bool-cases (token == t)) [
  | inl hit ↦ elim (Bool-cases (to == self)) [
    | inl back ↦ rw (hit, back, ==-away from self away) (omega (int_laws, h))
    | inr gone ↦ rw (hit, gone, ==-away from self away) (omega int_laws)
  ]
  | inr miss ↦ rw miss (omega int_laws)
]

-- A transfer from somebody else to the contract brings in its amount.
pub holdings-in :
    (self t token from : ℕ) (x : ℤ) (cs : List TokenCall)
    → from ≢ self
    → holdings self t cs +ℤ (if token == t then x else pos 0)
      ≤ℤ holdings self t (TokenCall.transfer token from self x ∷ cs)
unfolding holdings
holdings-in self t token from x cs away = elim (Bool-cases (token == t)) [
  | inl hit ↦ rw (hit, ==-here self, ==-away from self away) (omega int_laws)
  | inr miss ↦ rw miss (omega int_laws)
]

no_claim : (b : Bool) → (if b then pos 0 else pos 0) ≡ pos 0
no_claim true = refl
no_claim false = refl

-- A refund that is over when it is stored, with no call or one transfer of others' tokens.
Opens-over :
    (env : Env) (b b' : Books) (r : Refund)
    → r.id ≡ b.counter
    → pos 0 <ℤ r.amount
    → r.status ≡ RefundStatus.processed
    → b'.counter ≡ b.counter + 1
    → b'.refund ≡ put b.refund b.counter (some r)
    → Arises env b b' r
    → ((t : ℕ)
        → holdings env.current_contract_address t b.calls
          ≤ℤ holdings env.current_contract_address t b'.calls)
    → Opens env b b' r
Opens-over env b b' r n p s c a from f = record {
  numbered = n;
  positive = p;
  fresh_status = λ e. absurd (cc (e, s));
  counted = c;
  added = a;
  arises = from;
  funded = λ t. rw s (rw (no_claim (r.token == t)) (omega (int_laws, f t)));
}

pub register_escrow_refund-Moves :
    {a : Bool} (escrow_id buyer : ℕ) (amount : ℤ) (token : ℕ) (env : Env) (w w' : World) (id : ℕ)
    → register_escrow_refund escrow_id buyer amount token env w ≡ ok (id, w')
    → Moves env a (books w) (books w')
unfolding register_escrow_refund
register_escrow_refund-Moves escrow_id buyer amount token env w w' id h =
    let r : Refund = record {
      id = unwrap_or w.store.refund_counter 0;
      payment_id = 0;
      customer = buyer;
      merchant = buyer;
      amount = amount;
      token = token;
      status = RefundStatus.processed;
      reason = "escrow_refund";
      reason_code = 4;
      requested_at = env.timestamp;
      approved_at = some env.timestamp;
      processed_at = some env.timestamp;
      rejected_at = none;
      auto_approved_source = none;
      escrow_id = some escrow_id;
      fee_amount = none;
    } in
    elim (Option-cases w.store.escrow_contract_address) [
      | inl unset ↦ absurd (ground arith)
      | inr (address, g) ↦
          let calls : w'.calls ≡ w.calls = ground arith in
          one (
            open_new r (
              Opens-over env (books w) (books w') r refl (ground arith) refl (ground arith)
                (ground arith) (for_escrow refl refl calls) (λ t. rw calls (omega int_laws))))
    ]

pub merchant_refund-Moves :
    {a : Bool} (payments : Payments) (merchant payment_id : ℕ) (amount : ℤ)
    (reason_code stored_code : ℕ) (stored_rejection : Option ℕ) (env : Env) (w w' : World) (id : ℕ)
    → SelfIsPassive env
    → merchant_refund payments merchant payment_id amount reason_code stored_code stored_rejection
        env w
      ≡ ok (id, w')
    → Moves env a (books w) (books w')
unfolding merchant_refund
merchant_refund-Moves payments merchant payment_id amount reason_code stored_code stored_rejection
      env w w' id passive h =
    elim (Option-cases w.store.payment_contract_address) [
      | inl unset ↦ absurd (ground arith)
      | inr (address, g) ↦ elim (Option-cases (payments address payment_id)) [
        | inl unknown ↦ absurd (ground arith)
        | inr (p, q) ↦
            let n = unwrap_or w.store.refund_counter 0 in
            let c = TokenCall.transfer p.token merchant p.customer amount in
            let r =
              merchant_record n payment_id merchant p amount env.timestamp stored_code
                stored_rejection in
            let sum = unwrap_or (w.store.refunded_amount payment_id) (pos 0) +ℤ amount in
            let w1 : World = record w {
              store = record w.store {
                refund_counter = some (n + 1);
                refund = put w.store.refund n (some r);
                customer_refunds =
                    put w.store.customer_refunds p.customer
                      (append_index (w.store.customer_refunds p.customer) n);
                merchant_refunds =
                    put w.store.merchant_refunds merchant
                      (append_index (w.store.merchant_refunds merchant) n);
                payment_refunds =
                    put w.store.payment_refunds payment_id
                      (append_index (w.store.payment_refunds payment_id) n);
                refunded_amount = put w.store.refunded_amount payment_id (some sum);
              };
              calls = c ∷ w.calls;
            } in
            let auth : env.authorized merchant ≡ true = ground arith in
            let positive : pos 0 <ℤ amount = ground arith in
            let idle = update_stats_on_request-Idle merchant env w1 in
            elim (Outcome-cases (update_stats_on_request merchant env w1)) [
              | inl ((_, w2), k) ↦
                  let first = rw k at idle in
                  let second = update_stats_on_process-Idle merchant amount env w2 in
                  let calls : w'.calls ≡ c ∷ w.calls = ground (arith, first, second) in
                  one (
                    open_new r (
                      Opens-over env (books w) (books w') r refl positive refl
                        (ground (arith, first, second)) (ground (arith, first, second))
                        (given auth refl calls)
                        (λ t. rw calls (
                          holdings-others env.current_contract_address t p.token merchant p.customer
                            amount w.calls (outside_of_authorized env merchant passive auth)
                            positive))))
              | inr (inl (x, k)) ↦ absurd (ground arith)
              | inr (inr (x, k)) ↦ absurd (ground arith)
            ]
      ]
    ]
