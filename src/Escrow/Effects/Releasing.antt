-- ===== src/Escrow/Effects/Releasing.antt =====
-- What `release_escrow` and the renewal after it do to the books.
use ahjoorxmr_contract.Base.{
  ℕ, ◌+◌, ◌-◌, ◌≡◌, refl, ◌∙◌, ◌==◌, inl, inr, List, ◌++◌, pos, ◌<ℤ◌, int_laws, arith, true, some,
  Option-cases, Bool-cases, put, put_self, unwrap_or, ap, true≢false, if◌then◌else◌,
}
use ahjoorxmr_contract.Host.{Env, TokenCall, ok, Outcome-cases}
use ahjoorxmr_contract.Escrow.Types.{
  EscrowStatus, Escrow, Store, is_open_escrow_status, is_terminal_escrow_status,
}
use ahjoorxmr_contract.Escrow.Events.{World}
use ahjoorxmr_contract.Escrow.Create.{next_escrow_id}
use ahjoorxmr_contract.Escrow.Release.{pay_out, renew, renews, try_auto_renew, release_escrow}
use ahjoorxmr_contract.Escrow.Ledger.{
  books, Sanctioned, live_amount, Opens, settle, renew_old, Moves, stay, one, both, bps_total,
  first_address,
}
use ahjoorxmr_contract.Escrow.Ledger.Invariant.{Inv}
use ahjoorxmr_contract.Host.Payouts.{Pays}
use ahjoorxmr_contract.Escrow.Effects.Shares.{pay_out-Pays}
use ahjoorxmr_contract.Escrow.Effects.Leaving.{open-⟶-released, open_funded, touch-cases}

renew-Opens :
    (id : ℕ) (source : Escrow) (env : Env) (w w' : World)
    → pos 0 <ℤ source.amount
    → bps_total source.sellers ≡ 10000
    → first_address source.sellers ≡ some source.seller
    → renew id source env w ≡ ok (tt, w')
    → (e : Escrow) × (c : TokenCall) × (e.buyer ≡ source.buyer) × Opens env (books w) (books w') e c
unfolding renew next_escrow_id
renew-Opens id source env w w' funded allocated primary h = (
  record source {
    id = (books w).counter;
    status = EscrowStatus.active;
    created_at = env.timestamp;
    deadline = env.timestamp + (source.deadline - source.created_at);
    renewals_remaining = if source.renewal_count == 0 then 0 else source.renewals_remaining - 1;
  },
  TokenCall.transfer_from source.token env.current_contract_address source.buyer
      env.current_contract_address source.amount,
  refl,
  ground arith,
)

-- A renewal opens a new escrow of the same buyer, or does nothing.
try_auto_renew-Moves :
    (id : ℕ) (source old : Escrow) (env : Env) (w w' : World)
    → w.store.escrow id ≡ some old
    → source.buyer ≡ old.buyer
    → pos 0 <ℤ source.amount
    → bps_total source.sellers ≡ 10000
    → first_address source.sellers ≡ some source.seller
    → try_auto_renew id source env w ≡ ok (tt, w')
    → Moves env (books w) (books w')
unfolding try_auto_renew
try_auto_renew-Moves id source old env w w' f same funded allocated primary h =
    elim (Bool-cases (renews source)) [
      | inl again ↦
          let (e, c, buyer, o) =
            renew-Opens id source env w w' funded allocated primary (ground arith) in
          one (renew_old id old e c f (buyer ∙ same) o)
      | inr stop ↦ stay (ground arith) (ground arith) (ground arith)
    ]

-- The escrow paid out in full and marked as released.
released-Moves :
    (id : ℕ) (e : Escrow) (paid : List TokenCall) (env : Env) (w w1 w2 m : World)
    → Inv env.current_contract_address (books w)
    → w.store.escrow id ≡ some e
    → Sanctioned env e
    → is_open_escrow_status e.status ≡ true
    → w1.store.escrow ≡ w.store.escrow
    → w1.store.escrow_counter ≡ w.store.escrow_counter
    → w1.calls ≡ w.calls
    → Pays env w1 w2 e.token e.amount paid
    → m.store.escrow ≡ put w2.store.escrow id (some (record e { status = EscrowStatus.released }))
    → m.store.escrow_counter ≡ w2.store.escrow_counter
    → m.calls ≡ w2.calls
    → Moves env (books w) (books m)
unfolding live_amount is_terminal_escrow_status
released-Moves id e paid env w w1 w2 m v f auth opened p q r pays x y z = one (
    settle id e (record e { status = EscrowStatus.released }) paid
      (record {
        replaces = record {
          found = f;
          terms = ground arith;
          counter_kept =
              ap (λ c. unwrap_or c 0)
                (y ∙ ap (λ (s : Store). s.escrow_counter) pays.same_store ∙ q);
          replaced =
              x
              ∙ ap (λ g. put g id (some (record e { status = EscrowStatus.released })))
                  (ap (λ (s : Store). s.escrow) pays.same_store ∙ p);
        };
        sanctioned = auth;
        same_buyer = refl;
        edge = open-⟶-released e.status opened;
        out = pays.all_out;
        conserved = rw pays.paid_total (omega int_laws);
        funded = λ live. absurd (true≢false live);
        made_calls = z ∙ pays.paid_calls ∙ ap (λ cs. paid ++ cs) r;
      }))

pub release_escrow-Moves :
    (caller id : ℕ) (env : Env) (w w' : World)
    → Inv env.current_contract_address (books w)
    → release_escrow caller id env w ≡ ok (tt, w')
    → Moves env (books w) (books w')
unfolding release_escrow
release_escrow-Moves caller id env w w' v h = elim (Option-cases (w.store.escrow id)) [
  | inl missing ↦ absurd (ground arith)
  | inr (e, f) ↦
      let (w1, t, p, q, r) = touch-cases (caller == e.buyer) e env w in
      let opened : is_open_escrow_status e.status ≡ true = ground arith in
      let funded = open_funded (books w) id e v f opened in
      let s = v.sound id e f in
      elim (Outcome-cases (pay_out id e env w1)) [
        | inl ((_, w2), k) ↦
            let (paid, pays) = pay_out-Pays id e env w1 w2 s.is_allocated (omega arith) k in
            let over = record e { status = EscrowStatus.released } in
            let m : World = record w2 {
              store = record w2.store { escrow = put w2.store.escrow id (some over) };
            } in
            both
              (released-Moves id e paid env w w1 w2 m v f (caller, ground arith, ground arith)
                opened p q r pays refl refl refl)
              (try_auto_renew-Moves id e over env m w' (put_self w2.store.escrow id (some over))
                refl funded s.is_allocated s.has_primary (ground arith))
        | inr (inl (x, k)) ↦ absurd (ground arith)
        | inr (inr (x, k)) ↦ absurd (ground arith)
      ]
]
