-- ===== src/Escrow/Effects/Leaving.antt =====
-- What a partial release, a refund and a release for inactivity do to the books.
use ahjoorxmr_contract.Base.{
  ℕ, ◌≡◌, refl, sym, ◌==◌, Bool, inl, inr, [], ◌∷◌, ℤ, pos, ◌-ℤ◌, ◌≤ℤ◌, ◌<ℤ◌, int_laws, arith, true,
  false, some, Option-cases, Bool-cases, eq_ℤ, eq_ℤ-cases, pos_of_ne_zero, put, true≢false,
  if◌then◌else◌,
}
use ahjoorxmr_contract.Host.{Env, when, TokenCall, ok}
use ahjoorxmr_contract.Escrow.Types.{
  EscrowStatus, Escrow, is_open_escrow_status, is_terminal_escrow_status,
}
use ahjoorxmr_contract.Escrow.Events.{World}
use ahjoorxmr_contract.Escrow.Release.{
  update_last_buyer_action, partial_release, auto_release_expired, claim_inactivity_release,
}
use ahjoorxmr_contract.Escrow.Ledger.{
  Books, books, Sanctioned, live_amount, settle, Moves, one, ◌⟶◌, release_active, release_partial,
  refund_active, refund_partial, part_active, part_again,
}
use ahjoorxmr_contract.Escrow.Ledger.Invariant.{Inv}

-- An open escrow may become any of these.
pub open-⟶-released :
    (s : EscrowStatus) → is_open_escrow_status s ≡ true → s ⟶ EscrowStatus.released
unfolding is_open_escrow_status
open-⟶-released EscrowStatus.active h = release_active
open-⟶-released EscrowStatus.partially_released h = release_partial
open-⟶-released _ h = cc

pub open-⟶-refunded :
    (s : EscrowStatus) → is_open_escrow_status s ≡ true → s ⟶ EscrowStatus.refunded
unfolding is_open_escrow_status
open-⟶-refunded EscrowStatus.active h = refund_active
open-⟶-refunded EscrowStatus.partially_released h = refund_partial
open-⟶-refunded _ h = cc

open-⟶-part :
    (s : EscrowStatus) → is_open_escrow_status s ≡ true → s ⟶ EscrowStatus.partially_released
unfolding is_open_escrow_status
open-⟶-part EscrowStatus.active h = part_active
open-⟶-part EscrowStatus.partially_released h = part_again
open-⟶-part _ h = cc

pub not-terminal-open :
    (s : EscrowStatus) → is_open_escrow_status s ≡ true → is_terminal_escrow_status s ≡ false
unfolding is_open_escrow_status is_terminal_escrow_status
not-terminal-open s h = ground arith

-- An open escrow holds something.
pub open_funded :
    {self : ℕ} (b : Books) (i : ℕ) (e : Escrow)
    → Inv self b
    → b.escrow i ≡ some e
    → is_open_escrow_status e.status ≡ true
    → pos 0 <ℤ e.amount
open_funded b i e v f h = (v.sound i e f).is_funded (not-terminal-open e.status h)

-- One payment of the whole amount, and the escrow is over.
closes :
    (env : Env) (b b' : Books) (i : ℕ) (e : Escrow) (to : ℕ) (s : EscrowStatus)
    → b.escrow i ≡ some e
    → Sanctioned env e
    → e.status ⟶ s
    → is_terminal_escrow_status s ≡ true
    → pos 0 <ℤ e.amount
    → b'.counter ≡ b.counter
    → b'.escrow ≡ put b.escrow i (some (record e { status = s }))
    → b'.calls ≡ TokenCall.transfer e.token env.current_contract_address to e.amount ∷ b.calls
    → Moves env b b'
unfolding live_amount
closes env b b' i e to s f auth edge over funded p q r = one (
    settle i e (record e { status = s })
      (TokenCall.transfer e.token env.current_contract_address to e.amount ∷ [])
      (record {
        replaces = ground arith;
        sanctioned = auth;
        same_buyer = refl;
        edge = edge;
        out = ((refl, refl, omega arith), tt);
        conserved = rw over (omega int_laws);
        funded = λ live. absurd (ground arith);
        made_calls = r;
      }))

pub auto_release_expired-Moves :
    (id : ℕ) (env : Env) (w w' : World)
    → Inv env.current_contract_address (books w)
    → auto_release_expired id env w ≡ ok (tt, w')
    → Moves env (books w) (books w')
unfolding auto_release_expired is_terminal_escrow_status
auto_release_expired-Moves id env w w' v h = elim (Option-cases (w.store.escrow id)) [
  | inl missing ↦ absurd (ground arith)
  | inr (e, f) ↦
      let opened : is_open_escrow_status e.status ≡ true = ground arith in
      closes env (books w) (books w') id e e.buyer EscrowStatus.refunded f
        (e.buyer, ground arith, inl refl) (open-⟶-refunded e.status opened) refl
        (open_funded (books w) id e v f opened) (ground arith) (ground arith) (ground arith)
]

pub claim_inactivity_release-Moves :
    (seller id : ℕ) (env : Env) (w w' : World)
    → Inv env.current_contract_address (books w)
    → claim_inactivity_release seller id env w ≡ ok (tt, w')
    → Moves env (books w) (books w')
unfolding claim_inactivity_release is_terminal_escrow_status
claim_inactivity_release-Moves seller id env w w' v h = elim (Option-cases (w.store.escrow id)) [
  | inl missing ↦ absurd (ground arith)
  | inr (e, f) ↦
      let opened : is_open_escrow_status e.status ≡ true = ground arith in
      closes env (books w) (books w') id e e.seller EscrowStatus.released f
        (seller, ground arith, ground arith) (open-⟶-released e.status opened) refl
        (open_funded (books w) id e v f opened) (ground arith) (ground arith) (ground arith)
]

-- The status after a partial release of `x`.
abbrev parted : Escrow → ℤ → Escrow
parted e x = record e {
  amount = e.amount -ℤ x;
  status =
      if eq_ℤ (e.amount -ℤ x) (pos 0)
      then EscrowStatus.released
      else EscrowStatus.partially_released;
}

-- What is left stays owed; if nothing is left, the escrow is over.
live_amount-parted : (e : Escrow) (x : ℤ) → live_amount (parted e x) ≡ e.amount -ℤ x
unfolding live_amount is_terminal_escrow_status
live_amount-parted e x = elim (eq_ℤ-cases (e.amount -ℤ x) (pos 0)) [
  | inl (t, z) ↦ rw t (sym z)
  | inr (t, z) ↦ rw t refl
]

parted_funded :
    (e : Escrow) (x : ℤ)
    → x ≤ℤ e.amount
    → is_terminal_escrow_status (parted e x).status ≡ false
    → pos 0 <ℤ (e.amount -ℤ x)
unfolding is_terminal_escrow_status
parted_funded e x within live = elim (eq_ℤ-cases (e.amount -ℤ x) (pos 0)) [
  | inl (t, z) ↦
      let over : is_terminal_escrow_status EscrowStatus.released ≡ false = rw t at live in
      absurd (true≢false over)
  | inr (t, z) ↦ pos_of_ne_zero (e.amount -ℤ x) (omega int_laws) z
]

parted-Settles :
    (env : Env) (b b' : Books) (i : ℕ) (e : Escrow) (x : ℤ)
    → b.escrow i ≡ some e
    → Sanctioned env e
    → is_open_escrow_status e.status ≡ true
    → pos 0 <ℤ x
    → x ≤ℤ e.amount
    → b'.counter ≡ b.counter
    → b'.escrow ≡ put b.escrow i (some (parted e x))
    → b'.calls ≡ TokenCall.transfer e.token env.current_contract_address e.seller x ∷ b.calls
    → Moves env b b'
parted-Settles env b b' i e x f auth opened positive within p q r = one (
    settle i e (parted e x)
      (TokenCall.transfer e.token env.current_contract_address e.seller x ∷ [])
      (record {
        replaces = ground arith;
        sanctioned = auth;
        same_buyer = refl;
        edge = edge;
        out = ((refl, refl, omega arith), tt);
        conserved = rw (live_amount-parted e x) (omega int_laws);
        funded = parted_funded e x within;
        made_calls = r;
      }))
  where
    edge : e.status ⟶ (parted e x).status
    edge = elim (eq_ℤ-cases (e.amount -ℤ x) (pos 0)) [
      | inl (t, z) ↦ rw t (open-⟶-released e.status opened)
      | inr (t, z) ↦ rw t (open-⟶-part e.status opened)
    ]

pub partial_release-Moves :
    (caller id : ℕ) (x : ℤ) (env : Env) (w w' : World)
    → Inv env.current_contract_address (books w)
    → partial_release caller id x env w ≡ ok (tt, w')
    → Moves env (books w) (books w')
unfolding partial_release
partial_release-Moves caller id x env w w' v h = elim (Option-cases (w.store.escrow id)) [
  | inl missing ↦ absurd (ground arith)
  | inr (e, f) ↦
      parted-Settles env (books w) (books w') id e x f (caller, ground arith, ground arith)
        (ground arith) (ground arith) (ground arith) (ground arith) (ground arith) (ground arith)
]

-- Recording the buyer's activity leaves the books alone.
pub touch-cases :
    (b : Bool) (e : Escrow) (env : Env) (w : World)
    → (w1 : World) × (when b (update_last_buyer_action e) env w ≡ ok (tt, w1))
      × (w1.store.escrow ≡ w.store.escrow)
      × (w1.store.escrow_counter ≡ w.store.escrow_counter)
      × (w1.calls ≡ w.calls)
unfolding update_last_buyer_action
touch-cases false e env w = (w, refl, refl, refl, refl)
touch-cases true e env w = elim (Bool-cases (e.buyer_inactivity_release_seconds == 0)) [
  | inl off ↦ (w, ground arith, refl, refl, refl)
  | inr on ↦ (
    record w {
      store = record w.store {
        last_buyer_action = put w.store.last_buyer_action e.id (some env.timestamp);
      };
    },
    ground arith,
    refl,
    refl,
    refl,
  )
]
