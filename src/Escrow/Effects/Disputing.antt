-- ===== src/Escrow/Effects/Disputing.antt =====
-- What disputes do to the books.
use ahjoorxmr_contract.Base.{
  le_of_fiftieth, ℕ, ◌*◌, ◌/◌, ◌≤◌, ◌≡◌, refl, sym, ◌∙◌, ◌⊎◌, inl, inr, Bool, List, [], ◌∷◌, ◌++◌,
  ℤ, pos, negsuc, ◌+ℤ◌, ◌-ℤ◌, ◌*ℤ◌, ◌/ℤ◌, ◌≤ℤ◌, ◌<ℤ◌, int_laws, pos-*ℤ, pos-/ℤ, arith, true, false,
  some, String, Option-cases, Bool-cases, put, unwrap_or, if◌then◌else◌, ltb_ℤ, ◌==◌, true≢false,
}
use ahjoorxmr_contract.Host.{Env, TokenCall, ok}
use ahjoorxmr_contract.Host.Tokens.{AllOut, total}
use ahjoorxmr_contract.Escrow.Types.{
  EscrowStatus, Escrow, is_open_escrow_status, is_terminal_escrow_status, is_disputed_status,
  is_partially_disputed_status,
}
use ahjoorxmr_contract.Escrow.Events.{World}
use ahjoorxmr_contract.Escrow.Disputes.{dispute_escrow, resolve_dispute}
use ahjoorxmr_contract.Escrow.Ledger.{
  Books, books, Sanctioned, live_amount, settle, Moves, one, ◌⟶◌, dispute_active, dispute_partial,
  dispute_part_active, dispute_part_partial, award_disputed, award_partial, return_disputed,
  return_partial,
}
use ahjoorxmr_contract.Escrow.Ledger.Invariant.{Inv}
use ahjoorxmr_contract.Escrow.Effects.Leaving.{touch-cases}

open-⟶-disputed : (s : EscrowStatus) → is_open_escrow_status s ≡ true → s ⟶ EscrowStatus.disputed
unfolding is_open_escrow_status
open-⟶-disputed EscrowStatus.active h = dispute_active
open-⟶-disputed EscrowStatus.partially_released h = dispute_partial
open-⟶-disputed _ h = cc

open-⟶-part_disputed :
    (s : EscrowStatus) → is_open_escrow_status s ≡ true → s ⟶ EscrowStatus.partially_disputed
unfolding is_open_escrow_status
open-⟶-part_disputed EscrowStatus.active h = dispute_part_active
open-⟶-part_disputed EscrowStatus.partially_released h = dispute_part_partial
open-⟶-part_disputed _ h = cc

-- The escrow with `x` in dispute and the rest released.
abbrev pub contested : Escrow → ℤ → Escrow
contested e x = record e {
  amount = x;
  status =
      if ltb_ℤ (pos 0) (e.amount -ℤ x)
      then EscrowStatus.partially_disputed
      else EscrowStatus.disputed;
}

-- The part that is not in dispute goes to the seller.
abbrev pub undisputed : ℕ → Escrow → ℤ → List TokenCall
undisputed self e x =
    if ltb_ℤ (pos 0) (e.amount -ℤ x)
    then TokenCall.transfer e.token self e.seller (e.amount -ℤ x) ∷ []
    else []

pub zero_+ℤ : (x : ℤ) → pos 0 +ℤ x ≡ x
zero_+ℤ x = omega int_laws

pub nothing_left : (a x : ℤ) → x ≤ℤ a → ltb_ℤ (pos 0) (a -ℤ x) ≡ false → x ≡ a
unfolding ◌-ℤ◌
nothing_left a x h t = ground arith

contested-Settles :
    (env : Env) (b b' : Books) (i : ℕ) (e : Escrow) (x : ℤ)
    → b.escrow i ≡ some e
    → Sanctioned env e
    → is_open_escrow_status e.status ≡ true
    → pos 0 <ℤ x
    → x ≤ℤ e.amount
    → b'.counter ≡ b.counter
    → b'.escrow ≡ put b.escrow i (some (contested e x))
    → b'.calls ≡ undisputed env.current_contract_address e x ++ b.calls
    → Moves env b b'
unfolding live_amount is_terminal_escrow_status
contested-Settles env b b' i e x f auth opened positive within p q r =
    elim (Bool-cases (ltb_ℤ (pos 0) (e.amount -ℤ x))) [
      | inl part ↦ one (
          settle i e (contested e x) (undisputed env.current_contract_address e x) (record {
            replaces = ground arith;
            sanctioned = auth;
            same_buyer = refl;
            edge = rw part (open-⟶-part_disputed e.status opened);
            out = rw part ((refl, refl, omega int_laws), tt);
            conserved = rw part (omega int_laws);
            funded = λ _. positive;
            made_calls = r;
          }))
      | inr whole ↦
          let all : x ≡ e.amount = nothing_left e.amount x within whole in
          one (
            settle i e (contested e x) (undisputed env.current_contract_address e x) (record {
              replaces = ground arith;
              sanctioned = auth;
              same_buyer = refl;
              edge = rw whole (open-⟶-disputed e.status opened);
              out = rw whole tt;
              conserved = rw whole (zero_+ℤ x ∙ all);
              funded = λ _. positive;
              made_calls = r;
            }))
    ]

pub dispute_escrow-Moves :
    (caller id : ℕ) (reason : String) (x : ℤ) (env : Env) (w w' : World)
    → dispute_escrow caller id reason x env w ≡ ok (tt, w')
    → Moves env (books w) (books w')
unfolding dispute_escrow
dispute_escrow-Moves caller id reason x env w w' h = elim (Option-cases (w.store.escrow id)) [
  | inl missing ↦ absurd (ground arith)
  | inr (e, f) ↦
      let (w1, t, p, q, r) = touch-cases (caller == e.buyer) e env w in
      contested-Settles env (books w) (books w') id e x f (caller, ground arith, ground arith)
        (ground arith) (ground arith) (ground arith) (ground arith) (ground arith) (ground arith)
]

two_percent : (n bps : ℕ) → bps ≤ 200 → n * bps / 10000 * 50 ≤ n
two_percent n bps h = grind arith

-- A fee of at most 200 basis points takes no more than a fiftieth.
pub protocol_fee_bounds :
    (a : ℤ) (bps : ℕ)
    → pos 0 ≤ℤ a
    → bps ≤ 200
    → (pos 0 ≤ℤ (a *ℤ pos bps) /ℤ 10000) × ((a *ℤ pos bps) /ℤ 10000 *ℤ pos 50 ≤ℤ a)
protocol_fee_bounds (pos n) bps h le =
    rw (pos-*ℤ, pos-/ℤ, pos-*ℤ) (omega arith, omega (arith, two_percent n bps le))
protocol_fee_bounds (negsuc n) bps h le = absurd (omega arith)

-- The fee on an escrow.
abbrev pub fee_on : ℤ → ℕ → ℤ
fee_on a bps = (a *ℤ pos bps) /ℤ 10000

-- The payments of a resolution, newest first.
abbrev pub awards : ℕ → Escrow → ℤ → ℕ → ℕ → List TokenCall
awards self e fee fee_recipient winner =
    TokenCall.transfer e.token self winner (e.amount -ℤ fee)
    ∷ (if ltb_ℤ (pos 0) fee then TokenCall.transfer e.token self fee_recipient fee ∷ [] else [])

disputed-⟶ :
    (s : EscrowStatus) (to_seller : Bool)
    → (is_disputed_status s ≡ true) ⊎ (is_partially_disputed_status s ≡ true)
    → s ⟶ (if to_seller then EscrowStatus.released else EscrowStatus.refunded)
unfolding is_disputed_status is_partially_disputed_status
disputed-⟶ EscrowStatus.disputed true h = award_disputed
disputed-⟶ EscrowStatus.disputed false h = return_disputed
disputed-⟶ EscrowStatus.partially_disputed true h = award_partial
disputed-⟶ EscrowStatus.partially_disputed false h = return_partial
disputed-⟶ _ to_seller h = absurd (ground arith)

pub awards-Out :
    (self : ℕ) (e : Escrow) (fee : ℤ) (fee_recipient winner : ℕ)
    → pos 0 ≤ℤ fee
    → fee ≤ℤ e.amount
    → AllOut self e.token (awards self e fee fee_recipient winner)
      × (total (awards self e fee fee_recipient winner) ≡ e.amount)
awards-Out self e fee fee_recipient winner h k = elim (Bool-cases (ltb_ℤ (pos 0) fee)) [
  | inl some_fee ↦
      rw some_fee (((refl, refl, omega int_laws), ((refl, refl, h), tt)), omega int_laws)
  | inr no_fee ↦
      let zero_fee : fee ≡ pos 0 = ground arith in
      rw no_fee (((refl, refl, omega int_laws), tt), rw zero_fee (omega int_laws))
]

over :
    (to_seller : Bool)
    → is_terminal_escrow_status (if to_seller then EscrowStatus.released else EscrowStatus.refunded)
      ≡ true
unfolding is_terminal_escrow_status
over true = refl
over false = refl

resolved-Moves :
    (env : Env) (b b' : Books) (i : ℕ) (e : Escrow) (to_seller : Bool) (fee : ℤ)
    (fee_recipient winner : ℕ)
    → b.escrow i ≡ some e
    → Sanctioned env e
    → (is_disputed_status e.status ≡ true) ⊎ (is_partially_disputed_status e.status ≡ true)
    → pos 0 ≤ℤ fee
    → fee ≤ℤ e.amount
    → b'.counter ≡ b.counter
    → b'.escrow
      ≡ put b.escrow i (
          some (record e {
            status = if to_seller then EscrowStatus.released else EscrowStatus.refunded;
          }))
    → b'.calls ≡ awards env.current_contract_address e fee fee_recipient winner ++ b.calls
    → Moves env b b'
unfolding live_amount
resolved-Moves env b b' i e to_seller fee fee_recipient winner f auth disputed h k p q r =
    let (out, sum) = awards-Out env.current_contract_address e fee fee_recipient winner h k in
    one (
      settle i e
        (record e { status = if to_seller then EscrowStatus.released else EscrowStatus.refunded })
        (awards env.current_contract_address e fee fee_recipient winner)
        (record {
          replaces = ground arith;
          sanctioned = auth;
          same_buyer = refl;
          edge = disputed-⟶ e.status to_seller disputed;
          out = out;
          conserved = rw (over to_seller, sum) (omega int_laws);
          funded = λ live. absurd (true≢false (sym (over to_seller) ∙ live));
          made_calls = r;
        }))

pub disputed_funded :
    {self : ℕ} (b : Books) (i : ℕ) (e : Escrow)
    → Inv self b
    → b.escrow i ≡ some e
    → (is_disputed_status e.status ≡ true) ⊎ (is_partially_disputed_status e.status ≡ true)
    → pos 0 <ℤ e.amount
disputed_funded b i e v f h = (v.sound i e f).is_funded (live e.status h)
  where
    live :
        (s : EscrowStatus)
        → (is_disputed_status s ≡ true) ⊎ (is_partially_disputed_status s ≡ true)
        → is_terminal_escrow_status s ≡ false
    live s h =
        unfold is_disputed_status is_partially_disputed_status is_terminal_escrow_status in
        (ground arith)

pub resolve_dispute-Moves :
    (arbiter id : ℕ) (to_seller : Bool) (env : Env) (w w' : World)
    → Inv env.current_contract_address (books w)
    → unwrap_or w.store.protocol_fee_bps 0 ≤ 200
    → resolve_dispute arbiter id to_seller env w ≡ ok (tt, w')
    → Moves env (books w) (books w')
unfolding resolve_dispute
resolve_dispute-Moves arbiter id to_seller env w w' v bounded h =
    elim (Option-cases (w.store.escrow id)) [
      | inl missing ↦ absurd (ground arith)
      | inr (e, f) ↦
          let bps = unwrap_or w.store.protocol_fee_bps 0 in
          let disputed : (is_disputed_status e.status ≡ true)
              ⊎ (is_partially_disputed_status e.status ≡ true) =
            ground arith in
          let funded = disputed_funded (books w) id e v f disputed in
          let (nonneg, small) = protocol_fee_bounds e.amount bps (omega arith) bounded in
          resolved-Moves env (books w) (books w') id e to_seller (fee_on e.amount bps)
            (unwrap_or w.store.fee_recipient 0) (if to_seller then e.seller else e.buyer) f
            (arbiter, ground arith, ground arith) disputed nonneg
            (le_of_fiftieth (fee_on e.amount bps) e.amount nonneg small) (ground arith)
            (ground arith) (ground arith)
    ]
