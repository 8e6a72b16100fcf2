-- ===== src/Escrow/Settlement.antt =====
-- A dispute from the call that raises it to its resolution: `dispute_escrow`, then `resolve_dispute`
-- of contracts/ahjoor-escrow/src/lib.rs.
use ahjoorxmr_contract.Base.{
  le_of_fiftieth, ℕ, ◌≤◌, ◌≡◌, refl, sym, ap, ◌∙◌, inl, inr, Bool, List, ◌++◌, some, String,
  Option-cases, Bool-cases, arith, ℤ, pos, ◌+ℤ◌, ◌-ℤ◌, ◌*ℤ◌, ◌≤ℤ◌, ltb_ℤ, int_laws, unwrap_or,
  if◌then◌else◌, ◌==◌, subst,
}
use mathlib.Core.List.{append_assoc}
use ahjoorxmr_contract.Host.{SelfIsPassive, Env, ok, TokenCall}
use ahjoorxmr_contract.Host.Tokens.{AllOut, total, total-append, AllOut-append}
use ahjoorxmr_contract.Escrow.Types.{Escrow, max_protocol_fee_bps}
use ahjoorxmr_contract.Escrow.Events.{World}
use ahjoorxmr_contract.Escrow.Disputes.{dispute_escrow, resolve_dispute}
use ahjoorxmr_contract.Escrow.Ledger.{books}
use ahjoorxmr_contract.Escrow.Ledger.Invariant.{Inv, Moves-Inv}
use ahjoorxmr_contract.Escrow.Effects.Leaving.{touch-cases}
use ahjoorxmr_contract.Escrow.Effects.Disputing.{
  contested, undisputed, nothing_left, awards, awards-Out, dispute_escrow-Moves,
}
use ahjoorxmr_contract.Escrow.Payouts.{Resolves, resolve_dispute-Resolves}

-- A dispute over `x` of an open escrow.
pub record Raises (id : ℕ) (x : ℤ) (env : Env) (w w' : World) (e : Escrow) : Type 0 where
  pub found : w.store.escrow id ≡ some e
  pub within : x ≤ℤ e.amount
  pub stored : w'.store.escrow id ≡ some (contested e x)
  pub made_calls : w'.calls ≡ undisputed env.current_contract_address e x ++ w.calls

dispute_escrow-Raises :
    (caller id : ℕ) (reason : String) (x : ℤ) (env : Env) (w w' : World)
    → dispute_escrow caller id reason x env w ≡ ok (tt, w')
    → (e : Escrow) × Raises id x env w w' e
unfolding dispute_escrow
dispute_escrow-Raises caller id reason x env w w' h = elim (Option-cases (w.store.escrow id)) [
  | inl missing ↦ absurd (ground arith)
  | inr (e, f) ↦
      let (w1, t, p, q, r) = touch-cases (caller == e.buyer) e env w in
      (
        e,
        record {
          found = f;
          within = ground arith;
          stored = ground arith;
          made_calls = ground arith;
        },
      )
]

undisputed-Out :
    (self : ℕ) (e : Escrow) (x : ℤ)
    → x ≤ℤ e.amount
    → AllOut self e.token (undisputed self e x) × (x +ℤ total (undisputed self e x) ≡ e.amount)
undisputed-Out self e x within = elim (Bool-cases (ltb_ℤ (pos 0) (e.amount -ℤ x))) [
  | inl part ↦ rw part (((refl, refl, omega int_laws), tt), omega int_laws)
  | inr whole ↦
      let all : x ≡ e.amount = nothing_left e.amount x within whole in
      rw whole (tt, rw all (omega int_laws))
]

-- What is paid out from the dispute over `x` to its end, the last payment first: the award to the
-- winner and the fee before it, of the disputed part, and the part that is not in dispute.
pub record SettlesDispute (arbiter id : ℕ) (x : ℤ) (to_seller : Bool) (self fee_recipient : ℕ)
    (w w' : World) (e : Escrow) (fee : ℤ) (paid : List TokenCall) : Type 0 where
  pub found : w.store.escrow id ≡ some e
  pub decided_by : arbiter ≡ e.arbiter
  pub fee_nonneg : pos 0 ≤ℤ fee
  pub fee_at_most : fee *ℤ pos 50 ≤ℤ x
  pub paid_each :
      paid
      ≡ awards self (contested e x) fee fee_recipient (if to_seller then e.seller else e.buyer)
        ++ undisputed self e x
  pub all_out : AllOut self e.token paid
  pub paid_total : total paid ≡ e.amount
  pub made_calls : w'.calls ≡ paid ++ w.calls

settles :
    (arbiter id : ℕ) (x : ℤ) (to_seller : Bool) (env later : Env) (w w1 w' : World) (e e1 : Escrow)
    (fee : ℤ)
    → later.current_contract_address ≡ env.current_contract_address
    → Raises id x env w w1 e
    → Resolves arbiter id to_seller later w1 w' e1 fee
    → (paid : List TokenCall) × SettlesDispute arbiter id x to_seller env.current_contract_address
        (unwrap_or w1.store.fee_recipient 0)
        w
        w'
        e
        fee
        paid
settles arbiter id x to_seller env later w w1 w' e e1 fee same r s =
    let self = env.current_contract_address in
    let at : e1 ≡ contested e x = cc (s.found, r.stored) in
    let fee_recipient = unwrap_or w1.store.fee_recipient 0 in
    let award_of : Escrow → List TokenCall =
      λ y. awards self y fee fee_recipient (if to_seller then y.seller else y.buyer) in
    let last = award_of e1 in
    let (rest_out, rest) = undisputed-Out self e x r.within in
    let (out, sum) =
      awards-Out self e1 fee fee_recipient (if to_seller then e1.seller else e1.buyer) s.fee_nonneg
        (le_of_fiftieth fee e1.amount s.fee_nonneg s.fee_at_most) in
    (
      last ++ undisputed self e x,
      record {
        found = r.found;
        decided_by = s.decided_by ∙ ap (λ (y : Escrow). y.arbiter) at;
        fee_nonneg = s.fee_nonneg;
        fee_at_most = subst (λ (y : Escrow). fee *ℤ pos 50 ≤ℤ y.amount) at s.fee_at_most;
        paid_each = ap (λ (y : Escrow). award_of y ++ undisputed self e x) at;
        all_out =
            AllOut-append self e.token last (undisputed self e x)
              (subst (λ (t : ℕ). AllOut self t last) (ap (λ (y : Escrow). y.token) at) out)
              rest_out;
        paid_total =
            total-append last (undisputed self e x)
            ∙ ap (λ z. z +ℤ total (undisputed self e x)) (sum ∙ ap (λ (y : Escrow). y.amount) at)
            ∙ rest;
        made_calls =
            s.made_calls
            ∙ ap
                (λ a.
                  awards a e1 fee fee_recipient (if to_seller then e1.seller else e1.buyer)
                  ++ w1.calls)
                same
            ∙ ap (λ cs. last ++ cs) r.made_calls
            ∙ sym (append_assoc last (undisputed self e x) w.calls);
      },
    )

-- Where a dispute over `x` of an escrow's amount is raised and the next call resolves it, both at the
-- contract's address, which has not authorised the first, from books that satisfy their invariant
-- and with a fee of at most 200 basis points: the token calls of both are, in this order, a transfer
-- to the seller of what is not in dispute (if that is positive), one of a fee between nothing and a
-- fiftieth of `x` to the fee's recipient (if the fee is positive), and one of the rest of `x` to the
-- winner, the seller or the buyer as decided. They are out of the contract, in the escrow's token,
-- and add up to exactly the amount of the escrow before the dispute; the arbiter is the one that the
-- escrow had then.
pub dispute-SettlesDispute :
    (caller arbiter id : ℕ) (reason : String) (x : ℤ) (to_seller : Bool) (env later : Env)
    (w w1 w' : World)
    → SelfIsPassive env
    → later.current_contract_address ≡ env.current_contract_address
    → Inv env.current_contract_address (books w)
    → unwrap_or w1.store.protocol_fee_bps 0 ≤ max_protocol_fee_bps
    → dispute_escrow caller id reason x env w ≡ ok (tt, w1)
    → resolve_dispute arbiter id to_seller later w1 ≡ ok (tt, w')
    → (e : Escrow) × (fee : ℤ) × (paid : List TokenCall) × SettlesDispute arbiter id x to_seller
        env.current_contract_address
        (unwrap_or w1.store.fee_recipient 0)
        w
        w'
        e
        fee
        paid
dispute-SettlesDispute caller arbiter id reason x to_seller env later w w1 w' passive same v bounded
      h k =
    let v1 = Moves-Inv passive v (dispute_escrow-Moves caller id reason x env w w1 h) in
    let (e, r) = dispute_escrow-Raises caller id reason x env w w1 h in
    let (e1, fee, s) =
      resolve_dispute-Resolves arbiter id to_seller later w1 w'
        (subst (λ (a : ℕ). Inv a (books w1)) (sym same) v1) bounded k in
    let (paid, settled) = settles arbiter id x to_seller env later w w1 w' e e1 fee same r s in
    (e, fee, paid, settled)
