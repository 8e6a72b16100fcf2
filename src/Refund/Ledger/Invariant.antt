-- ===== src/Refund/Ledger/Invariant.antt =====
-- The invariant of the books of the refund contract under the moves of its ledger.
use ahjoorxmr_contract.Base.{
  ℕ, ◌≤◌, ◌<◌, ◌≡◌, ◌≢◌, ◌∙◌, inl, inr, Bool, false, Option, none, some, List, ◌==◌, if◌then◌else◌,
  put_self, put-all, Bool-cases, ℤ, pos, ◌+ℤ◌, ◌≤ℤ◌, ◌<ℤ◌, int_laws, arith, sum_below,
  sum_below-put, sum_below-put_ge,
}
use native.Mathlib.Numerals.{add-one}
use ahjoorxmr_contract.Host.{Env, TokenCall}
use ahjoorxmr_contract.Host.Tokens.{total, holdings, holdings-out}
use ahjoorxmr_contract.Refund.Types.{RefundStatus, Refund}
use ahjoorxmr_contract.Refund.Ledger.{
  Books, SameTerms, pending_amount, Replaces, Settles, Opens, Move, settle, open_new, appeal,
  resolve, Moves, stay, one, both, ◌⟶◌, approve, reject, cancel, process, auto_approve,
}

-- What an entry of the storage keeps pending in the token `t`.
unfoldable pub claim : ℕ → Option Refund → ℤ
claim t none = pos 0
claim t (some r) = if r.token == t then pending_amount r else pos 0

-- All that is pending in a token.
unfoldable pub pending : ℕ → Books → ℤ
pending t b = sum_below (claim t) b.counter b.refund

-- A stored refund stands under its number and is of a positive amount.
pub record IsSound (i : ℕ) (r : Refund) : Type 0 where
  pub id_matches : r.id ≡ i
  pub positive : pos 0 <ℤ r.amount

pub record Inv (b : Books) : Type 0 where
  pub fresh : (i : ℕ) → b.counter ≤ i → b.refund i ≡ none
  pub sound : (i : ℕ) (r : Refund) → b.refund i ≡ some r → IsSound i r

-- Without appeals: what is pending is covered by what came in, and no refund is under appeal.
pub record Covered (self : ℕ) (b : Books) : Type 0 where
  pub covered : (t : ℕ) → pending t b ≤ℤ holdings self t b.calls
  pub unappealed : (i : ℕ) (r : Refund) → b.refund i ≡ some r → r.status ≢ RefundStatus.under_appeal

pub lt_counter : (b : Books) (i : ℕ) (r : Refund) → Inv b → b.refund i ≡ some r → i < b.counter
lt_counter b i r v f = grind (arith, v.fresh i)

IsSound-kept : (i : ℕ) (r r' : Refund) → SameTerms r r' → IsSound i r → IsSound i r'
IsSound-kept i r r' same s = record {
  id_matches = same.same_id ∙ s.id_matches;
  positive = rw same.same_amount s.positive;
}

Replaces-Inv : (b b' : Books) (i : ℕ) (r r' : Refund) → Inv b → Replaces b b' i r r' → Inv b'
Replaces-Inv b b' i r r' v p = record {
  fresh = λ j h. rw p.replaced (
      ground
        (arith, lt_counter b i r v p.found, v.fresh j (rw p.counter_kept at h), p.counter_kept));
  sound = λ j x f.
      put-all IsSound b.refund i r' (IsSound-kept i r r' p.terms (v.sound i r p.found)) v.sound j x
        (rw p.replaced at f);
}

Opens-Inv : (env : Env) (b b' : Books) (r : Refund) → Inv b → Opens env b b' r → Inv b'
Opens-Inv env b b' r v o = record {
  fresh = λ j h. rw o.added (ground (arith, v.fresh j, o.counted));
  sound = λ j x f.
      put-all IsSound b.refund b.counter r
        (record { id_matches = o.numbered; positive = o.positive }) v.sound j x (rw o.added at f);
}

pub Move-Inv : {env : Env} {a : Bool} {b b' : Books} → Inv b → Move env a b b' → Inv b'
Move-Inv v (settle {b = b} {b' = b'} i r r' paid p) = Replaces-Inv b b' i r r' v p.replaces
Move-Inv {env} v (open_new {b = b} {b' = b'} r o) = Opens-Inv env b b' r v o
Move-Inv v (appeal {b = b} {b' = b'} i r r' p) = Replaces-Inv b b' i r r' v p.replaces
Move-Inv v (resolve {b = b} {b' = b'} i r r' paid p) = Replaces-Inv b b' i r r' v p.replaces

Inv-same : (b b' : Books) → b'.counter ≡ b.counter → b'.refund ≡ b.refund → Inv b → Inv b'
Inv-same b b' p q v = record {
  fresh = λ i h. rw q (v.fresh i (rw p at h));
  sound = λ i r f. v.sound i r (rw q at f);
}

pub Moves-Inv : {env : Env} {a : Bool} {b b' : Books} → Inv b → Moves env a b b' → Inv b'
Moves-Inv v (stay {b = b} {b' = b'} p q r) = Inv-same b b' p q v
Moves-Inv v (one m) = Move-Inv v m
Moves-Inv v (both first rest) = Moves-Inv (Moves-Inv v first) rest

not-appealed-⟶ : {s s' : RefundStatus} → s ⟶ s' → s' ≢ RefundStatus.under_appeal
not-appealed-⟶ approve h = cc
not-appealed-⟶ reject h = cc
not-appealed-⟶ cancel h = cc
not-appealed-⟶ process h = cc
not-appealed-⟶ auto_approve h = cc

claim-settle :
    (t : ℕ) (r r' : Refund) (paid : List TokenCall)
    → r'.token ≡ r.token
    → total paid +ℤ pending_amount r' ≤ℤ pending_amount r
    → (if r.token == t then total paid else pos 0) +ℤ claim t (some r') ≤ℤ claim t (some r)
unfolding claim
claim-settle t r r' paid same h = elim (Bool-cases (r.token == t)) [
  | inl hit ↦ simp (same, hit) h
  | inr miss ↦ simp (same, miss) (omega int_laws)
]

Settles-Covered :
    (env : Env) (b b' : Books) (i : ℕ) (r r' : Refund) (paid : List TokenCall)
    → Inv b
    → Covered env.current_contract_address b
    → Settles env b b' i r r' paid
    → Covered env.current_contract_address b'
unfolding pending
Settles-Covered env b b' i r r' paid v c p = record {
  covered = λ t.
      rw (p.replaces.counter_kept, p.replaces.replaced, p.made_calls)
        (grind (
          int_laws,
          c.covered t,
          claim-settle t r r' paid p.replaces.terms.same_token p.conserved,
          holdings-out env.current_contract_address r.token t paid b.calls p.out,
          rw p.replaces.found at (
              sum_below-put (claim t) b.counter i b.refund (some r')
                (lt_counter b i r v p.replaces.found)),
        ));
  unappealed = λ j x f.
      put-all (λ k y. y.status ≢ RefundStatus.under_appeal) b.refund i r' (not-appealed-⟶ p.edge)
        c.unappealed j x (rw p.replaces.replaced at f);
}

Opens-Covered :
    (env : Env) (b b' : Books) (r : Refund)
    → Covered env.current_contract_address b
    → Opens env b b' r
    → Covered env.current_contract_address b'
unfolding pending sum_below claim
Opens-Covered env b b' r c o = record {
  covered = λ t.
      rw
        (
          o.counted,
          add-one,
          o.added,
          put_self,
          sum_below-put_ge (claim t) b.counter b.counter b.refund (some r) (omega arith),
        )
        (omega (int_laws, c.covered t, o.funded t));
  unappealed = λ j x f.
      put-all (λ k y. y.status ≢ RefundStatus.under_appeal) b.refund b.counter r o.fresh_status
        c.unappealed j x (rw o.added at f);
}

Move-Covered :
    {env : Env} {b b' : Books}
    → Inv b
    → Covered env.current_contract_address b
    → Move env false b b'
    → Covered env.current_contract_address b'
Move-Covered {env} v c (settle {b = b} {b' = b'} i r r' paid p) =
    Settles-Covered env b b' i r r' paid v c p
Move-Covered {env} v c (open_new {b = b} {b' = b'} r o) = Opens-Covered env b b' r c o
Move-Covered v c (resolve i r r' paid p) = absurd (c.unappealed i r p.replaces.found p.was_appealed)

Covered-same :
    (self : ℕ) (b b' : Books)
    → b'.counter ≡ b.counter
    → b'.refund ≡ b.refund
    → b'.calls ≡ b.calls
    → Covered self b
    → Covered self b'
unfolding pending
Covered-same self b b' p q r c = record {
  covered = λ t. rw (p, q, r) (c.covered t);
  unappealed = λ i x f. c.unappealed i x (rw q at f);
}

-- Moves without an appeal keep what is pending covered.
pub Moves-Covered :
    {env : Env} {b b' : Books}
    → Inv b
    → Covered env.current_contract_address b
    → Moves env false b b'
    → Covered env.current_contract_address b'
Moves-Covered {env} v c (stay {b = b} {b' = b'} p q r) =
    Covered-same env.current_contract_address b b' p q r c
Moves-Covered v c (one m) = Move-Covered v c m
Moves-Covered v c (both first rest) =
    Moves-Covered (Moves-Inv v first) (Moves-Covered v c first) rest
