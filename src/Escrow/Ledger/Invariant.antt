-- ===== src/Escrow/Ledger/Invariant.antt =====
-- The invariant of the books of the escrow contract under the moves of the ledger.
use ahjoorxmr_contract.Base.{
  sum_below, sum_below-put, sum_below-put_ge, ℕ, ◌≤◌, ◌<◌, ◌≡◌, ◌≢◌, refl, sym, ◌∙◌, List, ◌⊎◌, inl,
  inr, true, false, none, some, ◌∷◌, ◌==◌, if◌then◌else◌, put_self, put-all, pos, ◌+ℤ◌, ◌≤ℤ◌, ◌<ℤ◌,
  int_laws, arith, Bool-cases,
}
use native.Mathlib.Numerals.{add-one}
use ahjoorxmr_contract.Host.{SelfIsPassive, outside_of_authorized, Env, TokenCall}
use ahjoorxmr_contract.Host.Tokens.{total, holdings, holdings-out}
use ahjoorxmr_contract.Escrow.Types.{EscrowStatus, Escrow, is_terminal_escrow_status}
use ahjoorxmr_contract.Escrow.Ledger.{
  Books, live_amount, Replaces, Amends, Settles, Opens, Move, consent, amend, settle, open_new,
  renew_old, Moves, stay, one, both, bps_total, first_address, IsApproval, SameTerms, ◌⟶◌,
  release_active,
}
use ahjoorxmr_contract.Escrow.Ledger.Money.{net_call-in, claim, owed}

-- A stored escrow: it stands under its number, an escrow that is not over holds something, its
-- buyer is not the contract, and its sellers share exactly all of it.
pub record IsSound (self i : ℕ) (e : Escrow) : Type 0 where
  pub id_matches : e.id ≡ i
  pub is_funded : is_terminal_escrow_status e.status ≡ false → pos 0 <ℤ e.amount
  pub buyer_outside : e.buyer ≢ self
  pub is_allocated : bps_total e.sellers ≡ 10000
  pub has_primary : first_address e.sellers ≡ some e.seller

pub record Inv (self : ℕ) (b : Books) : Type 0 where
  pub fresh : (i : ℕ) → b.counter ≤ i → b.escrow i ≡ none
  pub sound : (i : ℕ) (e : Escrow) → b.escrow i ≡ some e → IsSound self i e
  -- solvency: what is owed in each token is covered by what came in
  pub covered : (t : ℕ) → owed t b ≤ℤ holdings self t b.calls

-- An entry that is there has a number below the counter.
pub lt_counter :
    {self : ℕ} (b : Books) (i : ℕ) (e : Escrow) → Inv self b → b.escrow i ≡ some e → i < b.counter
lt_counter b i e v f = grind (arith, v.fresh i)

-- The invariant reads the three parts of the books alone.
Inv-same :
    {self : ℕ} (b b' : Books)
    → b'.counter ≡ b.counter
    → b'.escrow ≡ b.escrow
    → b'.calls ≡ b.calls
    → Inv self b
    → Inv self b'
unfolding owed
Inv-same b b' p q r v = record {
  fresh = λ i h. rw q (v.fresh i (rw p at h));
  sound = λ i e f. v.sound i e (rw q at f);
  covered = λ t. rw (p, q, r) (v.covered t);
}

-- One sound entry replaced, and the calls changed by what the contract owes less.
Replaces-Inv :
    (self : ℕ) (b b' : Books) (i : ℕ) (e e' : Escrow)
    → Inv self b
    → Replaces b b' i e e'
    → IsSound self i e'
    → ((t : ℕ)
        → holdings self t b.calls +ℤ claim t (some e')
          ≤ℤ holdings self t b'.calls +ℤ claim t (some e))
    → Inv self b'
unfolding owed
Replaces-Inv self b b' i e e' v r s money = record {
  fresh = λ j h. rw r.replaced (
      ground
        (arith, lt_counter b i e v r.found, v.fresh j (rw r.counter_kept at h), r.counter_kept));
  sound = λ j x f. put-all (IsSound self) b.escrow i e' s v.sound j x (rw r.replaced at f);
  covered = λ t.
      rw (r.counter_kept, r.replaced)
        (grind (
          int_laws,
          money t,
          v.covered t,
          rw r.found at
              (sum_below-put (claim t) b.counter i b.escrow (some e') (lt_counter b i e v r.found)),
        ));
}

claim-active :
    (t : ℕ) (e : Escrow)
    → e.status ≡ EscrowStatus.active
    → claim t (some e) ≡ (if e.token == t then e.amount else pos 0)
unfolding claim live_amount is_terminal_escrow_status
claim-active t e h = ground arith

is_terminal-active :
    (e : Escrow) → e.status ≡ EscrowStatus.active → is_terminal_escrow_status e.status ≡ false
unfolding is_terminal_escrow_status
is_terminal-active e h = rw h

Opens-Inv :
    (env : Env) (b b' : Books) (e : Escrow) (c : TokenCall)
    → Inv env.current_contract_address b
    → e.buyer ≢ env.current_contract_address
    → Opens env b b' e c
    → Inv env.current_contract_address b'
unfolding owed sum_below holdings
Opens-Inv env b b' e c v ne o = record {
  fresh = λ j h. rw o.added (ground (arith, v.fresh j, o.counted));
  sound = λ j x f.
      put-all (IsSound env.current_contract_address) b.escrow b.counter e
        (record {
          id_matches = o.numbered;
          is_funded = λ _. o.funded;
          buyer_outside = ne;
          is_allocated = o.allocated;
          has_primary = o.primary;
        })
        v.sound j x (rw o.added at f);
  covered = λ t.
      rw
        (
          o.counted,
          add-one,
          o.added,
          put_self,
          o.made_call,
          claim-active t e o.fresh_status,
          net_call-in env.current_contract_address t e c o.paid_in ne,
          sum_below-put_ge (claim t) b.counter b.counter b.escrow (some e) (omega arith),
        )
        (omega (int_laws, v.covered t));
}

-- A change of an escrow keeps it sound.
IsSound-kept :
    (self i : ℕ) (e e' : Escrow)
    → SameTerms e e'
    → IsSound self i e
    → e'.buyer ≢ self
    → (is_terminal_escrow_status e'.status ≡ false → pos 0 <ℤ e'.amount)
    → IsSound self i e'
IsSound-kept self i e e' same s ne funded = record {
  id_matches = same.same_id ∙ s.id_matches;
  is_funded = funded;
  buyer_outside = ne;
  is_allocated = rw same.same_sellers s.is_allocated;
  has_primary = rw (same.same_sellers, same.same_seller) s.has_primary;
}

claim-amend :
    (t : ℕ) (e e' : Escrow)
    → e'.token ≡ e.token
    → e'.status ≡ e.status
    → e'.amount ≡ e.amount
    → claim t (some e') ≡ claim t (some e)
unfolding claim live_amount
claim-amend t e e' p q r = rw (p, q, r) refl

Amends-Inv :
    (env : Env) (b b' : Books) (i : ℕ) (e e' : Escrow)
    → Inv env.current_contract_address b
    → Amends env b b' i e e'
    → Inv env.current_contract_address b'
Amends-Inv env b b' i e e' v a =
    let s = v.sound i e a.replaces.found in
    Replaces-Inv env.current_contract_address b b' i e e' v a.replaces
      (IsSound-kept env.current_contract_address i e e' a.replaces.terms s
        (still_outside a.buyer_outside s.buyer_outside)
        (rw (a.same_status, a.same_amount) s.is_funded))
      (λ t.
        rw (a.no_calls, claim-amend t e e' a.replaces.terms.same_token a.same_status a.same_amount)
          (omega arith))
  where
    still_outside :
        (e'.buyer ≡ e.buyer)
          ⊎ ((e'.buyer ≢ env.current_contract_address) × (env.authorized e.buyer ≡ true))
        → e.buyer ≢ env.current_contract_address
        → e'.buyer ≢ env.current_contract_address
    still_outside (inl same) ne = rw same ne
    still_outside (inr (other, _)) ne = other

live_amount-live :
    (e : Escrow) → is_terminal_escrow_status e.status ≡ false → live_amount e ≡ e.amount
unfolding live_amount
live_amount-live e h = rw h

-- What is paid out and what stays owed make up what was owed.
claim-settle :
    (t : ℕ) (e e' : Escrow) (paid : List TokenCall)
    → e'.token ≡ e.token
    → is_terminal_escrow_status e.status ≡ false
    → total paid +ℤ live_amount e' ≡ e.amount
    → (if e.token == t then total paid else pos 0) +ℤ claim t (some e') ≡ claim t (some e)
unfolding claim
claim-settle t e e' paid same live h = elim (Bool-cases (e.token == t)) [
  | inl hit ↦ simp (same, hit) (h ∙ sym (live_amount-live e live))
  | inr miss ↦ simp (same, miss) (omega int_laws)
]

pub not-terminal-⟶ : {s s' : EscrowStatus} → s ⟶ s' → is_terminal_escrow_status s ≡ false
unfolding is_terminal_escrow_status
not-terminal-⟶ release_active = refl
not-terminal-⟶ _ = refl

Settles-Inv :
    (env : Env) (b b' : Books) (i : ℕ) (e e' : Escrow) (paid : List TokenCall)
    → Inv env.current_contract_address b
    → Settles env b b' i e e' paid
    → Inv env.current_contract_address b'
Settles-Inv env b b' i e e' paid v p =
    let s = v.sound i e p.replaces.found in
    Replaces-Inv env.current_contract_address b b' i e e' v p.replaces
      (IsSound-kept env.current_contract_address i e e' p.replaces.terms s
        (rw p.same_buyer s.buyer_outside) p.funded)
      (λ t.
        rw
          (
            p.made_calls,
            ← claim-settle t e e' paid p.replaces.terms.same_token (not-terminal-⟶ p.edge)
                p.conserved,
          )
          (omega
            (int_laws, holdings-out env.current_contract_address e.token t paid b.calls p.out)))

consent-Inv :
    (env : Env) (b b' : Books) (c : TokenCall)
    → IsApproval c
    → b'.counter ≡ b.counter
    → b'.escrow ≡ b.escrow
    → b'.calls ≡ c ∷ b.calls
    → Inv env.current_contract_address b
    → Inv env.current_contract_address b'
unfolding owed holdings
consent-Inv env b b' (TokenCall.transfer _ _ _ _) a p q r v = absurd a
consent-Inv env b b' (TokenCall.transfer_from _ _ _ _ _) a p q r v = absurd a
consent-Inv env b b' (TokenCall.approve _ _ _ _ _) a p q r v = record {
  fresh = λ i h. rw q (v.fresh i (rw p at h));
  sound = λ i e f. v.sound i e (rw q at f);
  covered = λ t. rw (p, q, r) (omega (int_laws, v.covered t));
}

pub Move-Inv :
    {env : Env} {b b' : Books}
    → SelfIsPassive env
    → Inv env.current_contract_address b
    → Move env b b'
    → Inv env.current_contract_address b'
Move-Inv {env} {b} {b'} passive v (consent c a p q r) = consent-Inv env b b' c a p q r v
Move-Inv {env} {b} {b'} passive v (amend i e e' a) = Amends-Inv env b b' i e e' v a
Move-Inv {env} {b} {b'} passive v (settle i e e' paid p) = Settles-Inv env b b' i e e' paid v p
Move-Inv {env} {b} {b'} passive v (open_new e c auth o) =
    Opens-Inv env b b' e c v (outside_of_authorized env e.buyer passive auth) o
Move-Inv {env} {b} {b'} passive v (renew_old i old e c f same o) =
    Opens-Inv env b b' e c v (rw same (v.sound i old f).buyer_outside) o

pub Moves-Inv :
    {env : Env} {b b' : Books}
    → SelfIsPassive env
    → Inv env.current_contract_address b
    → Moves env b b'
    → Inv env.current_contract_address b'
Moves-Inv passive v (stay {b = b} {b' = b'} p q r) = Inv-same b b' p q r v
Moves-Inv passive v (one m) = Move-Inv passive v m
Moves-Inv passive v (both first rest) = Moves-Inv passive (Moves-Inv passive v first) rest
