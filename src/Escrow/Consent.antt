-- ===== src/Escrow/Consent.antt =====
-- Whose authorisation a change of an escrow needs: all entry points of
-- contracts/ahjoor-escrow/src/lib.rs.
use ahjoorxmr_contract.Base.{
  ℕ, ◌≡◌, ◌≢◌, refl, ap, ◌∙◌, ◌⊎◌, inl, inr, true, some, Bool-cases, ◌==◌, put, put_self, put_ne,
  eq_of_==, ne_of_==, arith, subst,
}
use ahjoorxmr_contract.Host.{SelfIsPassive, Env, ok}
use ahjoorxmr_contract.Escrow.Types.{Escrow}
use ahjoorxmr_contract.Escrow.Events.{World}
use ahjoorxmr_contract.Escrow.Entry.{Call, invoke}
use ahjoorxmr_contract.Escrow.Ledger.{
  Books, books, Sanctioned, Move, consent, amend, settle, open_new, renew_old, Moves, stay, one,
  both,
}
use ahjoorxmr_contract.Escrow.Ledger.Invariant.{Inv, Moves-Inv, lt_counter}
use ahjoorxmr_contract.Escrow.Refinement.{StaysOutside, invoke-Moves}
use ahjoorxmr_contract.Escrow.Solvency.{Valid}

-- The same parties, money and status.
pub record Unmoved (e e' : Escrow) : Type 0 where
  pub same_buyer : e'.buyer ≡ e.buyer
  pub same_seller : e'.seller ≡ e.seller
  pub same_arbiter : e'.arbiter ≡ e.arbiter
  pub same_status : e'.status ≡ e.status
  pub same_amount : e'.amount ≡ e.amount

Unmoved-refl : (e : Escrow) → Unmoved e e
Unmoved-refl e = record {
  same_buyer = refl;
  same_seller = refl;
  same_arbiter = refl;
  same_status = refl;
  same_amount = refl;
}

Unmoved-trans : (a b c : Escrow) → Unmoved a b → Unmoved b c → Unmoved a c
Unmoved-trans a b c p q = record {
  same_buyer = q.same_buyer ∙ p.same_buyer;
  same_seller = q.same_seller ∙ p.same_seller;
  same_arbiter = q.same_arbiter ∙ p.same_arbiter;
  same_status = q.same_status ∙ p.same_status;
  same_amount = q.same_amount ∙ p.same_amount;
}

-- The escrow under a number is unmoved, or a party of it has authorised the call.
abbrev pub Respects : Env → Books → Books → ℕ → Escrow → Type 0
Respects env b b' i e = (e' : Escrow) × (b'.escrow i ≡ some e') × (Unmoved e e' ⊎ Sanctioned env e)

Respects-same :
    (env : Env) (b b' : Books) (i : ℕ) (e : Escrow)
    → b'.escrow i ≡ b.escrow i
    → b.escrow i ≡ some e
    → Respects env b b' i e
Respects-same env b b' i e same f = (e, same ∙ f, inl (Unmoved-refl e))

Respects-put :
    (env : Env) (b b' : Books) (i j : ℕ) (e old new : Escrow)
    → b'.escrow ≡ put b.escrow j (some new)
    → b.escrow j ≡ some old
    → (Unmoved old new ⊎ Sanctioned env old)
    → b.escrow i ≡ some e
    → Respects env b b' i e
Respects-put env b b' i j e old new r g moved f = elim (Bool-cases (i == j)) [
  | inl same ↦
      let at : i ≡ j = eq_of_== i j same in
      (
        new,
        rw (r, at) (put_self b.escrow j (some new)),
        subst (λ x. Unmoved x new ⊎ Sanctioned env x) (cc (f, g, ap b.escrow at)) moved,
      )
  | inr other ↦
      Respects-same env b b' i e
        (rw r (put_ne b.escrow j i (some new) (ne_of_== j i (ground arith)))) f
]

Respects-add :
    (env : Env) (b b' : Books) (i : ℕ) (e new : Escrow)
    → Inv env.current_contract_address b
    → b'.escrow ≡ put b.escrow b.counter (some new)
    → b.escrow i ≡ some e
    → Respects env b b' i e
Respects-add env b b' i e new v r f =
    Respects-same env b b' i e (rw r (ground (arith, lt_counter b i e v f))) f

Move-Respects :
    {env : Env} (b b' : Books) (i : ℕ) (e : Escrow)
    → Inv env.current_contract_address b
    → b.escrow i ≡ some e
    → Move env b b'
    → Respects env b b' i e
Move-Respects {env} b b' i e v f (consent c a p q r) =
    Respects-same env b b' i e (ap (λ g. g i) q) f
Move-Respects {env} b b' i e v f (amend j old new a) =
    Respects-put env b b' i j e old new a.replaces.replaced a.replaces.found (moved a.buyer_outside)
      f
  where
    moved :
        (new.buyer ≡ old.buyer)
          ⊎ ((new.buyer ≢ env.current_contract_address) × (env.authorized old.buyer ≡ true))
        → Unmoved old new ⊎ Sanctioned env old
    moved (inl same) = inl (record {
      same_buyer = same;
      same_seller = a.replaces.terms.same_seller;
      same_arbiter = a.replaces.terms.same_arbiter;
      same_status = a.same_status;
      same_amount = a.same_amount;
    })
    moved (inr (_, auth)) = inr (old.buyer, auth, inl refl)
Move-Respects {env} b b' i e v f (settle j old new paid p) =
    Respects-put env b b' i j e old new p.replaces.replaced p.replaces.found (inr p.sanctioned) f
Move-Respects {env} b b' i e v f (open_new new c auth o) = Respects-add env b b' i e new v o.added f
Move-Respects {env} b b' i e v f (renew_old j old new c g same o) =
    Respects-add env b b' i e new v o.added f

Sanctioned-Unmoved :
    (env : Env) (e e1 : Escrow) → Unmoved e e1 → Sanctioned env e1 → Sanctioned env e
Sanctioned-Unmoved env e e1 u (a, auth, who) =
    (a, auth, rw (← u.same_buyer, ← u.same_seller, ← u.same_arbiter) who)

Respects-trans :
    (env : Env) (b m b' : Books) (i : ℕ) (e : Escrow)
    → Respects env b m i e
    → ((e1 : Escrow) → m.escrow i ≡ some e1 → Respects env m b' i e1)
    → Respects env b b' i e
Respects-trans env b m b' i e (e1, f1, moved) later = join (later e1 f1) moved
  where
    join : Respects env m b' i e1 → Unmoved e e1 ⊎ Sanctioned env e → Respects env b b' i e
    join (e2, f2, _) (inr s) = (e2, f2, inr s)
    join (e2, f2, inl again) (inl first) = (e2, f2, inl (Unmoved-trans e e1 e2 first again))
    join (e2, f2, inr s) (inl first) = (e2, f2, inr (Sanctioned-Unmoved env e e1 first s))

Moves-Respects :
    {env : Env} (b b' : Books) (i : ℕ) (e : Escrow)
    → SelfIsPassive env
    → Inv env.current_contract_address b
    → b.escrow i ≡ some e
    → Moves env b b'
    → Respects env b b' i e
Moves-Respects {env} b b' i e passive v f (stay p q r) =
    Respects-same env b b' i e (ap (λ g. g i) q) f
Moves-Respects b b' i e passive v f (one m) = Move-Respects b b' i e v f m
Moves-Respects {env} b b' i e passive v f (both {m = m} first rest) =
    Respects-trans env b m b' i e (Moves-Respects b m i e passive v f first)
      (λ e1 f1. Moves-Respects m b' i e1 passive (Moves-Inv passive v first) f1 rest)

-- Whatever call succeeds on a valid contract, a stored escrow keeps its buyer, seller, arbiter,
-- status and amount, unless its buyer, its seller or its arbiter before the call has authorised
-- the call. The contract's own address has not authorised the call and does not become a buyer by
-- it.
pub invoke-Respects :
    (c : Call) (env : Env) (w w' : World) (i : ℕ) (e : Escrow)
    → SelfIsPassive env
    → StaysOutside env c
    → Valid env.current_contract_address w
    → w.store.escrow i ≡ some e
    → invoke c env w ≡ ok (tt, w')
    → Respects env (books w) (books w') i e
invoke-Respects c env w w' i e passive outside v f h =
    Moves-Respects (books w) (books w') i e passive v.inv f
      (invoke-Moves c env w w' v.inv v.fee_bounded outside h)
