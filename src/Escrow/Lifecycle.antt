-- ===== src/Escrow/Lifecycle.antt =====
-- What becomes of an escrow (`Escrow` and `EscrowStatus` of contracts/ahjoor-escrow/src/lib.rs) over
-- whole histories of transactions.
use ahjoorxmr_contract.Base.{
  ℕ, ◌≡◌, refl, sym, ap, subst, ◌∙◌, eq_of_==, ne_of_==, inl, inr, List, [], ◌∷◌, some, true, ◌==◌,
  put, put_self, put_ne, arith, Bool-cases,
}
use ahjoorxmr_contract.Host.{SelfIsPassive, Env, Outcome-cases}
use ahjoorxmr_contract.Escrow.Types.{EscrowStatus, Escrow, is_terminal_escrow_status}
use ahjoorxmr_contract.Escrow.Events.{World}
use ahjoorxmr_contract.Escrow.Entry.{Call, invoke, transact, run}
use ahjoorxmr_contract.Escrow.Ledger.{
  Books, books, SameTerms, Move, consent, amend, settle, open_new, renew_old, Moves, stay, one,
  both, ◌⟶◌,
}
use ahjoorxmr_contract.Escrow.Ledger.Invariant.{Inv, Moves-Inv, lt_counter, not-terminal-⟶}
use ahjoorxmr_contract.Escrow.Refinement.{invoke-Moves}
use ahjoorxmr_contract.Escrow.Solvency.{Valid, AllAdmissible, IsAdmissible, transact-Valid}

-- A path of edges.
infix 40 ◌⟶*◌
pub data ◌⟶*◌ : EscrowStatus → EscrowStatus → Type 0 where
  here : {s : EscrowStatus} → s ⟶* s
  step : {s t u : EscrowStatus} → s ⟶ t → t ⟶* u → s ⟶* u

path-append : {s t u : EscrowStatus} → s ⟶* t → t ⟶* u → s ⟶* u
path-append here q = q
path-append (step e p) q = step e (path-append p q)

-- A later state of an escrow.
pub record Becomes (e e' : Escrow) : Type 0 where
  pub terms : SameTerms e e'
  pub path : e.status ⟶* e'.status
  pub settled :
      is_terminal_escrow_status e.status ≡ true → (e'.status ≡ e.status) × (e'.amount ≡ e.amount)

SameTerms-refl : (e : Escrow) → SameTerms e e
SameTerms-refl e = record {
  same_id = refl;
  same_token = refl;
  same_seller = refl;
  same_sellers = refl;
  same_arbiter = refl;
  same_created_at = refl;
  same_inactivity = refl;
}

SameTerms-trans : (a b c : Escrow) → SameTerms a b → SameTerms b c → SameTerms a c
SameTerms-trans a b c p q = record {
  same_id = q.same_id ∙ p.same_id;
  same_token = q.same_token ∙ p.same_token;
  same_seller = q.same_seller ∙ p.same_seller;
  same_sellers = q.same_sellers ∙ p.same_sellers;
  same_arbiter = q.same_arbiter ∙ p.same_arbiter;
  same_created_at = q.same_created_at ∙ p.same_created_at;
  same_inactivity = q.same_inactivity ∙ p.same_inactivity;
}

Becomes-refl : (e : Escrow) → Becomes e e
Becomes-refl e = record { terms = SameTerms-refl e; path = here; settled = λ h. (refl, refl) }

Becomes-trans : (a b c : Escrow) → Becomes a b → Becomes b c → Becomes a c
Becomes-trans a b c p q = record {
  terms = SameTerms-trans a b c p.terms q.terms;
  path = path-append p.path q.path;
  settled = λ h.
      let (same_status, same_amount) = p.settled h in
      let later = q.settled (rw same_status h) in (later.0 ∙ same_status, later.1 ∙ same_amount);
}

-- The escrow under a number is there afterwards, as a later state.
abbrev pub Survives : Books → Books → ℕ → Escrow → Type 0
Survives b b' i e = (e' : Escrow) × (b'.escrow i ≡ some e') × Becomes e e'

Survives-same :
    (b b' : Books) (i : ℕ) (e : Escrow)
    → b'.escrow i ≡ b.escrow i
    → b.escrow i ≡ some e
    → Survives b b' i e
Survives-same b b' i e same f = (e, same ∙ f, Becomes-refl e)

-- The entry that a move replaces, and the others.
Survives-put :
    (b b' : Books) (i j : ℕ) (e old new : Escrow)
    → b'.escrow ≡ put b.escrow j (some new)
    → b.escrow j ≡ some old
    → Becomes old new
    → b.escrow i ≡ some e
    → Survives b b' i e
Survives-put b b' i j e old new r g became f = elim (Bool-cases (i == j)) [
  | inl same ↦
      let at : i ≡ j = eq_of_== i j same in
      (
        new,
        rw (r, at) (put_self b.escrow j (some new)),
        subst (λ x. Becomes x new) (cc (f, g, ap b.escrow at)) became,
      )
  | inr other ↦
      Survives-same b b' i e (rw r (put_ne b.escrow j i (some new) (ne_of_== j i (ground arith)))) f
]

Survives-add :
    {self : ℕ} (b b' : Books) (i : ℕ) (e new : Escrow)
    → Inv self b
    → b'.escrow ≡ put b.escrow b.counter (some new)
    → b.escrow i ≡ some e
    → Survives b b' i e
Survives-add b b' i e new v r f =
    Survives-same b b' i e (rw r (ground (arith, lt_counter b i e v f))) f

Move-Survives :
    {env : Env} (b b' : Books) (i : ℕ) (e : Escrow)
    → Inv env.current_contract_address b
    → b.escrow i ≡ some e
    → Move env b b'
    → Survives b b' i e
Move-Survives b b' i e v f (consent c a p q r) = Survives-same b b' i e (ap (λ g. g i) q) f
Move-Survives b b' i e v f (amend j old new a) =
    Survives-put b b' i j e old new a.replaces.replaced a.replaces.found
      (record {
        terms = a.replaces.terms;
        path = rw a.same_status here;
        settled = λ h. (a.same_status, a.same_amount);
      })
      f
Move-Survives b b' i e v f (settle j old new paid p) =
    Survives-put b b' i j e old new p.replaces.replaced p.replaces.found
      (record {
        terms = p.replaces.terms;
        path = step p.edge here;
        settled = λ h. absurd (cc (not-terminal-⟶ p.edge, h));
      })
      f
Move-Survives b b' i e v f (open_new new c auth o) = Survives-add b b' i e new v o.added f
Move-Survives b b' i e v f (renew_old j old new c g same o) = Survives-add b b' i e new v o.added f

Moves-Survives :
    {env : Env} (b b' : Books) (i : ℕ) (e : Escrow)
    → SelfIsPassive env
    → Inv env.current_contract_address b
    → b.escrow i ≡ some e
    → Moves env b b'
    → Survives b b' i e
Moves-Survives b b' i e passive v f (stay p q r) = Survives-same b b' i e (ap (λ g. g i) q) f
Moves-Survives b b' i e passive v f (one m) = Move-Survives b b' i e v f m
Moves-Survives b b' i e passive v f (both {m = m} first rest) =
    let (e1, f1, became) = Moves-Survives b m i e passive v f first in
    let (e2, f2, later) = Moves-Survives m b' i e1 passive (Moves-Inv passive v first) f1 rest in
    (e2, f2, Becomes-trans e e1 e2 became later)

transact-Survives :
    (self : ℕ) (env : Env) (c : Call) (w : World) (i : ℕ) (e : Escrow)
    → IsAdmissible self env c
    → Valid self w
    → w.store.escrow i ≡ some e
    → Survives (books w) (books (transact env c w)) i e
unfolding transact
transact-Survives self env c w i e (here_at, passive, outside) v f =
    elim (Outcome-cases (invoke c env w)) [
      | inl ((_, w'), h) ↦
          let v1 : Inv env.current_contract_address (books w) =
            subst (λ (a : ℕ). Inv a (books w)) (sym here_at) v.inv in
          rw (transact, h)
            (Moves-Survives (books w) (books w') i e passive v1 f
              (invoke-Moves c env w w' v1 v.fee_bounded outside h))
      | inr (inl (x, h)) ↦ rw (transact, h) (e, f, Becomes-refl e)
      | inr (inr (x, h)) ↦ rw (transact, h) (e, f, Becomes-refl e)
    ]

-- In a valid contract, an escrow that is stored is still stored under its number after any history
-- of admissible transactions, with the same token, sellers, arbiter, time of creation and inactivity
-- period; its status has gone along the edges of its life only, and if it was over before, neither
-- its status nor its amount has changed.
pub run-Survives :
    (self : ℕ) (history : List (Env × Call)) (w : World) (i : ℕ) (e : Escrow)
    → AllAdmissible self history
    → Valid self w
    → w.store.escrow i ≡ some e
    → Survives (books w) (books (run history w)) i e
unfolding run
run-Survives self [] w i e h v f = (e, f, Becomes-refl e)
run-Survives self ((env, c) ∷ rest) w i e (h, hs) v f =
    let (e1, f1, became) = transact-Survives self env c w i e h v f in
    let (e2, f2, later) =
      run-Survives self rest (transact env c w) i e1 hs (transact-Valid self env c w h v) f1 in
    (e2, f2, Becomes-trans e e1 e2 became later)
