-- ===== src/Refund/Lifecycle.antt =====
-- What becomes of a refund (`Refund` and `RefundStatus` of contracts/ahjoor-refund/src/lib.rs) over
-- whole histories of transactions.
use ahjoorxmr_contract.Base.{
  ℕ, ◌≡◌, refl, ap, subst, ◌∙◌, eq_of_==, ne_of_==, inl, inr, Bool, List, [], ◌∷◌, some, true,
  false, ◌==◌, put, put_self, put_ne, arith, Bool-cases,
}
use ahjoorxmr_contract.Host.{SelfIsPassive, Env, Outcome-cases}
use ahjoorxmr_contract.Refund.Types.{RefundStatus, Refund, Payments}
use ahjoorxmr_contract.Refund.Events.{World}
use ahjoorxmr_contract.Refund.Entry.{Call, invoke, transact, run}
use ahjoorxmr_contract.Refund.Ledger.{
  Books, books, SameTerms, Move, settle, open_new, appeal, resolve, Moves, stay, one, both, ◌⟶◌,
  approve, reject, cancel, process, auto_approve,
}
use ahjoorxmr_contract.Refund.Ledger.Invariant.{Inv, Moves-Inv, lt_counter}
use ahjoorxmr_contract.Refund.Refinement.{refund_call-Moves}
use ahjoorxmr_contract.Refund.Solvency.{Valid, AllAdmissible, refund_transact-Valid}

-- The steps of a refund's life, with appeals.
infix 40 ◌⇝◌ ◌⇝*◌
pub data ◌⇝◌ : RefundStatus → RefundStatus → Type 0 where
  plain : {s t : RefundStatus} → s ⟶ t → s ⇝ t
  appealed : RefundStatus.rejected ⇝ RefundStatus.under_appeal
  granted : RefundStatus.under_appeal ⇝ RefundStatus.processed
  dismissed : RefundStatus.under_appeal ⇝ RefundStatus.rejected

pub data ◌⇝*◌ : RefundStatus → RefundStatus → Type 0 where
  here : {s : RefundStatus} → s ⇝* s
  step : {s t u : RefundStatus} → s ⇝ t → t ⇝* u → s ⇝* u

path-append : {s t u : RefundStatus} → s ⇝* t → t ⇝* u → s ⇝* u
path-append here q = q
path-append (step e p) q = step e (path-append p q)

-- The statuses that are never left.
abbrev pub is_final : RefundStatus → Bool
is_final RefundStatus.processed = true
is_final RefundStatus.cancelled = true
is_final _ = false

not-final-⟶ : {s t : RefundStatus} → s ⟶ t → is_final s ≡ false
not-final-⟶ approve = refl
not-final-⟶ reject = refl
not-final-⟶ cancel = refl
not-final-⟶ process = refl
not-final-⟶ auto_approve = refl

-- A later state of a refund.
pub record Becomes (r r' : Refund) : Type 0 where
  pub terms : SameTerms r r'
  pub path : r.status ⇝* r'.status
  pub final : is_final r.status ≡ true → r' ≡ r

SameTerms-refl : (r : Refund) → SameTerms r r
SameTerms-refl r = record {
  same_id = refl;
  same_payment = refl;
  same_customer = refl;
  same_merchant = refl;
  same_amount = refl;
  same_token = refl;
  same_requested_at = refl;
}

SameTerms-trans : (a b c : Refund) → SameTerms a b → SameTerms b c → SameTerms a c
SameTerms-trans a b c p q = record {
  same_id = q.same_id ∙ p.same_id;
  same_payment = q.same_payment ∙ p.same_payment;
  same_customer = q.same_customer ∙ p.same_customer;
  same_merchant = q.same_merchant ∙ p.same_merchant;
  same_amount = q.same_amount ∙ p.same_amount;
  same_token = q.same_token ∙ p.same_token;
  same_requested_at = q.same_requested_at ∙ p.same_requested_at;
}

Becomes-refl : (r : Refund) → Becomes r r
Becomes-refl r = record { terms = SameTerms-refl r; path = here; final = λ h. refl }

Becomes-trans : (a b c : Refund) → Becomes a b → Becomes b c → Becomes a c
Becomes-trans a b c p q = record {
  terms = SameTerms-trans a b c p.terms q.terms;
  path = path-append p.path q.path;
  final = λ h. let same = p.final h in q.final (rw same h) ∙ same;
}

-- One step of a refund that is not final.
Becomes-step :
    (r r' : Refund)
    → SameTerms r r'
    → r.status ⇝ r'.status
    → is_final r.status ≡ false
    → Becomes r r'
Becomes-step r r' terms edge h = record {
  terms = terms;
  path = step edge here;
  final = λ k. absurd (cc (h, k));
}

-- The refund under a number is there afterwards, as a later state.
abbrev pub Survives : Books → Books → ℕ → Refund → Type 0
Survives b b' i r = (r' : Refund) × (b'.refund i ≡ some r') × Becomes r r'

Survives-same :
    (b b' : Books) (i : ℕ) (r : Refund)
    → b'.refund i ≡ b.refund i
    → b.refund i ≡ some r
    → Survives b b' i r
Survives-same b b' i r same f = (r, same ∙ f, Becomes-refl r)

Survives-put :
    (b b' : Books) (i j : ℕ) (r old new : Refund)
    → b'.refund ≡ put b.refund j (some new)
    → b.refund j ≡ some old
    → Becomes old new
    → b.refund i ≡ some r
    → Survives b b' i r
Survives-put b b' i j r old new added g became f = elim (Bool-cases (i == j)) [
  | inl same ↦
      let at : i ≡ j = eq_of_== i j same in
      (
        new,
        rw (added, at) (put_self b.refund j (some new)),
        subst (λ x. Becomes x new) (cc (f, g, ap b.refund at)) became,
      )
  | inr other ↦
      Survives-same b b' i r
        (rw added (put_ne b.refund j i (some new) (ne_of_== j i (ground arith)))) f
]

Move-Survives :
    {env : Env} {a : Bool} (b b' : Books) (i : ℕ) (r : Refund)
    → Inv b
    → b.refund i ≡ some r
    → Move env a b b'
    → Survives b b' i r
Move-Survives b b' i r v f (settle j old new paid p) =
    Survives-put b b' i j r old new p.replaces.replaced p.replaces.found
      (Becomes-step old new p.replaces.terms (plain p.edge) (not-final-⟶ p.edge)) f
Move-Survives b b' i r v f (open_new new o) =
    Survives-same b b' i r (rw o.added (ground (arith, lt_counter b i r v f))) f
Move-Survives b b' i r v f (appeal j old new p) =
    Survives-put b b' i j r old new p.replaces.replaced p.replaces.found
      (Becomes-step old new p.replaces.terms (rw (p.was_rejected, p.appealed) appealed)
        (rw p.was_rejected refl))
      f
Move-Survives b b' i r v f (resolve j old new paid p) =
    Survives-put b b' i j r old new p.replaces.replaced p.replaces.found
      (Becomes-step old new p.replaces.terms
        (rw p.was_appealed (elim p.ended [ inl e ↦ rw e granted | inr e ↦ rw e dismissed ]))
        (rw p.was_appealed refl))
      f

Moves-Survives :
    {env : Env} {a : Bool} (b b' : Books) (i : ℕ) (r : Refund)
    → Inv b
    → b.refund i ≡ some r
    → Moves env a b b'
    → Survives b b' i r
Moves-Survives b b' i r v f (stay p q k) = Survives-same b b' i r (ap (λ g. g i) q) f
Moves-Survives b b' i r v f (one m) = Move-Survives b b' i r v f m
Moves-Survives b b' i r v f (both {m = m} first rest) =
    let (r1, f1, became) = Moves-Survives b m i r v f first in
    let (r2, f2, later) = Moves-Survives m b' i r1 (Moves-Inv v first) f1 rest in
    (r2, f2, Becomes-trans r r1 r2 became later)

transact-Survives :
    (env : Env) (payments : Payments) (c : Call) (w : World) (i : ℕ) (r : Refund)
    → SelfIsPassive env
    → Valid w
    → w.store.refund i ≡ some r
    → Survives (books w) (books (transact env payments c w)) i r
unfolding transact
transact-Survives env payments c w i r passive v f =
    elim (Outcome-cases (invoke payments c env w)) [
      | inl ((_, w'), h) ↦
          rw (transact, h)
            (Moves-Survives (books w) (books w') i r v.inv f (
              refund_call-Moves payments c env w w' passive v.running.initialized v.inv
                v.running.fee_bounded h))
      | inr (inl (x, h)) ↦ rw (transact, h) (r, f, Becomes-refl r)
      | inr (inr (x, h)) ↦ rw (transact, h) (r, f, Becomes-refl r)
    ]

-- In a valid contract, a refund that is stored is still stored under its number after any history
-- of transactions that the contract does not make itself, with the same payment, customer, merchant,
-- amount, token and time of request; its status has gone along the steps of its life only, and if it
-- was processed or cancelled before, nothing of it has changed.
pub refund_run-Survives :
    (self : ℕ) (history : List (Env × Payments × Call)) (w : World) (i : ℕ) (r : Refund)
    → AllAdmissible self history
    → Valid w
    → w.store.refund i ≡ some r
    → Survives (books w) (books (run history w)) i r
unfolding run
refund_run-Survives self [] w i r h v f = (r, f, Becomes-refl r)
refund_run-Survives self ((env, payments, c) ∷ rest) w i r (h, hs) v f =
    let (r1, f1, became) = transact-Survives env payments c w i r h.1 v f in
    let (r2, f2, later) =
      refund_run-Survives self rest (transact env payments c w) i r1 hs
        (refund_transact-Valid env payments c w h.1 v) f1 in
    (r2, f2, Becomes-trans r r1 r2 became later)
