-- ===== src/Refund/Solvency.antt =====
-- The money of the refund contract (contracts/ahjoor-refund/src/lib.rs) over whole histories of
-- transactions.
use ahjoorxmr_contract.Base.{
  ℕ, ◌≡◌, refl, sym, ap, inl, inr, false, List, [], ◌∷◌, Option, ◌≤ℤ◌, int_laws, subst, sum_below,
}
use ahjoorxmr_contract.Host.{SelfIsPassive, Env, ok, Outcome-cases}
use ahjoorxmr_contract.Host.Tokens.{holdings}
use ahjoorxmr_contract.Refund.Types.{Payments}
use ahjoorxmr_contract.Refund.Events.{World}
use ahjoorxmr_contract.Refund.Admin
use ahjoorxmr_contract.Refund.Entry.{Call, invoke, transact, run, genesis}
use ahjoorxmr_contract.Refund.Ledger.{books}
use ahjoorxmr_contract.Refund.Ledger.Invariant.{Inv, pending, Covered, Moves-Inv, Moves-Covered}
use ahjoorxmr_contract.Refund.Refinement.{is_appeal, refund_call-Moves}
use ahjoorxmr_contract.Refund.Sanction.{
  IsRunning, invoke-IsRunning, IsInitialized, initialize-IsInitialized,
}

-- What holds between two transactions of a contract that has been initialized.
pub record Valid (w : World) : Type 0 where
  pub inv : Inv (books w)
  pub running : IsRunning w

-- A transaction of the contract at the address `self`, which does not act by itself.
abbrev pub IsAdmissible : ℕ → Env → Type 0
IsAdmissible self env = (env.current_contract_address ≡ self) × SelfIsPassive env

abbrev pub AllAdmissible : ℕ → List (Env × Payments × Call) → Type 0
AllAdmissible self [] = Unit
AllAdmissible self ((env, payments, c) ∷ rest) = IsAdmissible self env × AllAdmissible self rest

abbrev pub NoAppeals : List (Env × Payments × Call) → Type 0
NoAppeals [] = Unit
NoAppeals ((env, payments, c) ∷ rest) = (is_appeal c ≡ false) × NoAppeals rest

invoke-Valid :
    (payments : Payments) (c : Call) (env : Env) (w w' : World)
    → SelfIsPassive env
    → Valid w
    → invoke payments c env w ≡ ok (tt, w')
    → Valid w'
invoke-Valid payments c env w w' passive v h = record {
  inv = Moves-Inv v.inv (
      refund_call-Moves payments c env w w' passive v.running.initialized v.inv
        v.running.fee_bounded h);
  running = invoke-IsRunning payments c env w w' v.running h;
}

-- A transaction that the contract does not make itself, successful or not, keeps the contract valid:
-- every stored refund stands under its number, below the counter, and is of a positive amount, the
-- admin is set and the fee is at most 200 basis points.
pub refund_transact-Valid :
    (env : Env) (payments : Payments) (c : Call) (w : World)
    → SelfIsPassive env
    → Valid w
    → Valid (transact env payments c w)
unfolding transact
refund_transact-Valid env payments c w passive v = elim (Outcome-cases (invoke payments c env w)) [
  | inl ((_, w'), e) ↦ rw (transact, e) (invoke-Valid payments c env w w' passive v e)
  | inr (inl (x, e)) ↦ rw (transact, e) v
  | inr (inr (x, e)) ↦ rw (transact, e) v
]

Covered-at :
    (self : ℕ) (env : Env) (w : World)
    → env.current_contract_address ≡ self
    → Covered self (books w)
    → Covered env.current_contract_address (books w)
Covered-at self env w here v = subst (λ (a : ℕ). Covered a (books w)) (sym here) v

transact-Covered :
    (self : ℕ) (env : Env) (payments : Payments) (c : Call) (w : World)
    → IsAdmissible self env
    → is_appeal c ≡ false
    → Valid w
    → Covered self (books w)
    → Covered self (books (transact env payments c w))
unfolding transact
transact-Covered self env payments c w (here, passive) calm v k =
    elim (Outcome-cases (invoke payments c env w)) [
      | inl ((_, w'), e) ↦
          let moves = rw calm at (
            refund_call-Moves payments c env w w' passive v.running.initialized v.inv
              v.running.fee_bounded e) in
          rw (transact, e)
            (subst (λ (a : ℕ). Covered a (books w')) here
              (Moves-Covered v.inv (Covered-at self env w here k) moves))
      | inr (inl (x, e)) ↦ rw (transact, e) k
      | inr (inr (x, e)) ↦ rw (transact, e) k
    ]

pub run-Valid :
    (self : ℕ) (history : List (Env × Payments × Call)) (w : World)
    → AllAdmissible self history
    → Valid w
    → Valid (run history w)
unfolding run
run-Valid self [] w h v = v
run-Valid self ((env, payments, c) ∷ rest) w (h, hs) v =
    run-Valid self rest (transact env payments c w) hs
      (refund_transact-Valid env payments c w h.1 v)

run-Covered :
    (self : ℕ) (history : List (Env × Payments × Call)) (w : World)
    → AllAdmissible self history
    → NoAppeals history
    → Valid w
    → Covered self (books w)
    → Covered self (books (run history w))
unfolding run
run-Covered self [] w h calm v k = k
run-Covered self ((env, payments, c) ∷ rest) w (h, hs) (calm, calms) v k =
    run-Covered self rest (transact env payments c w) hs calms
      (refund_transact-Valid env payments c w h.1 v)
      (transact-Covered self env payments c w h calm v k)

-- The storage after `initialize` is valid and owes nothing.
pub initialized-Valid : (w : World) → IsInitialized genesis w → Valid w
initialized-Valid w i = record {
  inv = record {
    fresh = λ j h. rw i.same_refunds refl;
    sound = λ j r f. absurd (cc (f, i.same_refunds, ap (λ g. g j) i.same_refunds));
  };
  running = i.running;
}

initialized-Covered : (self : ℕ) (w : World) → IsInitialized genesis w → Covered self (books w)
unfolding pending sum_below holdings
initialized-Covered self w i = record {
  covered = λ t. rw (i.counter, i.same_calls) (omega int_laws);
  unappealed = λ j r f. absurd (cc (f, ap (λ g. g j) i.same_refunds));
}

-- After `initialize` on the empty storage and any history of transactions without an appeal that
-- the contract does not make itself, for every token: the amounts of the refunds that are requested
-- or approved add up to no more than what the contract's token calls have brought in, less what they
-- have paid out.
pub run-covered :
    (self admin payment_contract window : ℕ) (escrow : Option ℕ) (fee_bps : ℕ)
    (recipient : Option ℕ) (reject_window appeal_window : ℕ) (tiers : Option (List (ℕ × ℕ)))
    (cooldown cancel_window : ℕ) (env : Env) (w : World) (history : List (Env × Payments × Call))
    (t : ℕ)
    → Admin.initialize admin payment_contract window escrow fee_bps recipient reject_window
        appeal_window tiers cooldown cancel_window env genesis
      ≡ ok (tt, w)
    → AllAdmissible self history
    → NoAppeals history
    → pending t (books (run history w)) ≤ℤ holdings self t (run history w).calls
run-covered self admin payment_contract window escrow fee_bps recipient reject_window appeal_window
      tiers cooldown cancel_window env w history t h ok_all calm =
    let i =
      initialize-IsInitialized admin payment_contract window escrow fee_bps recipient reject_window
        appeal_window tiers cooldown cancel_window env genesis w h in
    let c =
      run-Covered self history w ok_all calm (initialized-Valid w i)
        (initialized-Covered self w i) in
    c.covered t
