-- ===== src/Escrow/Solvency.antt =====
-- The money of the escrow contract (contracts/ahjoor-escrow/src/lib.rs) over whole histories of
-- transactions.
use ahjoorxmr_contract.Base.{
  sum_below, ℕ, ◌≤◌, ◌≡◌, refl, sym, inl, inr, List, [], ◌∷◌, ◌≤ℤ◌, arith, unwrap_or, subst,
}
use ahjoorxmr_contract.Host.{SelfIsPassive, Env, ok, Outcome-cases}
use ahjoorxmr_contract.Host.Tokens.{holdings}
use ahjoorxmr_contract.Escrow.Types.{max_protocol_fee_bps}
use ahjoorxmr_contract.Escrow.Events.{World}
use ahjoorxmr_contract.Escrow.Entry.{Call, invoke, transact, run, genesis}
use ahjoorxmr_contract.Escrow.Ledger.{books}
use ahjoorxmr_contract.Escrow.Ledger.Money.{owed}
use ahjoorxmr_contract.Escrow.Ledger.Invariant.{Inv, Moves-Inv}
use ahjoorxmr_contract.Escrow.Refinement.{StaysOutside, invoke-Moves}
use ahjoorxmr_contract.Escrow.Sanction.{invoke_fee_bounded}

-- What holds between two transactions.
pub record Valid (self : ℕ) (w : World) : Type 0 where
  pub inv : Inv self (books w)
  pub fee_bounded : unwrap_or w.store.protocol_fee_bps 0 ≤ max_protocol_fee_bps

-- A transaction of the contract at the address `self`, which does not act by itself and does not
-- become a buyer.
abbrev pub IsAdmissible : ℕ → Env → Call → Type 0
IsAdmissible self env c =
    (env.current_contract_address ≡ self) × SelfIsPassive env × StaysOutside env c

abbrev pub AllAdmissible : ℕ → List (Env × Call) → Type 0
AllAdmissible self [] = Unit
AllAdmissible self ((env, c) ∷ rest) = IsAdmissible self env c × AllAdmissible self rest

invoke-Valid :
    (c : Call) (env : Env) (w w' : World)
    → SelfIsPassive env
    → StaysOutside env c
    → Valid env.current_contract_address w
    → invoke c env w ≡ ok (tt, w')
    → Valid env.current_contract_address w'
invoke-Valid c env w w' passive outside v h = record {
  inv = Moves-Inv passive v.inv (invoke-Moves c env w w' v.inv v.fee_bounded outside h);
  fee_bounded = invoke_fee_bounded c env w w' v.fee_bounded h;
}

-- An admissible transaction, successful or not, keeps the contract valid: escrows are sound, what
-- is owed in each token is covered, and the fee is at most its maximum.
pub transact-Valid :
    (self : ℕ) (env : Env) (c : Call) (w : World)
    → IsAdmissible self env c
    → Valid self w
    → Valid self (transact env c w)
unfolding transact
transact-Valid self env c w (here, passive, outside) v = elim (Outcome-cases (invoke c env w)) [
  | inl ((_, w'), e) ↦
      rw (transact, e)
        (subst (λ (a : ℕ). Valid a w') here
          (invoke-Valid c env w w' passive outside (subst (λ (a : ℕ). Valid a w) (sym here) v) e))
  | inr (inl (x, e)) ↦ rw (transact, e) v
  | inr (inr (x, e)) ↦ rw (transact, e) v
]

pub run-Valid :
    (self : ℕ) (history : List (Env × Call)) (w : World)
    → AllAdmissible self history
    → Valid self w
    → Valid self (run history w)
unfolding run
run-Valid self [] w h v = v
run-Valid self ((env, c) ∷ rest) w (h, hs) v =
    run-Valid self rest (transact env c w) hs (transact-Valid self env c w h v)

pub genesis-Valid : (self : ℕ) → Valid self genesis
unfolding owed sum_below holdings
genesis-Valid self = record {
  inv = record { fresh = λ i h. refl; sound = λ i e f. absurd (cc f); covered = λ t. ground arith };
  fee_bounded = ground arith;
}

-- After any history of admissible transactions from the empty storage, for every token: the
-- amounts of the escrows that are not over add up to no more than what the contract's token calls
-- have brought in, less what they have paid out.
pub run-solvent :
    (self : ℕ) (history : List (Env × Call)) (t : ℕ)
    → AllAdmissible self history
    → owed t (books (run history genesis)) ≤ℤ holdings self t (run history genesis).calls
run-solvent self history t h = (run-Valid self history genesis h (genesis-Valid self)).inv.covered t
