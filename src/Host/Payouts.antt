-- ===== src/Host/Payouts.antt =====
-- Sequences of payments of one token out of a contract.
use ahjoorxmr_contract.Base.{
  ℕ, ◌+◌, ◌≡◌, refl, sym, ap, ◌∙◌, inl, inr, List, [], ◌∷◌, ◌++◌, ℤ, pos, pos-+ℤ, int_laws, arith,
  ltb, if◌then◌else◌, Bool-cases,
}
use mathlib.Core.List.{append_assoc}
use ahjoorxmr_contract.Host.{Env, World, TokenCall}
use ahjoorxmr_contract.Host.Tokens.{AllOut, total, total-append, AllOut-append}

-- The transfer of `x` from the contract to somebody; nothing is transferred where `x` is 0.
abbrev pub payout : (self token to x : ℕ) → List TokenCall
payout self token to x = if ltb 0 x then TokenCall.transfer token self to (pos x) ∷ [] else []

payout-Out :
    (self token to x : ℕ)
    → AllOut self token (payout self token to x) × (total (payout self token to x) ≡ pos x)
payout-Out self token to x = elim (Bool-cases (ltb 0 x)) [
  | inl some_x ↦ rw some_x (((refl, refl, omega arith), tt), omega int_laws)
  | inr no_x ↦ let zero_x : x ≡ 0 = ground arith in rw no_x (tt, ap pos (sym zero_x))
]

module _ {S V : Type 0} where
  -- A step of the contract that pays out `x` of a token, and changes no storage.
  pub record Pays (env : Env) (w w' : World S V) (token : ℕ) (x : ℤ) (paid : List TokenCall)
      : Type 0 where
    pub same_store : w'.store ≡ w.store
    pub paid_calls : w'.calls ≡ paid ++ w.calls
    pub all_out : AllOut env.current_contract_address token paid
    pub paid_total : total paid ≡ x

  pub Pays-none : (env : Env) (w : World S V) (token : ℕ) → Pays env w w token (pos 0) []
  Pays-none env w token = record {
    same_store = refl;
    paid_calls = refl;
    all_out = tt;
    paid_total = refl;
  }

  -- A payment, if there is something to pay, then others.
  pub Pays-first :
      (env : Env) (w w' : World S V) (token to x y : ℕ) (paid : List TokenCall)
      → let one = payout env.current_contract_address token to x in
        Pays env (record w { calls = one ++ w.calls }) w' token (pos y) paid
        → Pays env w w' token (pos (x + y)) (paid ++ one)
  Pays-first env w w' token to x y paid p =
      let one = payout env.current_contract_address token to x in
      let (out, sum) = payout-Out env.current_contract_address token to x in
      record {
        same_store = p.same_store;
        paid_calls = p.paid_calls ∙ sym (append_assoc paid one w.calls);
        all_out = AllOut-append env.current_contract_address token paid one p.all_out out;
        paid_total =
            rw (total-append paid one, p.paid_total, sum, ← pos-+ℤ) (omega (arith, int_laws));
      }

  -- Payments, then one more, if there is something left to pay.
  pub Pays-last :
      (env : Env) (w w1 : World S V) (token to x y : ℕ) (paid : List TokenCall)
      → Pays env w w1 token (pos y) paid
      → let one = payout env.current_contract_address token to x in
        Pays env w (record w1 { calls = one ++ w1.calls }) token (pos (x + y)) (one ++ paid)
  Pays-last env w w1 token to x y paid p =
      let one = payout env.current_contract_address token to x in
      let (out, sum) = payout-Out env.current_contract_address token to x in
      record {
        same_store = p.same_store;
        paid_calls = rw p.paid_calls (sym (append_assoc one paid w.calls));
        all_out = AllOut-append env.current_contract_address token one paid out p.all_out;
        paid_total = rw (total-append one paid, p.paid_total, sum) (pos-+ℤ x y);
      }
