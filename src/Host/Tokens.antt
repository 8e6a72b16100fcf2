-- ===== src/Host/Tokens.antt =====
-- The tokens that a contract has received and paid out, by the token calls that it has made.
use ahjoorxmr_contract.Base.{
  ℕ, ◌≡◌, inl, inr, List, [], ◌∷◌, ◌++◌, ◌==◌, if◌then◌else◌, ℤ, pos, ◌+ℤ◌, ◌-ℤ◌, ◌≤ℤ◌, int_laws,
  Bool-cases,
}
use ahjoorxmr_contract.Host.{TokenCall}

-- A transfer of a token out of the contract.
abbrev pub IsOut : ℕ → ℕ → TokenCall → Type 0
IsOut self token (TokenCall.transfer t from to x) = (t ≡ token) × (from ≡ self) × (pos 0 ≤ℤ x)
IsOut self token (TokenCall.transfer_from _ _ _ _ _) = ⊥
IsOut self token (TokenCall.approve _ _ _ _ _) = ⊥

abbrev pub AllOut : ℕ → ℕ → List TokenCall → Type 0
AllOut self token [] = Unit
AllOut self token (c ∷ cs) = IsOut self token c × AllOut self token cs

abbrev pub call_amount : TokenCall → ℤ
call_amount (TokenCall.transfer _ _ _ x) = x
call_amount (TokenCall.transfer_from _ _ _ _ x) = x
call_amount (TokenCall.approve _ _ _ _ _) = pos 0

abbrev pub total : List TokenCall → ℤ
total [] = pos 0
total (c ∷ cs) = call_amount c +ℤ total cs

-- What a transfer of `x` from `from` to `to` adds to the tokens of `self`.
abbrev pub net_transfer : ℕ → ℕ → ℕ → ℤ → ℤ
net_transfer self from to x =
    (if to == self then x else pos 0) -ℤ (if from == self then x else pos 0)

-- What a call adds to the tokens `t` of `self`.
abbrev pub net_call : ℕ → ℕ → TokenCall → ℤ
net_call self t (TokenCall.transfer tok from to x) =
    if tok == t then net_transfer self from to x else pos 0
net_call self t (TokenCall.transfer_from tok spender from to x) =
    if tok == t then net_transfer self from to x else pos 0
net_call self t (TokenCall.approve _ _ _ _ _) = pos 0

-- The tokens `t` that the calls have brought to `self`, less those that they have taken.
unfoldable pub holdings : ℕ → ℕ → List TokenCall → ℤ
holdings self t [] = pos 0
holdings self t (c ∷ cs) = net_call self t c +ℤ holdings self t cs

net_transfer-out :
    (self from to : ℕ) (x : ℤ)
    → from ≡ self
    → pos 0 ≤ℤ x
    → pos 0 ≤ℤ net_transfer self from to x +ℤ x
net_transfer-out self from to x e h = elim (Bool-cases (to == self)) [
  | inl back ↦ grind int_laws
  | inr away ↦ grind int_laws
]

-- Payments out of the contract take at most their total, and nothing of another token.
pub holdings-out :
    (self token t : ℕ) (paid cs : List TokenCall)
    → AllOut self token paid
    → holdings self t cs
      ≤ℤ holdings self t (paid ++ cs) +ℤ (if token == t then total paid else pos 0)
unfolding holdings
holdings-out self token t [] cs h = elim (Bool-cases (token == t)) [
  | inl hit ↦ rw hit (omega int_laws)
  | inr miss ↦ rw miss (omega int_laws)
]
holdings-out self token t (TokenCall.transfer tok from to x ∷ paid) cs h =
    elim (Bool-cases (token == t)) [
      | inl hit ↦
          rw (h.0.0, hit)
            (let ih = holdings-out self token t paid cs h.1 in
              omega (int_laws, net_transfer-out self from to x h.0.1 h.0.2, rw hit at ih))
      | inr miss ↦
          rw (h.0.0, miss)
            (let ih = holdings-out self token t paid cs h.1 in omega (int_laws, rw miss at ih))
    ]
holdings-out self token t (TokenCall.transfer_from _ _ _ _ _ ∷ paid) cs h = absurd h.0
holdings-out self token t (TokenCall.approve _ _ _ _ _ ∷ paid) cs h = absurd h.0

pub total-append : (ps qs : List TokenCall) → total (ps ++ qs) ≡ total ps +ℤ total qs
total-append [] qs = omega int_laws
total-append (c ∷ ps) qs = rw (total-append ps qs) (omega int_laws)

pub AllOut-append :
    (self token : ℕ) (ps qs : List TokenCall)
    → AllOut self token ps
    → AllOut self token qs
    → AllOut self token (ps ++ qs)
AllOut-append self token [] qs h k = k
AllOut-append self token (c ∷ ps) qs h k = (h.0, AllOut-append self token ps qs h.1 k)
