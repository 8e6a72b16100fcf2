-- ===== src/Host.antt =====
-- The Soroban host as the contracts see it: the transaction's environment, the calls on token
-- contracts, and calls that panic and roll back. Shared by all contracts.
--
-- The host and the token contracts are not part of the repository. Who has authorised the
-- transaction, the time and whether a token contract accepts a call are fields of `Env`.
pub mod Tokens
pub mod Payouts
use ahjoorxmr_contract.Base.{
  ◌≢◌, ap, ◌≡◌, refl, ◌⊎◌, inl, inr, ℕ, Bool, true, false, List, ◌∷◌, Option, none, some,
  if◌then◌else◌, ℤ,
}

-- A call that a contract makes on a token contract (`token::Client`).
pub data TokenCall : Type 0 where
  -- token, from, to, amount
  transfer : ℕ → ℕ → ℕ → ℤ → TokenCall
  -- token, spender, from, to, amount
  transfer_from : ℕ → ℕ → ℕ → ℕ → ℤ → TokenCall
  -- token, from, spender, amount, expiration ledger
  approve : ℕ → ℕ → ℕ → ℤ → ℕ → TokenCall

-- Addresses and 32-byte hashes are only stored and compared, so they are numbers.
pub record Env : Type 0 where
  pub timestamp : ℕ
  pub sequence : ℕ
  pub current_contract_address : ℕ
  pub authorized : ℕ → Bool
  -- Whether the token contract accepts a call, after the calls made so far, newest first.
  pub token_accepts : List TokenCall → TokenCall → Bool

-- The contract's own address authorises no call.
abbrev pub SelfIsPassive : Env → Type 0
SelfIsPassive env = env.authorized env.current_contract_address ≡ false

pub outside_of_authorized :
    (env : Env) (a : ℕ)
    → SelfIsPassive env
    → env.authorized a ≡ true
    → a ≢ env.current_contract_address
outside_of_authorized env a passive h e = cc (ap env.authorized e)

-- The host's own reasons to end a call.
pub data Trap : Type 0 where
  unauthorized token_call_failed arithmetic_overflow : Trap

pub data Outcome (E A : Type 0) : Type 0 where
  ok : A → Outcome E A
  panic : E → Outcome E A
  trap : Trap → Outcome E A

pub Outcome-cases :
    {E A : Type 0} (o : Outcome E A)
    → ((a : A) × (o ≡ ok a)) ⊎ ((e : E) × (o ≡ panic e)) ⊎ ((t : Trap) × (o ≡ trap t))
Outcome-cases (ok a) = inl (a, refl)
Outcome-cases (panic e) = inr (inl (e, refl))
Outcome-cases (trap t) = inr (inr (t, refl))

-- A contract's storage, with what it has done outside: token calls, events and code updates, each
-- newest first.
pub record World (S V : Type 0) : Type 0 where
  pub store : S
  pub calls : List TokenCall
  pub events : List V
  pub code_updates : List ℕ

-- A contract call. A panic keeps nothing of the state: the host rolls the transaction back.
abbrev pub Action : Type 0 → Type 0 → Type 0 → Type 0 → Type 0
Action E S V A = Env → World S V → Outcome E (A × World S V)

infixl 5 ◌>>=◌ ◌>>◌
abbrev pub ◌>>=◌ : {E S V A B : Type 0} → Action E S V A → (A → Action E S V B) → Action E S V B
◌>>=◌ m f env w = elim (m env w) [ ok (a, w') ↦ f a env w' | panic e ↦ panic e | trap t ↦ trap t ]

abbrev pub ◌>>◌ : {E S V A B : Type 0} → Action E S V A → Action E S V B → Action E S V B
m >> k = m >>= λ _. k

-- The empty tuple of Rust.
abbrev pub ⊤ : Type 0
⊤ = Unit

module _ {E S V : Type 0} where
  abbrev pub pure : {A : Type 0} → A → Action E S V A
  pure a env w = ok (a, w)

  -- `if c { panic!(e) }`
  abbrev pub panic_if : Bool → E → Action E S V ⊤
  panic_if c e env w = if c then panic e else ok (tt, w)

  -- `panic!(e)`
  abbrev pub fail : {A : Type 0} → E → Action E S V A
  fail e env w = panic e

  -- `.expect(e)`
  abbrev pub expect : {A : Type 0} → Option A → E → Action E S V A
  expect (some a) e env w = ok (a, w)
  expect none e env w = panic e

  -- The value of a checked operation.
  abbrev pub checked : {A : Type 0} → Option A → Action E S V A
  checked (some a) env w = ok (a, w)
  checked none env w = trap arithmetic_overflow

  abbrev pub when : Bool → Action E S V ⊤ → Action E S V ⊤
  when true m = m
  when false m = pure tt

  abbrev pub gets : {A : Type 0} → (S → A) → Action E S V A
  gets f env w = ok (f w.store, w)

  abbrev pub modify : (S → S) → Action E S V ⊤
  modify f env w = ok (tt, record w { store = f w.store })

  abbrev pub emit : V → Action E S V ⊤
  emit v env w = ok (tt, record w { events = v ∷ w.events })

  -- `env.ledger().timestamp()`
  abbrev pub timestamp : Action E S V ℕ
  timestamp env w = ok (env.timestamp, w)

  -- `env.ledger().sequence()`
  abbrev pub sequence : Action E S V ℕ
  sequence env w = ok (env.sequence, w)

  -- `env.current_contract_address()`
  abbrev pub current_contract_address : Action E S V ℕ
  current_contract_address env w = ok (env.current_contract_address, w)

  -- `address.require_auth()`
  abbrev pub require_auth : ℕ → Action E S V ⊤
  require_auth a env w = if env.authorized a then ok (tt, w) else trap unauthorized

  -- A call on a token contract; one that is refused takes the whole transaction down.
  abbrev pub call_token : TokenCall → Action E S V ⊤
  call_token c env w =
      if env.token_accepts w.calls c
      then ok (tt, record w { calls = c ∷ w.calls })
      else trap token_call_failed

  -- `env.deployer().update_current_contract_wasm(hash)`
  abbrev pub update_current_contract_wasm : ℕ → Action E S V ⊤
  update_current_contract_wasm hash env w =
      ok (tt, record w { code_updates = hash ∷ w.code_updates })
