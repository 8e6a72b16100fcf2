-- ===== src/Escrow/Ledger/Money.antt =====
-- The tokens that the contract has received and paid out, and what it owes.
use ahjoorxmr_contract.Base.{
  sum_below, ◌≢◌, ℕ, ◌≡◌, Option, none, some, ◌==◌, if◌then◌else◌, ℤ, pos, int_laws,
}
use ahjoorxmr_contract.Host.{TokenCall}
use ahjoorxmr_contract.Host.Tokens.{net_call}
use ahjoorxmr_contract.Escrow.Types.{Escrow}
use ahjoorxmr_contract.Escrow.Ledger.{Books, live_amount, IsIn}

-- What an entry of the storage binds the contract to pay in the token `t`.
unfoldable pub claim : ℕ → Option Escrow → ℤ
claim t none = pos 0
claim t (some e) = if e.token == t then live_amount e else pos 0

-- All that the contract owes in a token.
unfoldable pub owed : ℕ → Books → ℤ
owed t b = sum_below (claim t) b.counter b.escrow

-- A payment by a buyer outside the contract brings in what the contract then owes.
pub net_call-in :
    (self t : ℕ) (e : Escrow) (c : TokenCall)
    → IsIn self e c
    → e.buyer ≢ self
    → net_call self t c ≡ (if e.token == t then e.amount else pos 0)
net_call-in self t e (TokenCall.transfer tok from to x) (ht, hf, hto, hx) ne =
    grind (int_laws, ht, hf, hto, hx)
net_call-in self t e (TokenCall.transfer_from tok spender from to x) (ht, hf, hto, hx) ne =
    grind (int_laws, ht, hf, hto, hx)
net_call-in self t e (TokenCall.approve _ _ _ _ _) h ne = absurd h
