-- ===== src/Escrow/Ledger.antt =====
-- What the escrow contract promises about money, apart from how its code does it: the books (the
-- counter, the escrows and the token calls) and the moves that they may make.
pub mod Money
pub mod Invariant
use ahjoorxmr_contract.Base.{
  ℕ, suc, ◌≡◌, ◌≢◌, ◌⊎◌, Bool, true, false, Option, none, some, List, [], ◌∷◌, ◌++◌, ◌==◌,
  if◌then◌else◌, unwrap_or, put, ℤ, pos, ◌+ℤ◌, ◌-ℤ◌, ◌≤ℤ◌, ◌<ℤ◌, not, ◌+◌, ◌&&◌,
}
use ahjoorxmr_contract.Host.{Env, TokenCall}
use ahjoorxmr_contract.Host.Tokens.{AllOut, total}
use ahjoorxmr_contract.Escrow.Types.{EscrowStatus, Escrow, is_terminal_escrow_status}
use ahjoorxmr_contract.Escrow.Events.{World}

pub record Books : Type 0 where
  pub counter : ℕ
  pub escrow : ℕ → Option Escrow
  pub calls : List TokenCall

abbrev pub books : World → Books
books w = record {
  counter = unwrap_or w.store.escrow_counter 0;
  escrow = w.store.escrow;
  calls = w.calls;
}

-- The life of an escrow.
infix 40 ◌⟶◌
pub data ◌⟶◌ : EscrowStatus → EscrowStatus → Type 0 where
  release_active : EscrowStatus.active ⟶ EscrowStatus.released
  release_partial : EscrowStatus.partially_released ⟶ EscrowStatus.released
  refund_active : EscrowStatus.active ⟶ EscrowStatus.refunded
  refund_partial : EscrowStatus.partially_released ⟶ EscrowStatus.refunded
  part_active : EscrowStatus.active ⟶ EscrowStatus.partially_released
  part_again : EscrowStatus.partially_released ⟶ EscrowStatus.partially_released
  dispute_active : EscrowStatus.active ⟶ EscrowStatus.disputed
  dispute_partial : EscrowStatus.partially_released ⟶ EscrowStatus.disputed
  dispute_part_active : EscrowStatus.active ⟶ EscrowStatus.partially_disputed
  dispute_part_partial : EscrowStatus.partially_released ⟶ EscrowStatus.partially_disputed
  award_disputed : EscrowStatus.disputed ⟶ EscrowStatus.released
  award_partial : EscrowStatus.partially_disputed ⟶ EscrowStatus.released
  return_disputed : EscrowStatus.disputed ⟶ EscrowStatus.refunded
  return_partial : EscrowStatus.partially_disputed ⟶ EscrowStatus.refunded

-- What no call changes in an escrow.
pub record SameTerms (e e' : Escrow) : Type 0 where
  pub same_id : e'.id ≡ e.id
  pub same_token : e'.token ≡ e.token
  pub same_seller : e'.seller ≡ e.seller
  pub same_sellers : e'.sellers ≡ e.sellers
  pub same_arbiter : e'.arbiter ≡ e.arbiter
  pub same_created_at : e'.created_at ≡ e.created_at
  pub same_inactivity : e'.buyer_inactivity_release_seconds ≡ e.buyer_inactivity_release_seconds

-- What the contract still holds for an escrow.
unfoldable pub live_amount : Escrow → ℤ
unfolding is_terminal_escrow_status
live_amount e = if is_terminal_escrow_status e.status then pos 0 else e.amount

-- A payment by an escrow's buyer into the contract.
abbrev pub IsIn : ℕ → Escrow → TokenCall → Type 0
IsIn self e (TokenCall.transfer t from to x) =
    (t ≡ e.token) × (from ≡ e.buyer) × (to ≡ self) × (x ≡ e.amount)
IsIn self e (TokenCall.transfer_from t spender from to x) =
    (t ≡ e.token) × (from ≡ e.buyer) × (to ≡ self) × (x ≡ e.amount)
IsIn self e (TokenCall.approve _ _ _ _ _) = ⊥

abbrev pub IsApproval : TokenCall → Type 0
IsApproval (TokenCall.transfer _ _ _ _) = ⊥
IsApproval (TokenCall.transfer_from _ _ _ _ _) = ⊥
IsApproval (TokenCall.approve _ _ _ _ _) = Unit

abbrev pub bps_total : List (ℕ × ℕ) → ℕ
bps_total [] = 0
bps_total ((_, bps) ∷ rest) = bps + bps_total rest

abbrev pub first_address : List (ℕ × ℕ) → Option ℕ
first_address [] = none
first_address ((a, _) ∷ rest) = some a

-- One escrow replaced by a later state of it.
pub record Replaces (b b' : Books) (i : ℕ) (e e' : Escrow) : Type 0 where
  pub found : b.escrow i ≡ some e
  pub terms : SameTerms e e'
  pub counter_kept : b'.counter ≡ b.counter
  pub replaced : b'.escrow ≡ put b.escrow i (some e')

-- One of the escrow's parties has authorised the call.
abbrev pub Sanctioned : Env → Escrow → Type 0
Sanctioned env e =
    (a : ℕ) × (env.authorized a ≡ true) × ((a ≡ e.buyer) ⊎ (a ≡ e.seller) ⊎ (a ≡ e.arbiter))

-- A change that moves no money: the buyer, with its authorisation, may hand over
-- to somebody outside the contract.
pub record Amends (env : Env) (b b' : Books) (i : ℕ) (e e' : Escrow) : Type 0 where
  pub replaces : Replaces b b' i e e'
  pub same_status : e'.status ≡ e.status
  pub same_amount : e'.amount ≡ e.amount
  pub buyer_outside :
      (e'.buyer ≡ e.buyer)
      ⊎ ((e'.buyer ≢ env.current_contract_address) × (env.authorized e.buyer ≡ true))
  pub no_calls : b'.calls ≡ b.calls

-- A change of status that one of the parties has authorised, and that pays out exactly what the
-- contract no longer holds for the escrow.
pub record Settles (env : Env) (b b' : Books) (i : ℕ) (e e' : Escrow) (paid : List TokenCall)
    : Type 0 where
  pub replaces : Replaces b b' i e e'
  pub sanctioned : Sanctioned env e
  pub same_buyer : e'.buyer ≡ e.buyer
  pub edge : e.status ⟶ e'.status
  pub out : AllOut env.current_contract_address e.token paid
  pub conserved : total paid +ℤ live_amount e' ≡ e.amount
  pub funded : is_terminal_escrow_status e'.status ≡ false → pos 0 <ℤ e'.amount
  pub made_calls : b'.calls ≡ paid ++ b.calls

-- A new escrow under the next number, paid in full by a buyer who has authorised the call or who
-- is the buyer of an escrow that is renewed.
pub record Opens (env : Env) (b b' : Books) (e : Escrow) (c : TokenCall) : Type 0 where
  pub numbered : e.id ≡ b.counter
  pub fresh_status : e.status ≡ EscrowStatus.active
  pub funded : pos 0 <ℤ e.amount
  pub allocated : bps_total e.sellers ≡ 10000
  pub primary : first_address e.sellers ≡ some e.seller
  pub paid_in : IsIn env.current_contract_address e c
  pub counted : b'.counter ≡ b.counter + 1
  pub added : b'.escrow ≡ put b.escrow b.counter (some e)
  pub made_call : b'.calls ≡ c ∷ b.calls

pub data Move (env : Env) (b b' : Books) : Type 0 where
  consent :
      (c : TokenCall)
      → IsApproval c
      → b'.counter ≡ b.counter
      → b'.escrow ≡ b.escrow
      → b'.calls ≡ c ∷ b.calls
      → Move env b b'
  amend : (i : ℕ) (e e' : Escrow) → Amends env b b' i e e' → Move env b b'
  settle :
      (i : ℕ) (e e' : Escrow) (paid : List TokenCall) → Settles env b b' i e e' paid → Move env b b'
  open_new :
      (e : Escrow) (c : TokenCall)
      → env.authorized e.buyer ≡ true
      → Opens env b b' e c
      → Move env b b'
  renew_old :
      (i : ℕ) (old e : Escrow) (c : TokenCall)
      → b.escrow i ≡ some old
      → e.buyer ≡ old.buyer
      → Opens env b b' e c
      → Move env b b'

-- The moves of one call.
pub data Moves (env : Env) : Books → Books → Type 0 where
  stay :
      {b b' : Books}
      → b'.counter ≡ b.counter
      → b'.escrow ≡ b.escrow
      → b'.calls ≡ b.calls
      → Moves env b b'
  one : {b b' : Books} → Move env b b' → Moves env b b'
  both : {b m b' : Books} → Moves env b m → Moves env m b' → Moves env b b'
