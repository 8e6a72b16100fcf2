-- ===== src/Refund/Ledger.antt =====
-- What the refund contract (contracts/ahjoor-refund/src/lib.rs) promises, apart from how its code
-- does it: the books (the counter, the refunds and the token calls) and the moves they may make.
pub mod Invariant
use ahjoorxmr_contract.Base.{
  ◌⊎◌, is_some, ℕ, ◌+◌, ◌≡◌, ◌≢◌, Bool, true, false, Option, none, some, List, [], ◌∷◌, ◌++◌, ◌==◌,
  if◌then◌else◌, unwrap_or, put, ℤ, pos, ◌+ℤ◌, ◌≤ℤ◌, ◌<ℤ◌, sum_below,
}
use ahjoorxmr_contract.Host.{Env, TokenCall}
use ahjoorxmr_contract.Host.Tokens.{AllOut, total, holdings}
use ahjoorxmr_contract.Refund.Types.{RefundStatus, Refund}
use ahjoorxmr_contract.Refund.Events.{World}

pub record Books : Type 0 where
  pub counter : ℕ
  pub refund : ℕ → Option Refund
  pub calls : List TokenCall

abbrev pub books : World → Books
books w = record {
  counter = unwrap_or w.store.refund_counter 0;
  refund = w.store.refund;
  calls = w.calls;
}

-- The life of a refund without appeals.
infix 40 ◌⟶◌
pub data ◌⟶◌ : RefundStatus → RefundStatus → Type 0 where
  approve : RefundStatus.requested ⟶ RefundStatus.approved
  reject : RefundStatus.requested ⟶ RefundStatus.rejected
  cancel : RefundStatus.requested ⟶ RefundStatus.cancelled
  process : RefundStatus.approved ⟶ RefundStatus.processed
  auto_approve : RefundStatus.requested ⟶ RefundStatus.processed

-- What no call changes in a refund.
pub record SameTerms (r r' : Refund) : Type 0 where
  pub same_id : r'.id ≡ r.id
  pub same_payment : r'.payment_id ≡ r.payment_id
  pub same_customer : r'.customer ≡ r.customer
  pub same_merchant : r'.merchant ≡ r.merchant
  pub same_amount : r'.amount ≡ r.amount
  pub same_token : r'.token ≡ r.token
  pub same_requested_at : r'.requested_at ≡ r.requested_at

abbrev pub is_pending_status : RefundStatus → Bool
is_pending_status RefundStatus.requested = true
is_pending_status RefundStatus.approved = true
is_pending_status _ = false

-- The amount of a refund that is requested or approved.
abbrev pub pending_amount : Refund → ℤ
pending_amount r = if is_pending_status r.status then r.amount else pos 0

pub record Replaces (b b' : Books) (i : ℕ) (r r' : Refund) : Type 0 where
  pub found : b.refund i ≡ some r
  pub terms : SameTerms r r'
  pub counter_kept : b'.counter ≡ b.counter
  pub replaced : b'.refund ≡ put b.refund i (some r')

-- A step of a refund's life that pays out at most what was pending and is not any more.
pub record Settles (env : Env) (b b' : Books) (i : ℕ) (r r' : Refund) (paid : List TokenCall)
    : Type 0 where
  pub replaces : Replaces b b' i r r'
  pub edge : r.status ⟶ r'.status
  pub out : AllOut env.current_contract_address r.token paid
  pub conserved : total paid +ℤ pending_amount r' ≤ℤ pending_amount r
  pub made_calls : b'.calls ≡ paid ++ b.calls

-- Where a new refund comes from, with the token calls of the step that stores it: its customer asked
-- for it and pays in its whole amount; its merchant gives it and pays the whole amount to the
-- customer; or it is stored as processed for an escrow, with no token call.
pub data Arises (env : Env) (b b' : Books) (r : Refund) : Type 0 where
  asked_for :
      env.authorized r.customer ≡ true
      → is_pending_status r.status ≡ true
      → b'.calls
        ≡ TokenCall.transfer r.token r.customer env.current_contract_address r.amount ∷ b.calls
      → Arises env b b' r
  given :
      env.authorized r.merchant ≡ true
      → r.status ≡ RefundStatus.processed
      → b'.calls ≡ TokenCall.transfer r.token r.merchant r.customer r.amount ∷ b.calls
      → Arises env b b' r
  for_escrow :
      is_some r.escrow_id ≡ true
      → r.status ≡ RefundStatus.processed
      → b'.calls ≡ b.calls
      → Arises env b b' r

-- A new refund under the next number. What is pending of it has come in; the calls take nothing out
-- of the contract.
pub record Opens (env : Env) (b b' : Books) (r : Refund) : Type 0 where
  pub numbered : r.id ≡ b.counter
  pub positive : pos 0 <ℤ r.amount
  pub fresh_status : r.status ≢ RefundStatus.under_appeal
  pub counted : b'.counter ≡ b.counter + 1
  pub added : b'.refund ≡ put b.refund b.counter (some r)
  pub arises : Arises env b b' r
  pub funded :
      (t : ℕ)
      → holdings env.current_contract_address t b.calls
          +ℤ (if r.token == t then pending_amount r else pos 0)
        ≤ℤ holdings env.current_contract_address t b'.calls

-- The appeal against a rejection.
pub record Appeals (b b' : Books) (i : ℕ) (r r' : Refund) : Type 0 where
  pub replaces : Replaces b b' i r r'
  pub was_rejected : r.status ≡ RefundStatus.rejected
  pub appealed : r'.status ≡ RefundStatus.under_appeal
  pub no_calls : b'.calls ≡ b.calls

-- The end of an appeal: at most the amount is paid out.
pub record Resolves (env : Env) (b b' : Books) (i : ℕ) (r r' : Refund) (paid : List TokenCall)
    : Type 0 where
  pub replaces : Replaces b b' i r r'
  pub was_appealed : r.status ≡ RefundStatus.under_appeal
  pub ended : (r'.status ≡ RefundStatus.processed) ⊎ (r'.status ≡ RefundStatus.rejected)
  pub out : AllOut env.current_contract_address r.token paid
  pub at_most : total paid ≤ℤ r.amount
  pub made_calls : b'.calls ≡ paid ++ b.calls

-- A move; an appeal is a move only where the flag says so.
pub data Move (env : Env) : Bool → Books → Books → Type 0 where
  settle :
      {a : Bool} {b b' : Books} (i : ℕ) (r r' : Refund) (paid : List TokenCall)
      → Settles env b b' i r r' paid
      → Move env a b b'
  open_new : {a : Bool} {b b' : Books} (r : Refund) → Opens env b b' r → Move env a b b'
  appeal : {b b' : Books} (i : ℕ) (r r' : Refund) → Appeals b b' i r r' → Move env true b b'
  resolve :
      {a : Bool} {b b' : Books} (i : ℕ) (r r' : Refund) (paid : List TokenCall)
      → Resolves env b b' i r r' paid
      → Move env a b b'

-- The moves of one call.
pub data Moves (env : Env) (a : Bool) : Books → Books → Type 0 where
  stay :
      {b b' : Books}
      → b'.counter ≡ b.counter
      → b'.refund ≡ b.refund
      → b'.calls ≡ b.calls
      → Moves env a b b'
  one : {b b' : Books} → Move env a b b' → Moves env a b b'
  both : {b m b' : Books} → Moves env a b m → Moves env a m b' → Moves env a b b'
