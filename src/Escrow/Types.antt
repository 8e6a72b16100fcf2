-- ===== src/Escrow/Types.antt =====
-- The data of the escrow contract: contracts/ahjoor-escrow/src/lib.rs, lines 1 to 132, with the
-- messages of its panics. The fields keep the source's machine integers: `u32` and `u64` as ℕ,
-- `i128` as ℤ.
use ahjoorxmr_contract.Base.{ℕ, ℤ, Bool, true, false, List, Option, String}

pub data EscrowStatus : Type 0 where
  active released disputed resolved refunded partially_released partially_disputed : EscrowStatus

pub record Escrow : Type 0 where
  pub id : ℕ
  pub buyer : ℕ
  pub seller : ℕ
  pub arbiter : ℕ
  pub amount : ℤ
  pub token : ℕ
  pub status : EscrowStatus
  pub created_at : ℕ
  pub deadline : ℕ
  pub metadata_hash : Option ℕ
  pub sellers : List (ℕ × ℕ)  -- address, basis points
  pub auto_renew : Bool
  pub renewal_count : ℕ
  pub renewals_remaining : ℕ
  pub dispute_timeout_seconds : Option ℕ
  pub buyer_inactivity_release_seconds : ℕ

pub record EvidenceSubmission : Type 0 where
  pub evidence_hash : ℕ
  pub evidence_uri_hash : ℕ
  pub submitted_at : ℕ

pub record Dispute : Type 0 where
  pub escrow_id : ℕ
  pub reason : String
  pub created_at : ℕ
  pub resolved : Bool
  pub dispute_amount : ℤ
  pub timeout_seconds : Option ℕ

pub record DeadlineProposal : Type 0 where
  pub proposer : ℕ
  pub new_deadline : ℕ
  pub proposed_at : ℕ

pub record EscrowTemplateConfig : Type 0 where
  pub arbiter : ℕ
  pub token : ℕ
  pub deadline_duration : ℕ

pub record EscrowTemplate : Type 0 where
  pub id : ℕ
  pub creator : ℕ
  pub config : EscrowTemplateConfig
  pub active : Bool

pub record EscrowBatchConfig : Type 0 where
  pub seller : ℕ
  pub arbiter : ℕ
  pub amount : ℤ
  pub token : ℕ
  pub deadline : ℕ
  pub metadata_hash : Option ℕ
  pub sellers : List (ℕ × ℕ)
  pub auto_renew : Bool
  pub renewal_count : ℕ

-- The contract's storage: one field for each constructor of `DataKey`. A key with an argument is a
-- function; an entry that is not there is `none`.
pub record Store : Type 0 where
  pub admin : Option ℕ
  pub contract_version : Option ℕ
  pub migration_completed : ℕ → Option Bool
  pub paused : Option Bool
  pub pause_reason : Option String
  pub escrow_counter : Option ℕ
  pub escrow : ℕ → Option Escrow
  pub dispute : ℕ → Option Dispute
  pub deadline_proposal : ℕ → Option DeadlineProposal
  pub allowed_token : ℕ → Option Bool
  pub protocol_fee_bps : Option ℕ
  pub fee_recipient : Option ℕ
  pub template_counter : Option ℕ
  pub template : ℕ → Option EscrowTemplate
  pub arbiter_pool : Option (List ℕ)
  pub next_arbiter_index : Option ℕ
  pub arbiter_needs_replacement : ℕ → Option Bool
  pub escrow_metadata : ℕ → Option (ℕ × ℕ)
  pub evidence : ℕ → ℕ → Option (List EvidenceSubmission)
  pub renewal_allowance : ℕ → Option ℕ
  pub default_dispute_timeout : Option ℕ
  pub last_buyer_action : ℕ → Option ℕ

abbrev pub deadline_extension_proposal_window : ℕ
deadline_extension_proposal_window = 86400

abbrev pub max_evidence_entries_per_party : ℕ
max_evidence_entries_per_party = 5

abbrev pub default_dispute_timeout_seconds : ℕ
default_dispute_timeout_seconds = 604800

abbrev pub max_batch_escrows : ℕ
max_batch_escrows = 10

abbrev pub max_protocol_fee_bps : ℕ
max_protocol_fee_bps = 200

-- The reasons of `panic!` and `expect`, in the order in which the source first has them. Messages
-- that name the same reason at different entry points share a constructor.
pub data Error : Type 0 where
  already_initialized batch_empty batch_too_large escrow_amount_not_positive : Error
  deadline_not_in_future token_not_allowed too_many_sellers allocations_not_10000_bps : Error
  timeout_not_positive escrow_not_found escrow_not_active not_buyer_or_arbiter : Error
  not_buyer_or_seller too_many_evidence_entries not_buyer auto_renew_not_enabled : Error
  release_amount_not_positive release_amount_exceeds_balance bad_dispute_amount : Error
  not_disputed not_arbiter fee_recipient_not_set dispute_not_found fee_too_high : Error
  not_expired_yet escrow_is_disputed deadline_not_greater no_proposal own_proposal : Error
  proposal_expired same_buyer not_initialized not_admin version_overflow : Error
  migration_already_completed already_paused not_paused duration_not_positive : Error
  template_not_found template_inactive arbiter_already_in_pool arbiter_pool_empty : Error
  arbiter_not_in_pool not_template_creator inactivity_release_disabled not_seller : Error
  inactivity_window_not_elapsed contract_is_paused admin_not_set insufficient_renewal_allowance :
      Error
  renewal_duration_not_positive index_out_of_bounds : Error

unfoldable pub is_open_escrow_status : EscrowStatus → Bool
is_open_escrow_status EscrowStatus.active = true
is_open_escrow_status EscrowStatus.partially_released = true
is_open_escrow_status _ = false

unfoldable pub is_terminal_escrow_status : EscrowStatus → Bool
is_terminal_escrow_status EscrowStatus.released = true
is_terminal_escrow_status EscrowStatus.resolved = true
is_terminal_escrow_status EscrowStatus.refunded = true
is_terminal_escrow_status _ = false

-- `status == Disputed`
unfoldable pub is_disputed_status : EscrowStatus → Bool
is_disputed_status EscrowStatus.disputed = true
is_disputed_status _ = false

-- `status == PartiallyDisputed`
unfoldable pub is_partially_disputed_status : EscrowStatus → Bool
is_partially_disputed_status EscrowStatus.partially_disputed = true
is_partially_disputed_status _ = false

-- `status == Active`
unfoldable pub is_active_status : EscrowStatus → Bool
is_active_status EscrowStatus.active = true
is_active_status _ = false
