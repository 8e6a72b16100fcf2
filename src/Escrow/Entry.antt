-- ===== src/Escrow/Entry.antt =====
-- The entry points of the escrow contract that may change state, as one type of calls, and the
-- transactions that make them: contracts/ahjoor-escrow/src/lib.rs, `impl AhjoorEscrowContract`.
use ahjoorxmr_contract.Base.{ℕ, ℤ, Bool, List, [], ◌∷◌, Option, none, String}
use ahjoorxmr_contract.Host.{⊤, ◌>>=◌, pure, ok, panic, trap, Env}
use ahjoorxmr_contract.Escrow.Types.{EscrowBatchConfig, EscrowTemplateConfig}
use ahjoorxmr_contract.Escrow.Events.{Action, World}
use ahjoorxmr_contract.Escrow.Admin
use ahjoorxmr_contract.Escrow.Create
use ahjoorxmr_contract.Escrow.Release
use ahjoorxmr_contract.Escrow.Disputes
use ahjoorxmr_contract.Escrow.Deadlines
use ahjoorxmr_contract.Escrow.Parties
use ahjoorxmr_contract.Escrow.Templates
use ahjoorxmr_contract.Escrow.Arbiters

-- The arguments of each entry point in the source's order.
pub data Call : Type 0 where
  initialize : ℕ → Call
  create_escrow :
      (buyer seller arbiter : ℕ) (amount : ℤ) (token deadline : ℕ) (metadata_hash : Option ℕ)
      (sellers : List (ℕ × ℕ)) (auto_renew : Bool) (renewal_count inactivity : ℕ)
      → Call
  create_escrows_batch : ℕ → List EscrowBatchConfig → Call
  create_escrow_w_timeout :
      (buyer seller arbiter : ℕ) (amount : ℤ) (token deadline : ℕ) (metadata_hash : Option ℕ)
      (sellers : List (ℕ × ℕ)) (renewal_count timeout : ℕ)
      → Call
  release_escrow : (caller id : ℕ) → Call
  submit_evidence : (party id hash uri_hash : ℕ) → Call
  set_renewal_allowance : (buyer id total_renewals : ℕ) → Call
  cancel_auto_renew : (buyer id : ℕ) → Call
  partial_release : (caller id : ℕ) (amount : ℤ) → Call
  dispute_escrow : (caller id : ℕ) (reason : String) (amount : ℤ) → Call
  resolve_dispute : (arbiter id : ℕ) (release_to_seller : Bool) → Call
  check_escalation : (id : ℕ) → Call
  update_default_dispute_timeout : (admin timeout : ℕ) → Call
  update_protocol_fee : (admin fee_bps fee_recipient : ℕ) → Call
  auto_release_expired : (id : ℕ) → Call
  propose_deadline_extension : (caller id new_deadline : ℕ) → Call
  accept_deadline_extension : (caller id : ℕ) → Call
  transfer_buyer_role : (current_buyer id new_buyer : ℕ) → Call
  update_metadata : (caller id new_hash : ℕ) → Call
  upgrade : (admin new_wasm_hash : ℕ) → Call
  migrate : (admin : ℕ) → Call
  get_version : Call
  pause_contract : (admin : ℕ) (reason : String) → Call
  resume_contract : (admin : ℕ) → Call
  add_allowed_token : (admin token : ℕ) → Call
  remove_allowed_token : (admin token : ℕ) → Call
  create_escrow_template : (creator : ℕ) → EscrowTemplateConfig → Call
  create_escrow_from_template : (buyer seller template_id : ℕ) (amount : ℤ) → Call
  add_arbiter : (admin arbiter : ℕ) → Call
  remove_arbiter : (admin arbiter : ℕ) → List ℕ → Call
  create_escrow_with_pool_arbiter : (buyer seller : ℕ) (amount : ℤ) (token deadline : ℕ) → Call
  update_escrow_template : (creator template_id : ℕ) → EscrowTemplateConfig → Call
  deactivate_escrow_template : (creator template_id : ℕ) → Call
  claim_inactivity_release : (seller id : ℕ) → Call

-- The result of a call is not used.
abbrev pub void : {A : Type 0} → Action A → Action ⊤
void m = m >>= λ _. pure tt

unfoldable pub invoke : Call → Action ⊤
invoke (initialize admin) = Admin.initialize admin
invoke
      (create_escrow buyer seller arbiter amount token deadline metadata_hash sellers auto_renew
        renewal_count inactivity) =
    void (
      Create.create_escrow buyer seller arbiter amount token deadline metadata_hash sellers
        auto_renew renewal_count inactivity)
invoke (create_escrows_batch buyer configs) = void (Create.create_escrows_batch buyer configs)
invoke
      (create_escrow_w_timeout buyer seller arbiter amount token deadline metadata_hash sellers
        renewal_count timeout) =
    void (
      Create.create_escrow_w_timeout buyer seller arbiter amount token deadline metadata_hash
        sellers renewal_count timeout)
invoke (release_escrow caller id) = Release.release_escrow caller id
invoke (submit_evidence party id hash uri_hash) = Parties.submit_evidence party id hash uri_hash
invoke (set_renewal_allowance buyer id total) = Parties.set_renewal_allowance buyer id total
invoke (cancel_auto_renew buyer id) = Parties.cancel_auto_renew buyer id
invoke (partial_release caller id amount) = Release.partial_release caller id amount
invoke (dispute_escrow caller id reason amount) = Disputes.dispute_escrow caller id reason amount
invoke (resolve_dispute arbiter id to_seller) = Disputes.resolve_dispute arbiter id to_seller
invoke (check_escalation id) = void (Disputes.check_escalation id)
invoke (update_default_dispute_timeout admin timeout) =
    Admin.update_default_dispute_timeout admin timeout
invoke (update_protocol_fee admin bps recipient) = Admin.update_protocol_fee admin bps recipient
invoke (auto_release_expired id) = Release.auto_release_expired id
invoke (propose_deadline_extension caller id new_deadline) =
    Deadlines.propose_deadline_extension caller id new_deadline
invoke (accept_deadline_extension caller id) = Deadlines.accept_deadline_extension caller id
invoke (transfer_buyer_role current id new_buyer) = Parties.transfer_buyer_role current id new_buyer
invoke (update_metadata caller id new_hash) = Parties.update_metadata caller id new_hash
invoke (upgrade admin hash) = Admin.upgrade admin hash
invoke (migrate admin) = Admin.migrate admin
invoke get_version = void Admin.get_version
invoke (pause_contract admin reason) = Admin.pause_contract admin reason
invoke (resume_contract admin) = Admin.resume_contract admin
invoke (add_allowed_token admin token) = Admin.add_allowed_token admin token
invoke (remove_allowed_token admin token) = Admin.remove_allowed_token admin token
invoke (create_escrow_template creator config) =
    void (Templates.create_escrow_template creator config)
invoke (create_escrow_from_template buyer seller template_id amount) =
    void (Templates.create_escrow_from_template buyer seller template_id amount)
invoke (add_arbiter admin arbiter) = Arbiters.add_arbiter admin arbiter
invoke (remove_arbiter admin arbiter ids) = Arbiters.remove_arbiter admin arbiter ids
invoke (create_escrow_with_pool_arbiter buyer seller amount token deadline) =
    void (Arbiters.create_escrow_with_pool_arbiter buyer seller amount token deadline)
invoke (update_escrow_template creator id config) =
    Templates.update_escrow_template creator id config
invoke (deactivate_escrow_template creator id) = Templates.deactivate_escrow_template creator id
invoke (claim_inactivity_release seller id) = Release.claim_inactivity_release seller id

-- A transaction: a call that ends in a panic or a trap leaves the state as it was.
unfoldable pub transact : Env → Call → World → World
transact env c w = elim (invoke c env w) [ ok (_, w') ↦ w' | panic _ ↦ w | trap _ ↦ w ]

-- A history, the first transaction at the head of the list.
unfoldable pub run : List (Env × Call) → World → World
run [] w = w
run ((env, c) ∷ rest) w = run rest (transact env c w)

-- The storage before anything has happened.
abbrev pub genesis : World
genesis = record {
  store = record {
    admin = none;
    contract_version = none;
    migration_completed = λ _. none;
    paused = none;
    pause_reason = none;
    escrow_counter = none;
    escrow = λ _. none;
    dispute = λ _. none;
    deadline_proposal = λ _. none;
    allowed_token = λ _. none;
    protocol_fee_bps = none;
    fee_recipient = none;
    template_counter = none;
    template = λ _. none;
    arbiter_pool = none;
    next_arbiter_index = none;
    arbiter_needs_replacement = λ _. none;
    escrow_metadata = λ _. none;
    evidence = λ _ _. none;
    renewal_allowance = λ _. none;
    default_dispute_timeout = none;
    last_buyer_action = λ _. none;
  };
  calls = [];
  events = [];
  code_updates = [];
}
