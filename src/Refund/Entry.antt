-- ===== src/Refund/Entry.antt =====
-- The entry points of the refund contract that may change state, as one type of calls, and the
-- transactions that make them: contracts/ahjoor-refund/src/lib.rs, `impl AhjoorRefundContract`.
use ahjoorxmr_contract.Base.{ℕ, ℤ, Bool, List, [], ◌∷◌, Option, none, String}
use ahjoorxmr_contract.Host.{⊤, ◌>>=◌, pure, ok, panic, trap, Env}
use ahjoorxmr_contract.Refund.Types.{Payments}
use ahjoorxmr_contract.Refund.Events.{Action, World}
use ahjoorxmr_contract.Refund.Admin
use ahjoorxmr_contract.Refund.Request
use ahjoorxmr_contract.Refund.Decide
use ahjoorxmr_contract.Refund.Process

-- The arguments of each entry point in the source's order.
pub data Call : Type 0 where
  initialize :
      (admin payment_contract dispute_window : ℕ) (escrow_contract : Option ℕ) (refund_fee_bps : ℕ)
      (fee_recipient : Option ℕ) (auto_reject_window_seconds appeal_window_seconds : ℕ)
      (refund_tiers : Option (List (ℕ × ℕ)))
      (refund_cooldown_seconds customer_cancel_window_seconds : ℕ)
      → Call
  request_refund : (customer payment_id : ℕ) (amount : ℤ) (reason : String) (reason_code : ℕ) → Call
  approve_refund : (admin refund_id : ℕ) → Call
  reject_refund : (admin refund_id : ℕ) (rejection_reason : String) → Call
  process_refund : (admin refund_id : ℕ) → Call
  -- with the two fields that `merchant_record` takes
  merchant_refund :
      (merchant payment_id : ℕ) (amount : ℤ) (reason_code stored_code : ℕ)
      (stored_rejection : Option ℕ)
      → Call
  bulk_process_refunds : (admin : ℕ) → List ℕ → Call
  set_refund_tiers : (admin : ℕ) → List (ℕ × ℕ) → Call
  auto_approve_refund : (refund_id : ℕ) → Call
  add_to_auto_approve : (admin merchant : ℕ) → Call
  remove_from_auto_approve : (admin merchant : ℕ) → Call
  waive_cooldown : (admin customer : ℕ) → Call
  add_delegate : (merchant delegate : ℕ) → Call
  remove_delegate : (merchant delegate : ℕ) → Call
  cancel_refund_request : (customer refund_id : ℕ) → Call
  auto_cancel_expired_request : (refund_id : ℕ) → Call
  auto_reject_stale_refund : (refund_id : ℕ) → Call
  extend_refund_deadline : (admin refund_id extra_seconds : ℕ) → Call
  appeal_refund : (customer refund_id : ℕ) → Call
  resolve_appeal : (admin refund_id : ℕ) (approve : Bool) → Call
  register_escrow_refund : (escrow_id buyer : ℕ) (amount : ℤ) (token : ℕ) → Call
  update_refund_fee : (admin new_fee_bps : ℕ) → Call
  upgrade : (admin new_wasm_hash : ℕ) → Call
  migrate : (admin : ℕ) → Call
  get_version : Call
  pause_contract : (admin : ℕ) (reason : String) → Call
  resume_contract : (admin : ℕ) → Call

-- The result of a call is not used.
abbrev pub void : {A : Type 0} → Action A → Action ⊤
void m = m >>= λ _. pure tt

unfoldable pub invoke : Payments → Call → Action ⊤
invoke payments
      (initialize admin payment_contract dispute_window escrow_contract refund_fee_bps fee_recipient
        auto_reject_window_seconds appeal_window_seconds refund_tiers refund_cooldown_seconds
        customer_cancel_window_seconds) =
    Admin.initialize admin payment_contract dispute_window escrow_contract refund_fee_bps
      fee_recipient auto_reject_window_seconds appeal_window_seconds refund_tiers
      refund_cooldown_seconds customer_cancel_window_seconds
invoke payments (request_refund customer payment_id amount reason reason_code) =
    void (Request.request_refund payments customer payment_id amount reason reason_code)
invoke payments (approve_refund admin id) = Decide.approve_refund admin id
invoke payments (reject_refund admin id reason) = Decide.reject_refund admin id reason
invoke payments (process_refund admin id) = Process.process_refund payments admin id
invoke payments (merchant_refund merchant payment_id amount code stored_code stored_rejection) =
    void (
      Process.merchant_refund payments merchant payment_id amount code stored_code stored_rejection)
invoke payments (bulk_process_refunds admin ids) = Process.bulk_process_refunds payments admin ids
invoke payments (set_refund_tiers admin tiers) = Admin.set_refund_tiers admin tiers
invoke payments (auto_approve_refund id) = Process.auto_approve_refund id
invoke payments (add_to_auto_approve admin merchant) = Admin.add_to_auto_approve admin merchant
invoke payments (remove_from_auto_approve admin merchant) =
    Admin.remove_from_auto_approve admin merchant
invoke payments (waive_cooldown admin customer) = Admin.waive_cooldown admin customer
invoke payments (add_delegate merchant delegate) = Admin.add_delegate merchant delegate
invoke payments (remove_delegate merchant delegate) = Admin.remove_delegate merchant delegate
invoke payments (cancel_refund_request customer id) = Decide.cancel_refund_request customer id
invoke payments (auto_cancel_expired_request id) = Decide.auto_cancel_expired_request id
invoke payments (auto_reject_stale_refund id) = Decide.auto_reject_stale_refund id
invoke payments (extend_refund_deadline admin id extra) =
    Decide.extend_refund_deadline admin id extra
invoke payments (appeal_refund customer id) = Decide.appeal_refund customer id
invoke payments (resolve_appeal admin id approve) = Process.resolve_appeal admin id approve
invoke payments (register_escrow_refund escrow_id buyer amount token) =
    void (Process.register_escrow_refund escrow_id buyer amount token)
invoke payments (update_refund_fee admin bps) = Admin.update_refund_fee admin bps
invoke payments (upgrade admin hash) = Admin.upgrade admin hash
invoke payments (migrate admin) = Admin.migrate admin
invoke payments get_version = void Admin.get_version
invoke payments (pause_contract admin reason) = Admin.pause_contract admin reason
invoke payments (resume_contract admin) = Admin.resume_contract admin

-- A transaction: a call that ends in a panic or a trap leaves the state as it was.
unfoldable pub transact : Env → Payments → Call → World → World
transact env payments c w = elim (invoke payments c env w) [
  | ok (_, w') ↦ w'
  | panic _ ↦ w
  | trap _ ↦ w
]

-- A history, the first transaction at the head of the list.
unfoldable pub run : List (Env × Payments × Call) → World → World
run [] w = w
run ((env, payments, c) ∷ rest) w = run rest (transact env payments c w)

-- The storage before anything has happened.
abbrev pub genesis : World
genesis = record {
  store = record {
    admin = none;
    paused = none;
    pause_reason = none;
    refund_counter = none;
    contract_version = none;
    migration_completed = λ _. none;
    refund = λ _. none;
    payment_contract_address = none;
    customer_refunds = λ _. none;
    merchant_refunds = λ _. none;
    payment_refunds = λ _. none;
    dispute_window = none;
    refunded_amount = λ _. none;
    auto_approved_merchants = none;
    escrow_contract_address = none;
    global_refund_stats = none;
    merchant_refund_stats = λ _. none;
    refund_fee_bps = none;
    fee_recipient = none;
    reason_code_refunds = λ _ _. none;
    reason_code_count = λ _ _. none;
    auto_reject_window = none;
    refund_deadline_extension = λ _. none;
    appeal_window = none;
    pending_refund_queue = none;
    refund_tiers = none;
    refund_cooldown = none;
    last_refund_request = λ _. none;
    merchant_delegates = λ _. none;
    customer_cancel_window = none;
  };
  calls = [];
  events = [];
  code_updates = [];
}
