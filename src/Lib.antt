-- ===== src/Lib.antt =====
-- Verification of the Ahjoor contracts: the Soroban smart contracts under contracts/.
--
-- The repository has four contracts. The escrow contract, contracts/ahjoor-escrow/src, and the
-- refund contract, contracts/ahjoor-refund/src, are modelled in whole, the payments contract,
-- contracts/ahjoor-payments/src, in part; the ROSCA contract is not modelled. Each contract keeps
-- its own storage and calls token contracts; the refund contract also reads the payments of a
-- payments contract.
--
-- Base: lists, options, tests, sums, integers and maps. `u32` and `u64` are ℕ and `i128` is ℤ, with
-- the bounds checked where the source computes: the build has overflow checks on, so an overflow ends
-- the call (`checked`). Amounts are in ℤ, since the source tests their sign.
-- Host: what all contracts share. `Env` has the time, the address of the contract, who has
-- authorised the transaction and which token calls the token contracts accept; these are parameters,
-- since the host and the tokens are not in the repository. A `World` is the storage with the token
-- calls, the events and the code updates so far. An `Action` is a contract call: it gives a result
-- and the next world, or panics, or is ended by the host, and then nothing is kept (`transact`).
-- Host/Tokens counts what a contract has received and paid out by its token calls; Host/Payouts is
-- about sequences of payments out of a contract.
--
-- Escrow: contracts/ahjoor-escrow/src/lib.rs and events.rs, function by function under their names.
--   Types, Events: the contract types, `DataKey` as the record `Store`, and the events.
--   Admin: `initialize`, `upgrade`, `migrate`, the pause, the token allowlist and the fee.
--   Create: `create_escrow`, `create_escrows_batch`, `create_escrow_w_timeout`, `next_escrow_id`.
--   Release: `release_escrow`, `partial_release`, `auto_release_expired`,
--     `claim_inactivity_release` and the renewals of `try_auto_renew`.
--   Disputes: `dispute_escrow`, `resolve_dispute`, `check_escalation`.
--   Deadlines, Parties, Templates, Arbiters: the other entry points.
--   Entry: all entry points as one type `Call`, with `invoke`, `transact` and `run`.
--   Ledger: an abstract specification, the books and their moves, with its invariant in
--     Ledger/Invariant and the sums of what is held and owed in Ledger/Money.
--   Effects, Refinement: the entry points as moves of the ledger.
--   Config, Sanction, Solvency, Lifecycle, Consent, Payouts, Settlement, Pausing, Extension, Pool,
--     Batch, Progress: properties, by topic.
--   Tests: concrete runs, with the theorems applied to them.
--
-- Refund: contracts/ahjoor-refund/src/lib.rs and events.rs, function by function under their names.
--   Types, Events: the contract types, `DataKey` as the record `Store`, and the events. `Payments`
--     stands for `try_get_payment` of the payments contract at an address: it is a parameter of each
--     transaction, so it may answer differently from one to the next. `Payment` has the fields that
--     the refund contract reads.
--   Admin: `initialize`, `upgrade`, `migrate`, the pause, the fee, the tiers, the whitelist of
--     merchants, the cooldown and the delegates.
--   Records: what the entry points share, such as `next_refund_id`, `append_index`, the statistics, and
--     the payment of a refund less its fee (`pay_refund`), which the source writes out three times.
--   Request: `request_refund`. Decide: the approval, the rejections, the cancellations and the appeal.
--   Process: `process_refund`, `bulk_process_refunds`, `auto_approve_refund`, `resolve_appeal`,
--     `merchant_refund`, `register_escrow_refund`. The literal of `merchant_refund` leaves out two
--     fields of `Refund`; they are arguments of the model's function.
--   Views: the getters and the pages of the indexes.
--   Entry: all entry points that may change the storage as one type `Call`, with `transact` and `run`.
--   Ledger: an abstract specification, the books and their moves, with its invariant.
--   Effects, Refinement: the entry points as moves of the ledger.
--   Config, Sanction, Solvency, Lifecycle, Appeals, Refusals, Paging, Tiers, Queue, Delegates:
--     properties, by topic.
--   Tests: concrete runs, with the theorems applied to them.
--
-- Payments: contracts/ahjoor-payments/src/lib.rs and events.rs, under their names.
--   Types, Events: the contract types, `DataKey` as the record `Store`, and the events.
--   Fees: the fee, its tiers, the splits and `distribute_net_payment`.
--   Shares: the loops over the recipients of a split payment. Splits: properties. Tests: concrete
--     runs, with the theorems applied to them.
--
-- The loops run over lists, or over a count of rounds that is known before, and are structural, so no
-- fuel is used. `extend_ttl` changes no entry and is left out; entries do not expire, the temporary
-- ones of the cooldown included. Symbols and panic messages are constructors.
-- An admissible transaction, in the results, runs at the contract's own address and is not authorised
-- by the contract's own address; for the escrow contract, it does not make the contract the buyer of
-- an escrow. What a token contract does with a transfer is not modelled: the results count the
-- transfers that were accepted.
--
-- Not modelled: the other entry points of contracts/ahjoor-payments, contracts/ahjoor-rosca, the
-- tests, the build files and the documents.
pub mod Base
pub mod Host
pub mod Escrow
pub mod Refund
pub mod Payments
