-- ===== src/Escrow/Tests/Numbers.antt =====
-- The theorems on the arbiter pool and on batches applied to concrete inputs.
use ahjoorxmr_contract.Base.{
  contains, without, IsDistinct, ℕ, suc, ◌≤◌, ◌+◌, ◌≡◌, ◌≢◌, refl, true, false, [], ◌∷◌, ◌++◌, some,
  pos, ◌%◌, length, get_elem?,
}
use ahjoorxmr_contract.Host.{ok}
use ahjoorxmr_contract.Escrow.Types.{Escrow, is_open_escrow_status, max_batch_escrows}
use ahjoorxmr_contract.Escrow.Admin
use ahjoorxmr_contract.Escrow.Create
use ahjoorxmr_contract.Escrow.Arbiters
use ahjoorxmr_contract.Escrow.Events.{World}
use ahjoorxmr_contract.Escrow.Entry.{Call, invoke, transact, run}
use ahjoorxmr_contract.Escrow.Ledger.{books}
use ahjoorxmr_contract.Escrow.Pool.{
  pool_of, next_of, add_arbiter-pool, remove_arbiter-pool, create-takes_turn,
}
use ahjoorxmr_contract.Escrow.Batch.{ids_from, AllMade, create_escrows_batch-ids}
use ahjoorxmr_contract.Escrow.Tests.{
  day, ready, after, pooled, one_of, batched, batched_runs, pooled_pool,
}

pooled-IsDistinct : IsDistinct (pool_of pooled)
unfolding contains
pooled-IsDistinct = rw pooled_pool (refl, (refl, tt))

abbrev widened : World
widened = after 8 (Call.add_arbiter 0 8) pooled

abbrev narrowed : World
narrowed = after 8 (Call.remove_arbiter 0 4 (0 ∷ [])) pooled

abbrev taken : World
taken = after 8 (Call.create_escrow_with_pool_arbiter 1 2 (pos 10) 7 100) pooled

widened_runs : Arbiters.add_arbiter 0 8 (day 8) pooled ≡ ok (tt, widened)
unfolding run transact invoke Admin.initialize Admin.add_allowed_token Admin.update_protocol_fee
    Create.create_escrow Create.create_escrow_core Create.resolve_sellers Create.add_bps
    Create.next_escrow_id Arbiters.add_arbiter contains
widened_runs = refl

narrowed_runs : Arbiters.remove_arbiter 0 4 (0 ∷ []) (day 8) pooled ≡ ok (tt, narrowed)
unfolding run transact invoke Admin.initialize Admin.add_allowed_token Admin.update_protocol_fee
    Create.create_escrow Create.create_escrow_core Create.resolve_sellers Create.add_bps
    Create.next_escrow_id Arbiters.add_arbiter Arbiters.remove_arbiter Arbiters.flag_escrows without
    contains is_open_escrow_status
narrowed_runs = refl

taken_runs :
    Arbiters.create_escrow_with_pool_arbiter 1 2 (pos 10) 7 100 (day 8) pooled ≡ ok (2, taken)
unfolding run transact invoke Admin.initialize Admin.add_allowed_token Admin.update_protocol_fee
    Create.create_escrow Create.create_escrow_core Create.resolve_sellers Create.add_bps
    Create.next_escrow_id Arbiters.add_arbiter Arbiters.create_escrow_with_pool_arbiter contains
taken_runs = refl

add_arbiter-pool_example :
    (contains 8 (pool_of pooled) ≡ false)
    × (pool_of widened ≡ pool_of pooled ++ (8 ∷ []))
    × IsDistinct (pool_of widened)
add_arbiter-pool_example =
    add_arbiter-pool 0 8 (day 8) pooled widened pooled-IsDistinct widened_runs

remove_arbiter-pool_example :
    (contains 4 (pool_of pooled) ≡ true)
    × (contains 4 (pool_of narrowed) ≡ false)
    × ((a : ℕ) → a ≢ 4 → contains a (pool_of narrowed) ≡ contains a (pool_of pooled))
    × IsDistinct (pool_of narrowed)
remove_arbiter-pool_example =
    remove_arbiter-pool 0 4 (0 ∷ []) (day 8) pooled narrowed pooled-IsDistinct narrowed_runs

create-takes_turn_example :
    (e : Escrow) × (taken.store.escrow 2 ≡ some e)
    × (get_elem? (pool_of pooled) (next_of pooled % length (pool_of pooled)) ≡ some e.arbiter)
    × (contains e.arbiter (pool_of pooled) ≡ true)
    × (pool_of taken ≡ pool_of pooled)
    × (next_of taken ≡ (next_of pooled + 1) % length (pool_of pooled))
create-takes_turn_example = create-takes_turn 1 2 (pos 10) 7 100 2 (day 8) pooled taken taken_runs

create_escrows_batch-ids_example :
    (1 ≤ 2)
    × (2 ≤ max_batch_escrows)
    × (2 ∷ 3 ∷ [] ≡ ids_from (books ready).counter 2)
    × ((books batched).counter ≡ (books ready).counter + 2)
    × ((j : ℕ) → suc j ≤ (books ready).counter → batched.store.escrow j ≡ ready.store.escrow j)
    × AllMade 1
        (day 6).timestamp
        (books ready).counter
        (one_of 2 ∷ one_of 3 ∷ [])
        batched.store.escrow
create_escrows_batch-ids_example =
    create_escrows_batch-ids 1 (one_of 2 ∷ one_of 3 ∷ []) (day 6) ready batched (2 ∷ 3 ∷ [])
      batched_runs
