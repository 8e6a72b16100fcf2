-- ===== src/Escrow/Batch.antt =====
-- The numbers of the escrows that a batch creates, and what stands under them: `create_escrows_batch` of
-- contracts/ahjoor-escrow/src/lib.rs.
use ahjoorxmr_contract.Base.{
  ℕ, zero, suc, ◌+◌, ◌≤◌, ◌≡◌, refl, sym, subst, ap, ◌∙◌, inl, inr, List, [], ◌∷◌, ◌++◌, Option,
  none, some, arith, unwrap_or, length, get_elem?, put, ◌==◌, if◌then◌else◌,
}
use mathlib.Core.List.{append_assoc, append-nil}
use ahjoorxmr_contract.Host.{Env, ok, Outcome-cases}
use ahjoorxmr_contract.Escrow.Types.{Escrow, EscrowStatus, EscrowBatchConfig, max_batch_escrows}
use ahjoorxmr_contract.Escrow.Events.{World}
use ahjoorxmr_contract.Escrow.Create.{
  resolve_sellers, next_escrow_id, new_escrow, create_escrow_core, create_each,
  create_escrows_batch,
}
use ahjoorxmr_contract.Escrow.Ledger.{books}

-- The numbers `first`, `first + 1`, … of `n` escrows.
pub ids_from : ℕ → ℕ → List ℕ
ids_from first zero = []
ids_from first (suc n) = first ∷ ids_from (first + 1) n

-- The sellers of a configuration: the one seller with everything where it has no list.
abbrev pub sellers_of : EscrowBatchConfig → List (ℕ × ℕ)
sellers_of cfg = if length cfg.sellers == 0 then (cfg.seller, 10000) ∷ [] else cfg.sellers

-- An active escrow under the number `id`, with what the configuration says.
pub record Made (id buyer now : ℕ) (cfg : EscrowBatchConfig) (e : Escrow) : Type 0 where
  pub numbered : e.id ≡ id
  pub bought_by : e.buyer ≡ buyer
  pub sold_by : e.sellers ≡ sellers_of cfg
  pub first_seller : (bps : ℕ) × (get_elem? (sellers_of cfg) 0 ≡ some (e.seller, bps))
  pub decided_by : e.arbiter ≡ cfg.arbiter
  pub same_amount : e.amount ≡ cfg.amount
  pub same_token : e.token ≡ cfg.token
  pub is_active : e.status ≡ EscrowStatus.active
  pub made_at : e.created_at ≡ now
  pub same_deadline : e.deadline ≡ cfg.deadline
  pub same_metadata : e.metadata_hash ≡ cfg.metadata_hash
  pub same_renewal : e.auto_renew ≡ cfg.auto_renew
  pub same_renewals : e.renewal_count ≡ cfg.renewal_count
  pub all_remaining : e.renewals_remaining ≡ cfg.renewal_count
  pub no_timeout : e.dispute_timeout_seconds ≡ none
  pub no_inactivity : e.buyer_inactivity_release_seconds ≡ 0

-- The escrows under the numbers `first`, `first + 1`, … are those of the configurations, in order.
abbrev pub AllMade : ℕ → ℕ → ℕ → List EscrowBatchConfig → (ℕ → Option Escrow) → Type 0
AllMade buyer now first [] stored = Unit
AllMade buyer now first (cfg ∷ rest) stored =
    ((e : Escrow) × (stored first ≡ some e) × Made first buyer now cfg e)
    × AllMade buyer now (first + 1) rest stored

resolve_sellers-sellers_of :
    (cfg : EscrowBatchConfig) (env : Env) (w w' : World) (r : List (ℕ × ℕ))
    → resolve_sellers cfg.seller cfg.sellers env w ≡ ok (r, w')
    → (r ≡ sellers_of cfg) × (w' ≡ w)
unfolding resolve_sellers
resolve_sellers-sellers_of cfg env w w' r h = go cfg.sellers refl
  where
    go :
        (sellers : List (ℕ × ℕ))
        → cfg.sellers ≡ sellers
        → (r ≡ (if length sellers == 0 then (cfg.seller, 10000) ∷ [] else sellers)) × (w' ≡ w)
    go [] same = (ground arith, ground arith)
    go (s ∷ rest) same = (ground arith, ground arith)

-- The creation of one escrow stores it under the counter, which goes up by one.
create_escrow_core-Made :
    (buyer : ℕ) (cfg : EscrowBatchConfig) (env : Env) (w w' : World) (id : ℕ)
    → create_escrow_core buyer cfg.seller cfg.arbiter cfg.amount cfg.token cfg.deadline
        cfg.metadata_hash cfg.sellers cfg.auto_renew cfg.renewal_count 0 env w
      ≡ ok (id, w')
    → (e : Escrow) × (id ≡ (books w).counter)
      × ((books w').counter ≡ (books w).counter + 1)
      × (w'.store.escrow ≡ put w.store.escrow (books w).counter (some e))
      × Made (books w).counter buyer env.timestamp cfg e
unfolding create_escrow_core next_escrow_id
create_escrow_core-Made buyer cfg env w w' id h =
    elim (Outcome-cases (resolve_sellers cfg.seller cfg.sellers env w)) [
      | inl (([], w1), eq) ↦ absurd (ground arith)
      | inl (((p, bps) ∷ rest, w1), eq) ↦
          let (resolved, same) = resolve_sellers-sellers_of cfg env w w1 ((p, bps) ∷ rest) eq in
          (
            new_escrow (books w).counter buyer p cfg.arbiter cfg.amount cfg.token env.timestamp
                cfg.deadline cfg.metadata_hash ((p, bps) ∷ rest) cfg.auto_renew cfg.renewal_count 0,
            ground (arith, same),
            ground (arith, same),
            ground (arith, same),
            record {
              numbered = refl;
              bought_by = refl;
              sold_by = resolved;
              first_seller = (bps, rw (← resolved) refl);
              decided_by = refl;
              same_amount = refl;
              same_token = refl;
              is_active = refl;
              made_at = refl;
              same_deadline = refl;
              same_metadata = refl;
              same_renewal = refl;
              same_renewals = refl;
              all_remaining = ground arith;
              no_timeout = refl;
              no_inactivity = refl;
            },
          )
      | inr (inl (x, e)) ↦ absurd (ground arith)
      | inr (inr (x, e)) ↦ absurd (ground arith)
    ]

put-below :
    (f g : ℕ → Option Escrow) (i j : ℕ) (x : Option Escrow) → g ≡ put f i x → suc j ≤ i → g j ≡ f j
put-below f g i j x same below = ground (arith, same)

-- The loop gives the next numbers, leaves the earlier escrows, and stores those of the configurations.
create_each-AllMade :
    (buyer : ℕ) (cfgs : List EscrowBatchConfig) (first_id : Option ℕ) (last_id : ℕ) (ids : List ℕ)
    (env : Env) (w w' : World) (f : Option ℕ) (l : ℕ) (out : List ℕ)
    → create_each buyer cfgs first_id last_id ids env w ≡ ok ((f, l, out), w')
    → (out ≡ ids ++ ids_from (books w).counter (length cfgs))
      × ((books w').counter ≡ (books w).counter + length cfgs)
      × ((j : ℕ) → suc j ≤ (books w).counter → w'.store.escrow j ≡ w.store.escrow j)
      × AllMade buyer env.timestamp (books w).counter cfgs w'.store.escrow
unfolding create_each ids_from
create_each-AllMade buyer [] first_id last_id ids env w w' f l out h =
    (ground (arith, append-nil ids), ground arith, (λ j below. ground arith), tt)
create_each-AllMade buyer (cfg ∷ rest) first_id last_id ids env w w' f l out h =
    elim (Outcome-cases (
      create_escrow_core buyer cfg.seller cfg.arbiter cfg.amount cfg.token cfg.deadline
        cfg.metadata_hash cfg.sellers cfg.auto_renew cfg.renewal_count 0 env w)) [
          | inl ((id, w1), k) ↦
              let n = (books w).counter in
              let (e, numbered, counted, added, made) =
                create_escrow_core-Made buyer cfg env w w1 id k in
              let (all, count, kept, others) =
                create_each-AllMade buyer rest (some (unwrap_or first_id id)) id (ids ++ (id ∷ []))
                  env w1 w' f l out (ground arith) in
              let here : w1.store.escrow n ≡ some e = ground (arith, added) in
              (
                all
                    ∙ rw (counted, numbered)
                        (append_assoc ids (n ∷ []) (ids_from (n + 1) (length rest))),
                count ∙ rw counted (omega arith),
                (λ j below. kept j (rw counted (omega arith)) ∙ put-below _ _ n j _ added below),
                (
                  (e, kept n (rw counted (omega arith)) ∙ here, made),
                  subst (λ c. AllMade buyer env.timestamp c rest w'.store.escrow) counted others,
                ),
              )
          | inr (inl (x, k)) ↦ absurd (ground arith)
          | inr (inr (x, k)) ↦ absurd (ground arith)
        ]

-- A batch that is accepted has one to ten configurations. Its result is the next numbers in a row; the
-- counter goes up by as many. Under the k-th of these numbers stands an active escrow, created at the
-- time of the call for the buyer, with the arbiter, amount, token, deadline, metadata, renewals (all
-- remaining) and sellers of the k-th configuration (its one seller with everything where it lists
-- none) and without a timeout; the escrows under the numbers below the counter are those before.
pub create_escrows_batch-ids :
    (buyer : ℕ) (cfgs : List EscrowBatchConfig) (env : Env) (w w' : World) (ids : List ℕ)
    → create_escrows_batch buyer cfgs env w ≡ ok (ids, w')
    → (1 ≤ length cfgs)
      × (length cfgs ≤ max_batch_escrows)
      × (ids ≡ ids_from (books w).counter (length cfgs))
      × ((books w').counter ≡ (books w).counter + length cfgs)
      × ((j : ℕ) → suc j ≤ (books w).counter → w'.store.escrow j ≡ w.store.escrow j)
      × AllMade buyer env.timestamp (books w).counter cfgs w'.store.escrow
unfolding create_escrows_batch
create_escrows_batch-ids buyer cfgs env w w' ids h =
    elim (Outcome-cases (create_each buyer cfgs none 0 [] env w)) [
      | inl (((f, l, out), w1), e) ↦
          let (all, count, kept, made) =
            create_each-AllMade buyer cfgs none 0 [] env w w1 f l out e in
          let stored : w'.store.escrow ≡ w1.store.escrow = ground arith in
          (
            ground arith,
            ground arith,
            ground (arith, all),
            ground (arith, count),
            (λ j below. ap (λ g. g j) stored ∙ kept j below),
            subst (AllMade buyer env.timestamp (books w).counter cfgs) (sym stored) made,
          )
      | inr (inl (x, e)) ↦ absurd (ground arith)
      | inr (inr (x, e)) ↦ absurd (ground arith)
    ]
