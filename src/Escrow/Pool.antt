-- ===== src/Escrow/Pool.antt =====
-- The pool of arbiters and the turns in it: `add_arbiter`, `remove_arbiter` and
-- `create_escrow_with_pool_arbiter` of contracts/ahjoor-escrow/src/lib.rs.
use ahjoorxmr_contract.Base.{
  contains, without, IsDistinct, IsDistinct-append, IsDistinct-without, without_self, without-other,
  get_elem?-contains, ℕ, ◌+◌, ◌≡◌, ◌≢◌, ap, inl, inr, true, false, List, [], ◌∷◌, ◌++◌, some,
  Option-cases, unwrap_or, arith, ◌%◌, length, get_elem?, ℤ,
}
use ahjoorxmr_contract.Host.{Env, Outcome, ok, panic, trap}
use ahjoorxmr_contract.Escrow.Types.{Escrow, Error}
use ahjoorxmr_contract.Escrow.Events.{World}
use ahjoorxmr_contract.Escrow.Arbiters.{
  add_arbiter, remove_arbiter, create_escrow_with_pool_arbiter,
}
use ahjoorxmr_contract.Escrow.Config.Parts.{flag_escrows-Keeps}
use ahjoorxmr_contract.Escrow.Templates.{plain_escrow}
use ahjoorxmr_contract.Escrow.Create.{next_escrow_id}

-- The pool in the storage; before the first arbiter there is none.
abbrev pub pool_of : World → List ℕ
pool_of w = unwrap_or w.store.arbiter_pool []

-- An arbiter that is added to a pool without repetitions was not in it; it stands behind the
-- earlier ones, and still none stands there twice.
pub add_arbiter-pool :
    (admin arbiter : ℕ) (env : Env) (w w' : World)
    → IsDistinct (pool_of w)
    → add_arbiter admin arbiter env w ≡ ok (tt, w')
    → (contains arbiter (pool_of w) ≡ false)
      × (pool_of w' ≡ pool_of w ++ (arbiter ∷ []))
      × IsDistinct (pool_of w')
unfolding add_arbiter
add_arbiter-pool admin arbiter env w w' d h =
    let out : contains arbiter (pool_of w) ≡ false = ground arith in
    let added : pool_of w' ≡ pool_of w ++ (arbiter ∷ []) = ground arith in
    (out, added, rw added (IsDistinct-append arbiter (pool_of w) out d))

remove_arbiter-without :
    (admin arbiter : ℕ) (ids : List ℕ) (env : Env) (w w' : World)
    → remove_arbiter admin arbiter ids env w ≡ ok (tt, w')
    → (contains arbiter (pool_of w) ≡ true) × (pool_of w' ≡ without arbiter (pool_of w))
unfolding remove_arbiter
remove_arbiter-without admin arbiter ids env w w' h = elim (Option-cases w.store.arbiter_pool) [
  | inl empty ↦ absurd (ground arith)
  | inr (pool, e) ↦
      let kept : World = record w {
        store = record w.store { arbiter_pool = some (without arbiter pool) };
      } in
      let reset : World = record w {
        store = record w.store {
          arbiter_pool = some (without arbiter pool);
          next_arbiter_index = some 0;
        };
      } in
      (
        ground arith,
        ground (
          arith,
          flag_escrows-Keeps arbiter ids env kept,
          flag_escrows-Keeps arbiter ids env reset,
        ),
      )
]

-- After an arbiter is removed from a pool without repetitions, it was in the pool and is not there
-- any more; every other arbiter is there if and only if it was before, and still none stands there
-- twice.
pub remove_arbiter-pool :
    (admin arbiter : ℕ) (ids : List ℕ) (env : Env) (w w' : World)
    → IsDistinct (pool_of w)
    → remove_arbiter admin arbiter ids env w ≡ ok (tt, w')
    → (contains arbiter (pool_of w) ≡ true)
      × (contains arbiter (pool_of w') ≡ false)
      × ((a : ℕ) → a ≢ arbiter → contains a (pool_of w') ≡ contains a (pool_of w))
      × IsDistinct (pool_of w')
remove_arbiter-pool admin arbiter ids env w w' d h =
    let (was, copied) = remove_arbiter-without admin arbiter ids env w w' h in
    (
      was,
      rw copied (without_self arbiter (pool_of w)),
      λ a ne. rw copied (without-other a arbiter (pool_of w) ne),
      rw copied (IsDistinct-without arbiter (pool_of w) d),
    )

-- The place of the next arbiter in the round robin.
abbrev pub next_of : World → ℕ
next_of w = unwrap_or w.store.next_arbiter_index 0

-- A call that moves the turn on and leaves the pool, if it succeeds.
abbrev Turns : World → Outcome Error (ℕ × World) → Type 0
Turns w (ok (_, w')) =
    (w'.store.arbiter_pool ≡ w.store.arbiter_pool)
    × (w'.store.next_arbiter_index ≡ some ((next_of w + 1) % length (pool_of w)))
Turns w (panic _) = Unit
Turns w (trap _) = Unit

create-Turns :
    (buyer seller : ℕ) (x : ℤ) (token deadline : ℕ) (env : Env) (w : World)
    → Turns w (create_escrow_with_pool_arbiter buyer seller x token deadline env w)
unfolding create_escrow_with_pool_arbiter next_escrow_id
create-Turns buyer seller x token deadline env w = ground arith

-- An escrow that is created with an arbiter of the pool has the arbiter whose turn it is, who is in
-- the pool; the turn goes to the next place, and from the last place to the first.
pub create-takes_turn :
    (buyer seller : ℕ) (x : ℤ) (token deadline id : ℕ) (env : Env) (w w' : World)
    → create_escrow_with_pool_arbiter buyer seller x token deadline env w ≡ ok (id, w')
    → (e : Escrow) × (w'.store.escrow id ≡ some e)
      × (get_elem? (pool_of w) (next_of w % length (pool_of w)) ≡ some e.arbiter)
      × (contains e.arbiter (pool_of w) ≡ true)
      × (pool_of w' ≡ pool_of w)
      × (next_of w' ≡ (next_of w + 1) % length (pool_of w))
unfolding create_escrow_with_pool_arbiter
create-takes_turn buyer seller x token deadline id env w w' h =
    let turned = rw h at (create-Turns buyer seller x token deadline env w) in
    elim (Option-cases (get_elem? (pool_of w) (next_of w % length (pool_of w)))) [
      | inl out ↦ absurd (ground arith)
      | inr (a, f) ↦ (
        plain_escrow id buyer seller a x token env.timestamp deadline,
        ground arith,
        f,
        get_elem?-contains (pool_of w) _ a f,
        ap (λ p. unwrap_or p []) turned.0,
        ap (λ n. unwrap_or n 0) turned.1,
      )
    ]
