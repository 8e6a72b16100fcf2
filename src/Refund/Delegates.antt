-- ===== src/Refund/Delegates.antt =====
-- The delegates of a merchant: `add_delegate` and `remove_delegate` of
-- contracts/ahjoor-refund/src/lib.rs.
use ahjoorxmr_contract.Base.{
  ℕ, ◌+◌, ◌≤◌, ◌≡◌, refl, ap, ◌∙◌, false, List, [], ◌∷◌, ◌++◌, some, put, put_self, unwrap_or,
  length, length-append, contains, without, IsDistinct, IsDistinct-append, arith,
}
use ahjoorxmr_contract.Host.{Env, ok}
use ahjoorxmr_contract.Refund.Events.{World}
use ahjoorxmr_contract.Refund.Admin.{add_delegate, remove_delegate}

abbrev pub delegates : ℕ → World → List ℕ
delegates merchant w = unwrap_or (w.store.merchant_delegates merchant) []

-- A list without an item that it has not.
without-absent : (a : ℕ) (xs : List ℕ) → contains a xs ≡ false → without a xs ≡ xs
unfolding contains without
without-absent a [] h = refl
without-absent a (x ∷ xs) h = ground (arith, without-absent a xs)

without-append : (a : ℕ) (xs : List ℕ) → contains a xs ≡ false → without a (xs ++ (a ∷ [])) ≡ xs
unfolding contains without
without-append a [] h = ground arith
without-append a (x ∷ xs) h = ground (arith, without-append a xs)

add_delegate-added :
    (merchant delegate : ℕ) (env : Env) (w w' : World)
    → add_delegate merchant delegate env w ≡ ok (tt, w')
    → (contains delegate (delegates merchant w) ≡ false)
      × (length (delegates merchant w) + 1 ≤ 5)
      × (w'.store.merchant_delegates
          ≡ put w.store.merchant_delegates merchant
              (some (delegates merchant w ++ (delegate ∷ []))))
unfolding add_delegate
add_delegate-added merchant delegate env w w' h = (ground arith, ground arith, ground arith)

added_list :
    (merchant delegate : ℕ) (w w' : World)
    → w'.store.merchant_delegates
      ≡ put w.store.merchant_delegates merchant (some (delegates merchant w ++ (delegate ∷ [])))
    → delegates merchant w' ≡ delegates merchant w ++ (delegate ∷ [])
added_list merchant delegate w w' e =
    ap (λ o. unwrap_or o [])
      (ap (λ g. g merchant) e ∙ put_self w.store.merchant_delegates merchant _)

-- A merchant's delegates are distinct and at most five after one has been added, where they were
-- distinct before.
pub add_delegate-IsDistinct :
    (merchant delegate : ℕ) (env : Env) (w w' : World)
    → IsDistinct (delegates merchant w)
    → add_delegate merchant delegate env w ≡ ok (tt, w')
    → IsDistinct (delegates merchant w') × (length (delegates merchant w') ≤ 5)
add_delegate-IsDistinct merchant delegate env w w' d h =
    let (out, few, e) = add_delegate-added merchant delegate env w w' h in
    rw (added_list merchant delegate w w' e) (
      IsDistinct-append delegate (delegates merchant w) out d,
      omega (arith, few, length-append (delegates merchant w) (delegate ∷ [])),
    )

remove_delegate-removed :
    (merchant delegate : ℕ) (env : Env) (w w' : World)
    → remove_delegate merchant delegate env w ≡ ok (tt, w')
    → w'.store.merchant_delegates
      ≡ put w.store.merchant_delegates merchant (some (without delegate (delegates merchant w)))
unfolding remove_delegate
remove_delegate-removed merchant delegate env w w' h = ground arith

-- A delegate who is added and then removed leaves the merchant's delegates as they were.
pub remove_delegate-add_delegate :
    (merchant delegate : ℕ) (env env' : Env) (w w1 w2 : World)
    → add_delegate merchant delegate env w ≡ ok (tt, w1)
    → remove_delegate merchant delegate env' w1 ≡ ok (tt, w2)
    → delegates merchant w2 ≡ delegates merchant w
remove_delegate-add_delegate merchant delegate env env' w w1 w2 h k =
    let (out, few, e) = add_delegate-added merchant delegate env w w1 h in
    let gone = remove_delegate-removed merchant delegate env' w1 w2 k in
    ap (λ o. unwrap_or o [])
      (ap (λ g. g merchant) gone ∙ put_self w1.store.merchant_delegates merchant _)
    ∙ ap (without delegate) (added_list merchant delegate w w1 e)
    ∙ without-append delegate (delegates merchant w) out
