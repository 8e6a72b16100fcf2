-- ===== src/Refund/Paging.antt =====
-- The pages of contracts/ahjoor-refund/src/lib.rs: the loops that copy a part of an index.
use ahjoorxmr_contract.Base.{
  ℕ, zero, suc, ◌+◌, ◌-◌, ◌≤◌, ◌≡◌, refl, ◌∙◌, ap, inl, inr, List, [], Option, leb, unwrap_or,
  length, get_elem?-lt, take, drop, take-all, drop-all, length-drop, drop-get_elem?, Bool-cases,
  arith, u32_max,
}
use ahjoorxmr_contract.Host.{Env, ok}
use ahjoorxmr_contract.Refund.Events.{World}
use ahjoorxmr_contract.Refund.Views.{min, copy_range, paginate}

-- In bounds, the loop copies the items from `i` on.
copy_range-take :
    (all : List ℕ) (i rounds : ℕ) (env : Env) (w : World)
    → i + rounds ≤ length all
    → copy_range all i rounds env w ≡ ok (take rounds (drop i all), w)
unfolding copy_range
copy_range-take all i zero env w h = refl
copy_range-take all i (suc rounds) env w h =
    let (x, e) = get_elem?-lt all i (omega arith) in
    let ih = copy_range-take all (i + 1) rounds env w (omega arith) in
    let slice = drop-get_elem? i x all e in ground (arith, e, ih, slice)

-- The bounds that are cut to the length give the same slice.
cut-start : (n : ℕ) (xs : List ℕ) → drop (min n (length xs)) xs ≡ drop n xs
cut-start n xs = elim (Bool-cases (leb n (length xs))) [
  | inl inside ↦ rw inside refl
  | inr beyond ↦
      rw (beyond, drop-all (length xs) xs (omega arith), drop-all n xs (ground arith)) refl
]

cut-stop :
    (start limit : ℕ) (xs : List ℕ)
    → take (min (start + limit) (length xs) - start) (drop start xs) ≡ take limit (drop start xs)
cut-stop start limit xs = elim (Bool-cases (leb (start + limit) (length xs))) [
  | inl inside ↦ rw inside (ap (λ n. take n (drop start xs)) (omega arith))
  | inr beyond ↦
      let size = length-drop start xs in
      rw
        (
          beyond,
          take-all (length xs - start) (drop start xs) (omega (arith, size)),
          take-all limit (drop start xs) (ground (arith, size)),
        )
        refl
]

min-first : (a b : ℕ) → min a b ≤ a
min-first a b = ground arith

min-le : (a b : ℕ) → min a b ≤ b
min-le a b = ground arith

start_in : (start limit n : ℕ) → start ≤ n → start + (min (start + limit) n - start) ≤ n
start_in start limit n h = ground arith

-- Where the end of the page is a 32-bit number, a page of an index is the slice of `limit` items
-- after the first `offset` ones, and an index that is not there is an empty one; the loop never
-- reads out of bounds.
pub paginate-slice :
    (ids : Option (List ℕ)) (limit offset : ℕ) (env : Env) (w : World)
    → offset + limit ≤ u32_max
    → paginate ids limit offset env w ≡ ok (take limit (drop offset (unwrap_or ids [])), w)
unfolding paginate
paginate-slice ids limit offset env w h =
    let all = unwrap_or ids [] in
    let start = min offset (length all) in
    let loop =
      copy_range-take all start (min (start + limit) (length all) - start) env w
        (start_in start limit (length all) (min-le offset (length all))) in
    let cut = cut-stop start limit all ∙ ap (λ xs. take limit xs) (cut-start offset all) in
    let in_range = min-first offset (length all) in ground (arith, loop, cut, in_range)
