-- ===== src/Refund/Tiers.antt =====
-- The tiers of contracts/ahjoor-refund/src/lib.rs: `validate_refund_tiers`, and the cap that
-- `request_refund` takes from them.
use ahjoorxmr_contract.Base.{
  ℕ, ◌*◌, ◌/◌, ◌-◌, ◌≡◌, refl, sym, ap, subst, ◌∙◌, inl, inr, Bool, true, false, ◌&&◌, List, [],
  ◌∷◌, Option, some, none, leb, ltb, unwrap_or, contains, String, if◌then◌else◌, i128_max, i128_min,
  arith, ℤ, pos, ◌+ℤ◌, ◌-ℤ◌, ◌≤ℤ◌, ◌<ℤ◌, int_laws, Bool-cases, saturating_sub_i128, ltb_ℤ,
}
use ahjoorxmr_contract.Host.{Env, ok, panic, trap, TokenCall, Outcome, Outcome-cases, ⊤}
use ahjoorxmr_contract.Refund.Types.{Error, Payment, Payments, PaymentStatus, is_completed_status}
use ahjoorxmr_contract.Refund.Events.{World}
use ahjoorxmr_contract.Refund.Admin.{check_tiers, validate_refund_tiers}
use ahjoorxmr_contract.Refund.Records.{bps_of}
use ahjoorxmr_contract.Refund.Request.{match_tier, apply_tiers, request_refund}
use ahjoorxmr_contract.Refund.Effects.Parts.{bps_of-lem, apply_tiers-Caps}
use ahjoorxmr_contract.Refund.Config.{Config}
use ahjoorxmr_contract.Refund.Config.Calls.{cooled-Keeps}
use ahjoorxmr_contract.Refund.Effects.Requesting.{when_cooldown-Idle, store_request-Places}
use ahjoorxmr_contract.Refund.Effects.Stages.{counted_up, requested_in, request_refund-Stages}

-- Whether a list of tiers is a schedule: the ages do not decrease and no share is above the whole.
abbrev pub all_shares : List (ℕ × ℕ) → Bool
all_shares [] = true
all_shares ((_, bps) ∷ tiers) = leb bps 10000 && all_shares tiers

abbrev pub ages_ordered : List (ℕ × ℕ) → Bool
ages_ordered [] = true
ages_ordered (_ ∷ []) = true
ages_ordered ((a, _) ∷ (b, bps) ∷ tiers) = leb a b && ages_ordered ((b, bps) ∷ tiers)

abbrev pub is_schedule : List (ℕ × ℕ) → Bool
is_schedule tiers = ages_ordered tiers && all_shares tiers

abbrev pub succeeds : Outcome Error (⊤ × World) → Bool
succeeds (ok _) = true
succeeds (panic _) = false
succeeds (trap _) = false

check_tiers-later :
    (prev bps : ℕ) (tiers : List (ℕ × ℕ)) (env : Env) (w : World)
    → succeeds (check_tiers false prev tiers env w)
      ≡ (ages_ordered ((prev, bps) ∷ tiers) && all_shares tiers)
unfolding check_tiers
check_tiers-later prev bps [] env w = refl
check_tiers-later prev bps ((max_seconds, share) ∷ tiers) env w =
    ground (arith, check_tiers-later max_seconds share tiers env w)

-- `validate_refund_tiers` accepts exactly the schedules: the ages do not decrease from one tier to
-- the next, and no tier refunds more than 10000 basis points.
pub validate_refund_tiers-is_schedule :
    (tiers : List (ℕ × ℕ)) (env : Env) (w : World)
    → succeeds (validate_refund_tiers tiers env w) ≡ is_schedule tiers
unfolding validate_refund_tiers check_tiers
validate_refund_tiers-is_schedule [] env w = refl
validate_refund_tiers-is_schedule ((max_seconds, share) ∷ tiers) env w =
    ground (arith, check_tiers-later max_seconds share tiers env w)

-- The share of the first tier that an age falls under.
abbrev pub share_at : ℕ → List (ℕ × ℕ) → Option ℕ
share_at elapsed [] = none
share_at elapsed ((max_seconds, bps) ∷ tiers) =
    if leb elapsed max_seconds then some bps else share_at elapsed tiers

-- What is left is no more than the difference, where anything is left.
saturating_sub-le : (a b : ℤ) → pos 0 <ℤ saturating_sub_i128 a b → saturating_sub_i128 a b +ℤ b ≤ℤ a
unfolding saturating_sub_i128
saturating_sub-le a b h = elim (Bool-cases (ltb_ℤ (pos i128_max) (a -ℤ b))) [
  | inl above ↦ rw above (grind (int_laws, above))
  | inr fine ↦ elim (Bool-cases (ltb_ℤ (a -ℤ b) i128_min)) [
    | inl below ↦ absurd (omega (arith, rw (fine, below) at h))
    | inr inside ↦ rw (fine, inside) (omega int_laws)
  ]
]

match_tier-within :
    (tiers : List (ℕ × ℕ)) (elapsed paid : ℕ) (already amount : ℤ) (env : Env) (w w' : World)
    (x : ℤ) (share : ℕ) (left : ℤ)
    → match_tier tiers elapsed (pos paid) already amount env w ≡ ok ((x, share, left), w')
    → (w' ≡ w)
      × (share_at elapsed tiers ≡ some share)
      × (x ≤ℤ amount)
      × (x +ℤ already ≤ℤ pos (paid * share / 10000))
unfolding match_tier
match_tier-within [] elapsed paid already amount env w w' x share left h = absurd (ground arith)
match_tier-within ((max_seconds, bps) ∷ tiers) elapsed paid already amount env w w' x share left h =
    elim (Bool-cases (leb elapsed max_seconds)) [
      | inl fits ↦ elim (Outcome-cases (bps_of (pos paid) bps env w)) [
        | inl ((whole, w1), k) ↦
            let (size, same) = bps_of-lem paid bps env w w1 whole k in
            let most = saturating_sub-le whole already in
            let remaining = saturating_sub_i128 whole already in
            let positive : pos 0 <ℤ remaining = ground arith in
            let below : x ≤ℤ remaining = ground arith in
            let fitting : bps ≡ share = ground arith in
            let capped : x +ℤ already ≤ℤ whole = omega (int_laws, most positive, below) in
            (
              ground arith,
              ground arith,
              ground arith,
              rw (sym fitting) (subst (λ z. x +ℤ already ≤ℤ z) size capped),
            )
        | inr (inl (x, k)) ↦ absurd (ground arith)
        | inr (inr (x, k)) ↦ absurd (ground arith)
      ]
      | inr old ↦
          let rest =
            match_tier-within tiers elapsed paid already amount env w w' x share left
              (ground arith) in
          (ground (arith, rest), ground (arith, rest), ground (arith, rest), ground (arith, rest))
    ]

-- Where tiers are configured, the amount that is refunded is at most what is asked for, and together
-- with what was refunded before it is at most the share, in basis points, that the first tier for the
-- payment's age gives of what was paid. The state is left as it was.
pub apply_tiers-within :
    (t : ℕ × ℕ) (tiers : List (ℕ × ℕ)) (elapsed paid : ℕ) (already amount : ℤ) (env : Env)
    (w w' : World) (x : ℤ) (applied : Option (ℕ × ℤ))
    → apply_tiers (t ∷ tiers) elapsed (pos paid) already amount env w ≡ ok ((x, applied), w')
    → (share : ℕ) × (w' ≡ w)
      × (share_at elapsed (t ∷ tiers) ≡ some share)
      × (x ≤ℤ amount)
      × (x +ℤ already ≤ℤ pos (paid * share / 10000))
unfolding apply_tiers
apply_tiers-within t tiers elapsed paid already amount env w w' x applied h =
    elim (Outcome-cases (match_tier (t ∷ tiers) elapsed (pos paid) already amount env w)) [
      | inl (((y, share, left), w1), k) ↦
          let (same, first, le, within) =
            match_tier-within (t ∷ tiers) elapsed paid already amount env w w1 y share left k in
          let here : x ≡ y = ground arith in
          (share, ground arith, first, rw here le, rw here within)
      | inr (inl (y, k)) ↦ absurd (ground arith)
      | inr (inr (y, k)) ↦ absurd (ground arith)
    ]

status-completed : (s : PaymentStatus) → is_completed_status s ≡ true → s ≡ PaymentStatus.completed
unfolding is_completed_status
status-completed s h = ground arith

-- A request that succeeds is for a completed payment that the configured payment contract knows, and
-- what it transfers is positive, at most what is asked for, and together with what was refunded
-- before at most the amount of the payment.
pub request_refund-fits :
    (payments : Payments) (customer payment_id : ℕ) (amount : ℤ) (reason : String) (reason_code : ℕ)
    (env : Env) (w w' : World) (id : ℕ)
    → request_refund payments customer payment_id amount reason reason_code env w ≡ ok (id, w')
    → (address : ℕ) × (p : Payment) × (x : ℤ) × (w.store.payment_contract_address ≡ some address)
      × (payments address payment_id ≡ some p)
      × (p.status ≡ PaymentStatus.completed)
      × (pos 0 <ℤ x)
      × (x ≤ℤ amount)
      × (x +ℤ unwrap_or (w.store.refunded_amount payment_id) (pos 0) ≤ℤ p.amount)
      × (w'.calls ≡ TokenCall.transfer p.token customer env.current_contract_address x ∷ w.calls)
request_refund-fits payments customer payment_id amount reason reason_code env w w' id h =
    let s =
      request_refund-Stages payments customer payment_id amount reason reason_code env w w' id h in
    let cooldown = unwrap_or w.store.refund_cooldown 0 in
    let w1 = s.cooled_world in
    let w2 = s.tiered_world in
    let p = s.payment in
    let white = contains p.merchant (unwrap_or w2.store.auto_approved_merchants []) in
    let c = TokenCall.transfer p.token customer env.current_contract_address s.x in
    let idle = rw s.cooled at (when_cooldown-Idle (ltb 0 cooldown) customer cooldown env w) in
    let kept = rw s.cooled at (cooled-Keeps (ltb 0 cooldown) customer cooldown env w) in
    let (same, above, below) = rw s.tiered at (
      apply_tiers-Caps (unwrap_or w1.store.refund_tiers []) (env.timestamp - p.created_at) p.amount
        (unwrap_or (w1.store.refunded_amount payment_id) (pos 0)) amount env w1 s.asked_positive) in
    let (counter, refunds, calls) = rw s.stored at (
      store_request-Places (requested_in w2 env payment_id customer p s.x reason reason_code)
        cooldown s.applied white env (counted_up c w2)) in
    (
      s.address,
      p,
      s.x,
      sym (ap (λ (c : Config). c.payment_contract_address) kept) ∙ s.configured,
      s.known,
      status-completed p.status s.completed,
      above,
      below,
      rw (sym idle.3) s.fits,
      rw (sym (ap (λ (v : World). v.calls) same ∙ idle.2)) calls,
    )
