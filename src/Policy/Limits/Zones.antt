-- ===== src/Policy/Limits/Zones.antt =====
-- enforcer.rs, `compare_limit_i64`: where the zones of a limit lie.
use zradar.Base.{
  ℕ, ◌*◌, ◌^◌, ◌≤◌, ◌<◌, ◌≡◌, ◌↔◌, refl, ap, Option, none, some, Bool, true, false, not, inl, inr,
  Bool-cases, arith, String, if◌then◌else◌,
}
use zradar.Base.Integers.{
  ℤ, pos, leb_ℤ, leb_ℤ_trans, saturate, saturating_mul, saturate_mono, mul_100_mono, ◌*ℤ◌,
}
use native.Mathlib.Nat.{mul-le-mul_left}
use zradar.Policy.Types.{BlockCode, Decision, allow, allow_with_grace, throttle, block}
use zradar.Policy.Limits.{compare_limit_i64}

-- How hard a decision is on the request.
abbrev pub severity : Option Decision → ℕ
severity none = 0
severity (some allow) = 0
severity (some (allow_with_grace _)) = 1
severity (some (throttle _ _)) = 2
severity (some (block _ _)) = 3

pub used_mono :
    (a b : ℤ)
    → leb_ℤ a b ≡ true
    → leb_ℤ (saturating_mul a (pos 100)) (saturating_mul b (pos 100)) ≡ true
unfolding saturating_mul
used_mono a b h = saturate_mono (a *ℤ pos 100) (b *ℤ pos 100) (mul_100_mono a b h)

-- What is above a bound stays above it when it grows.
above_stays : (a b c : ℤ) → leb_ℤ a b ≡ true → leb_ℤ a c ≡ false → leb_ℤ b c ≡ false
above_stays a b c h k = elim (Bool-cases (leb_ℤ b c)) [
  | inl e ↦ let both = leb_ℤ_trans a b c h e in cc
  | inr e ↦ e
]

zone_ge :
    {n : ℕ} (d e : Option Decision) (b : Bool)
    → n ≤ severity d
    → n ≤ severity e
    → n ≤ severity (if b then d else e)
zone_ge d e true h k = h
zone_ge d e false h k = k

-- Whatever the limit and however the products saturate, a request that uses more is never treated
-- more mildly.
pub compare_limit_i64_mono :
    (a b limit : ℤ) (grace hard : ℕ) (code : BlockCode) (reason : String)
    → leb_ℤ a b ≡ true
    → severity (compare_limit_i64 a limit grace hard code reason)
      ≤ severity (compare_limit_i64 b limit grace hard code reason)
unfolding compare_limit_i64
compare_limit_i64_mono a b limit grace hard code reason h =
    let used = used_mono a b h in
    let x = saturating_mul a (pos 100) in
    let y = saturating_mul b (pos 100) in
    let h_at = saturating_mul limit (pos hard) in
    let g_at = saturating_mul limit (pos grace) in
    elim (Bool-cases (leb_ℤ limit (pos 0))) [
      | inl e ↦ rw e (omega arith)
      | inr e ↦ elim (Bool-cases (leb_ℤ h_at x)) [
        | inl at ↦ let at' = leb_ℤ_trans h_at x y at used in rw (e, at, at') (omega arith)
        | inr below ↦ elim (Bool-cases (leb_ℤ x g_at)) [
          | inr over ↦
              let over' = above_stays x y g_at used over in
              rw (e, below, over, over') (zone_ge _ _ (leb_ℤ h_at y) (omega arith) (omega arith))
          | inl under ↦ elim (Bool-cases (leb_ℤ a limit)) [
            | inl within ↦ rw (e, below, under, within) (omega arith)
            | inr beyond ↦
                let beyond' = above_stays a b limit h beyond in
                rw (e, below, under, beyond, beyond')
                  (zone_ge _ _ (leb_ℤ h_at y) (omega arith)
                    (zone_ge _ _ (not (leb_ℤ y g_at)) (omega arith) (omega arith)))
          ]
        ]
      ]
    ]

-- The code blocks all that is at or above the hard percentage, whether or not the products saturate.
pub compare_limit_i64_fails_closed :
    (observed limit : ℤ) (grace hard : ℕ) (code : BlockCode) (reason : String)
    → leb_ℤ (limit *ℤ pos hard) (observed *ℤ pos 100) ≡ true
    → compare_limit_i64 observed limit grace hard code reason ≡ some (block reason code)
unfolding compare_limit_i64 saturating_mul
compare_limit_i64_fails_closed observed limit grace hard code reason h =
    let at = saturate_mono (limit *ℤ pos hard) (observed *ℤ pos 100) h in
    elim (Bool-cases (leb_ℤ limit (pos 0))) [ inl e ↦ rw e refl | inr e ↦ rw (e, at) refl ]

saturating_mul_small : (a b : ℕ) → a * b < 2 ^ 63 → saturating_mul (pos a) (pos b) ≡ pos (a * b)
unfolding saturating_mul saturate ◌*ℤ◌
saturating_mul_small a b h = ap pos (omega arith)

-- For a limit above zero, a grace percentage of at least 100 and a hard percentage above 100, where
-- nothing saturates: there is no decision, not even a warning, exactly when the limit is not exceeded,
-- and the decision is to block exactly from the hard percentage on.
pub compare_limit_i64_exact :
    (observed limit grace hard : ℕ) (code : BlockCode) (reason : String)
    → 0 < limit
    → 100 ≤ grace
    → 100 < hard
    → observed * 100 < 2 ^ 63
    → limit * grace < 2 ^ 63
    → limit * hard < 2 ^ 63
    → let d = compare_limit_i64 (pos observed) (pos limit) grace hard code reason in
      ((d ≡ none) ↔ (observed ≤ limit))
      × ((d ≡ some (block reason code)) ↔ (limit * hard ≤ observed * 100))
unfolding compare_limit_i64 leb_ℤ
compare_limit_i64_exact observed limit grace hard code reason h0 hg hh ho hlg hlh =
    let g : limit * 100 ≤ limit * grace = mul-le-mul_left limit hg in
    let h : limit * 101 ≤ limit * hard = mul-le-mul_left limit (omega arith) in
    rw
      (
        saturating_mul_small observed 100 ho,
        saturating_mul_small limit grace hlg,
        saturating_mul_small limit hard hlh,
      )
      ((λ e. ground arith, λ e. ground arith), (λ e. ground arith, λ e. ground arith))
