-- ===== src/Policy/Enforcer/Query.antt =====
-- enforcer.rs: the time range of a query that `check_query` lets through.
use zradar.Base.{
  ℕ, zero, suc, ◌+◌, ◌-◌, ◌*◌, ◌^◌, ◌≤◌, ◌<◌, ◌≡◌, ◌≢◌, refl, ap, Option, none, some, [], Bool,
  true, false, not, min, arith,
}
use zradar.Base.Integers.{
  ℤ, pos, neg, negate, sub_nat, ◌+ℤ◌, ◌*ℤ◌, leb_ℤ, saturate, saturating_sub, saturating_mul,
}
use zradar.Policy.Types.{
  SignalKind, Operation, query, PolicyLimit, retention, window, ResolvedPolicy, Decision, allow,
  QueryCtx, UsageReader,
}
use zradar.Policy.Checks.{days_micros, retention_violated, window_violated, check_query_range}
use zradar.Policy.Enforcer.{Outcome, settle, audited, check_query}

saturating_sub-le :
    (a b c : ℕ) → a < 2 ^ 63 → leb_ℤ (saturating_sub (pos a) (pos b)) (pos c) ≡ true → a ≤ c + b
unfolding saturating_sub saturate leb_ℤ negate neg sub_nat ◌+ℤ◌
saturating_sub-le a zero c h k = ground arith
saturating_sub-le a (suc b) c h k = ground arith

days_micros-min : (d : ℕ) → days_micros d ≡ pos (min (d * 86400000000) (2 ^ 63 - 1))
unfolding days_micros saturating_mul saturate ◌*ℤ◌
days_micros-min d = refl

retention_kept :
    (n d s : ℕ)
    → n < 2 ^ 63
    → leb_ℤ (saturating_sub (pos n) (days_micros d)) (pos s) ≡ true
    → n ≤ s + d * 86400000000
retention_kept n d s h k =
    let le =
      saturating_sub-le n (min (d * 86400000000) (2 ^ 63 - 1)) s h (rw (days_micros-min d) at k) in
    omega arith

window_kept :
    (s e w : ℕ)
    → e < 2 ^ 63
    → leb_ℤ (saturating_sub (pos e) (pos s)) (days_micros w) ≡ true
    → e ≤ s + w * 86400000000
window_kept s e w h k =
    let le =
      saturating_sub-le e s (min (w * 86400000000) (2 ^ 63 - 1)) h (rw (days_micros-min w) at k) in
    omega arith

check_query_range-ne-allow :
    (ctx : QueryCtx) (r w : Option PolicyLimit) → check_query_range ctx r w ≢ some allow
unfolding check_query_range
check_query_range-ne-allow ctx r w h = ground arith

check_query_range-none :
    (ctx : QueryCtx) (r w : Option PolicyLimit)
    → check_query_range ctx r w ≡ none
    → (retention_violated ctx r ctx.start_micros ≡ false)
      × (window_violated w ctx.start_micros ctx.end_micros ≡ false)
unfolding check_query_range
check_query_range-none ctx r w h = (ground arith, ground arith)

not-false : (b : Bool) → not b ≡ false → b ≡ true
not-false true h = refl
not-false false h = cc

settle-allow :
    (workspace_id : ℕ) (signal : SignalKind) (operation : Operation) (created_at : ℤ)
    (decision : Option Decision) (rest : Outcome)
    → decision ≢ some allow
    → (settle workspace_id signal operation created_at (decision, []) rest).decision ≡ allow
    → decision ≡ none
unfolding settle audited
settle-allow w s o t none rest n h = refl
settle-allow w s o t (some d) rest n h = absurd (n (ap some h))

-- A query that gives both its start and its end, and that is plainly allowed under a policy with both
-- a retention of `d` days and a window of `w` days, starts no more than `d` days before now, and ends
-- no more than `w` days after its start. The times are from 1970 on and an `i64` holds them.
pub check_query_allow :
    (usage : UsageReader) (resolve : ℕ → SignalKind → Operation → ResolvedPolicy) (ctx : QueryCtx)
    (now start end d w : ℕ)
    → ctx.now_micros ≡ pos now
    → ctx.start_micros ≡ some (pos start)
    → ctx.end_micros ≡ some (pos end)
    → now < 2 ^ 63
    → end < 2 ^ 63
    → (resolve ctx.workspace_id ctx.signal query).retention_limit ≡ some (retention d)
    → (resolve ctx.workspace_id ctx.signal query).query_window ≡ some (window w)
    → (check_query usage resolve ctx).decision ≡ allow
    → (now ≤ start + d * 86400000000) × (end ≤ start + w * 86400000000)
unfolding check_query retention_violated window_violated
check_query_allow usage resolve ctx now start end d w en es ee hn he hr hw h =
    let p = resolve ctx.workspace_id ctx.signal query in
    let passed =
      settle-allow _ _ _ _ (check_query_range ctx p.retention_limit p.query_window) _
        (check_query_range-ne-allow ctx p.retention_limit p.query_window) h in
    let (kept, within) = check_query_range-none ctx p.retention_limit p.query_window passed in
    let kept' : retention_violated ctx (some (retention d)) (some (pos start)) ≡ false =
      rw (hr, es) at kept in
    let within' : window_violated (some (window w)) (some (pos start)) (some (pos end)) ≡ false =
      rw (hw, es, ee) at within in
    (
      retention_kept now d start hn (not-false _ (rw en at kept')),
      window_kept start end w he (not-false _ within'),
    )
