-- ===== src/Ingest/Breaker/Verdicts.antt =====
-- circuit_breaker.rs: when the breaker trips, and what a dropped caller leaves behind.
use zradar.Base.{
  ℕ, ◌≤◌, ◌≡◌, ◌↔◌, ◌≢◌, ◌∙◌, sym, ap, ltb_false→le, refl, inl, inr, Option, none, some, List, [],
  ◌∷◌, true, false, Bool-cases, ltb, arith,
}
use zradar.Base.Results.{Verdict, ok, err}
use zradar.Ingest.Breaker.{
  Trip, CircuitBreaker, ResourceSample, collected, caller_dropped, Probe, over, known, verdict,
  evaluate, refresh_resources_if_stale, is_fresh, finish_sample, store_sample, percent_or_unknown,
}

true_ne_false : true ≢ false
true_ne_false = cc

tripped : {t : Trip} → let answer : Option (Verdict Trip) = some (err t) in answer ≢ some (ok tt)
tripped = cc

abbrev pub Within : Option ℕ → ℕ → Type 0
Within none limit = Unit
Within (some usage) limit = usage ≤ limit

abbrev pub IsPercent : Option ℕ → Type 0
IsPercent none = Unit
IsPercent (some usage) = usage ≤ 100

over-Within :
    (usage : Option ℕ) (limit : ℕ)
    → IsPercent usage
    → (over (known (percent_or_unknown usage)) limit ≡ false) ↔ Within usage limit
unfolding known percent_or_unknown
over-Within none limit h = (λ e. tt, λ w. refl)
over-Within (some usage) limit h = (λ e. ground arith, λ w. ground arith)

verdict-Within :
    (b : CircuitBreaker) (sample : ResourceSample)
    → IsPercent sample.disk_percent
    → IsPercent sample.memory_percent
    → b.disk_usage_percent ≡ percent_or_unknown sample.disk_percent
    → b.memory_usage_percent ≡ percent_or_unknown sample.memory_percent
    → (some (verdict b) ≡ some (ok tt)) ↔ (
        Within sample.disk_percent b.max_disk_usage_percent
        × Within sample.memory_percent b.max_memory_usage_percent
        × (b.queue_depth ≤ b.max_queue_depth))
unfolding verdict
verdict-Within b sample hd hm ed em =
    let disk = over-Within sample.disk_percent b.max_disk_usage_percent hd in
    let memory = over-Within sample.memory_percent b.max_memory_usage_percent hm in
    rw (ed, em)
      (elim (Bool-cases
        (over (known (percent_or_unknown sample.disk_percent)) b.max_disk_usage_percent)) [
          | inl e ↦ rw e (λ t. absurd (tripped t), λ w. absurd (true_ne_false (sym e ∙ disk.1 w.0)))
          | inr d ↦
              elim (Bool-cases (
                over (known (percent_or_unknown sample.memory_percent))
                  b.max_memory_usage_percent)) [
                    | inl e ↦
                        rw (d, e)
                          (
                            λ t. absurd (tripped t),
                            λ w. absurd (true_ne_false (sym e ∙ memory.1 w.1)),
                          )
                    | inr m ↦ elim (Bool-cases (ltb b.max_queue_depth b.queue_depth)) [
                      | inl e ↦ rw (d, m, e) (λ t. absurd (tripped t), λ w. absurd (ground arith))
                      | inr q ↦
                          rw (d, m, q)
                            (
                              λ t. (
                                disk.0 d,
                                memory.0 m,
                                ltb_false→le b.max_queue_depth b.queue_depth q,
                              ),
                              λ w. refl,
                            )
                    ]
                  ]
        ])

-- A call that samples lets the request pass exactly if each usage that was measured and the queue are
-- within their thresholds.
pub evaluate_samples :
    (p : Probe) (b : CircuitBreaker) (sample : ResourceSample)
    → is_fresh p b ≡ false
    → b.sampling ≡ false
    → p.sampled ≡ collected sample
    → IsPercent sample.disk_percent
    → IsPercent sample.memory_percent
    → ((evaluate p b).1 ≡ some (ok tt)) ↔ (
        Within sample.disk_percent b.max_disk_usage_percent
        × Within sample.memory_percent b.max_memory_usage_percent
        × (b.queue_depth ≤ b.max_queue_depth))
unfolding evaluate refresh_resources_if_stale finish_sample store_sample verdict known
    percent_or_unknown
evaluate_samples p b sample stale idle got hd hm =
    rw (stale, idle, got) (verdict-Within (store_sample p.later sample b) sample hd hm refl refl)

-- The breaker after calls that answer or are dropped.
unfoldable pub calls : List Probe → CircuitBreaker → CircuitBreaker
unfolding evaluate
calls [] b = b
calls (p ∷ ps) b = calls ps (evaluate p b).0

refresh_sampling : (p : Probe) (b : CircuitBreaker) → b.sampling ≡ true → (evaluate p b).0 ≡ b
unfolding evaluate refresh_resources_if_stale
refresh_sampling p b h = elim (Bool-cases (is_fresh p b)) [
  | inl e ↦ rw e refl
  | inr e ↦ rw (e, h) refl
]

calls_sampling : (ps : List Probe) (b : CircuitBreaker) → b.sampling ≡ true → calls ps b ≡ b
unfolding calls
calls_sampling [] b h = refl
calls_sampling (p ∷ ps) b h = rw (refresh_sampling p b h) (calls_sampling ps b h)

evaluate_dropped :
    (p : Probe) (b : CircuitBreaker)
    → is_fresh p b ≡ false
    → b.sampling ≡ false
    → p.sampled ≡ caller_dropped
    → (evaluate p b).0 ≡ record b { sampling = true }
unfolding evaluate refresh_resources_if_stale finish_sample
evaluate_dropped p b stale idle gone = rw (stale, idle, gone) refl

-- Once a caller has been dropped while it sampled, no later call samples: the usages stay as they
-- were.
pub calls_dropped :
    (p : Probe) (ps : List Probe) (b : CircuitBreaker)
    → is_fresh p b ≡ false
    → b.sampling ≡ false
    → p.sampled ≡ caller_dropped
    → let b' = calls (p ∷ ps) b in
      (b'.disk_usage_percent ≡ b.disk_usage_percent)
      × (b'.memory_usage_percent ≡ b.memory_usage_percent)
      × (b'.last_sample_ms ≡ b.last_sample_ms)
unfolding calls
calls_dropped p ps b stale idle gone =
    let same : calls ps (evaluate p b).0 ≡ record b { sampling = true } =
      rw (evaluate_dropped p b stale idle gone)
        (calls_sampling ps (record b { sampling = true }) refl) in
    (
      ap (λ (c : CircuitBreaker). c.disk_usage_percent) same,
      ap (λ (c : CircuitBreaker). c.memory_usage_percent) same,
      ap (λ (c : CircuitBreaker). c.last_sample_ms) same,
    )
