-- ===== src/Ingest/Caps/Totals.antt =====
-- parser_caps.rs: the loops accept exactly the requests whose totals are within the caps.
use zradar.Base.{
  ℕ, ◌+◌, ◌≤◌, ◌≡◌, ◌≢◌, ◌↔◌, refl, sym, ◌<◌, ◌-◌, ◌^◌, inl, inr, List, [], ◌∷◌, length, false, ltb,
  Bool-cases, arith, if◌then◌else◌,
}
use zradar.Base.Results.{Verdict, ok, err}
use zradar.Ingest.Caps.{
  add_usize, max_records_per_request, max_scope_groups_per_request, max_resource_groups_per_request,
  ParserCapError, count_records, count_groups, validate, validate_trace_request,
  validate_metrics_request, validate_logs_request, resource_spans, scope_spans, spans,
  resource_metrics, scope_metrics, metrics, resource_logs, scope_logs, log_records,
}

-- What does not fit the cap does not fit it either when the addition saturates.
add_usize-over :
    (bound a b : ℕ) → bound < 2 ^ 64 - 1 → ltb bound (add_usize a b) ≡ ltb bound (a + b)
add_usize-over bound a b h = ground arith

add_usize-exact :
    (bound a b : ℕ) → bound < 2 ^ 64 - 1 → ltb bound (a + b) ≡ false → add_usize a b ≡ a + b
add_usize-exact bound a b h k = ground arith

err_ne_ok : {e : ParserCapError} → let refused : Verdict ParserCapError = err e in refused ≢ ok tt
err_ne_ok = cc

module _ {ℓ} {A : Type ℓ} where
  abbrev pub record_count : List (List A) → ℕ
  record_count [] = 0
  record_count (g ∷ gs) = length g + record_count gs

  abbrev pub scope_total : List (List (List A)) → ℕ
  scope_total [] = 0
  scope_total (r ∷ rs) = length r + scope_total rs

  abbrev pub record_total : List (List (List A)) → ℕ
  record_total [] = 0
  record_total (r ∷ rs) = record_count r + record_total rs

  count_records-step :
      (e : ParserCapError) (n : ℕ) (g : List A) (gs : List (List A))
      → count_records e n (g ∷ gs) ≡ (
          if ltb max_records_per_request (n + length g)
          then err e
          else count_records e (n + length g) gs)
  unfolding count_records
  count_records-step e n g gs = elim (Bool-cases (ltb max_records_per_request (n + length g))) [
    | inl over ↦ rw (add_usize-over max_records_per_request n (length g) (omega arith), over) refl
    | inr within ↦
        rw
          (
            add_usize-over max_records_per_request n (length g) (omega arith),
            within,
            add_usize-exact max_records_per_request n (length g) (omega arith) within,
          )
          refl
  ]

  -- The inner loop passes exactly if the total is within the cap, and then the total goes on.
  count_records-total :
      (e : ParserCapError) (bound n : ℕ) (gs : List (List A))
      → bound ≡ max_records_per_request
      → n ≤ bound
      → count_records e n gs
        ≡ (if ltb bound (n + record_count gs) then err e else ok (n + record_count gs))
  count_records-total e bound n [] c h = unfold count_records in ground arith
  count_records-total e bound n (g ∷ gs) c h =
      rw (count_records-step e n g gs, sym c)
        (ground (arith, count_records-total e bound (n + length g) gs c))

  count_groups-step :
      (es er : ParserCapError) (s n : ℕ) (r : List (List A)) (rs : List (List (List A)))
      → n ≤ max_records_per_request
      → count_groups es er s n (r ∷ rs) ≡ (
          if ltb max_scope_groups_per_request (s + length r)
          then err es
          else if ltb max_records_per_request (n + record_count r)
          then err er
          else count_groups es er (s + length r) (n + record_count r) rs)
  unfolding count_groups
  count_groups-step es er s n r rs h =
      elim (Bool-cases (ltb max_scope_groups_per_request (s + length r))) [
        | inl over ↦
            rw (add_usize-over max_scope_groups_per_request s (length r) (omega arith), over) refl
        | inr within ↦
            rw
              (
                add_usize-over max_scope_groups_per_request s (length r) (omega arith),
                within,
                add_usize-exact max_scope_groups_per_request s (length r) (omega arith) within,
                count_records-total er max_records_per_request n r refl h,
              )
              (elim (Bool-cases (ltb max_records_per_request (n + record_count r))) [
                | inl e ↦ rw e refl
                | inr e ↦ rw e refl
              ])
      ]

  count_groups-total :
      (es er : ParserCapError) (scope_cap record_cap s n : ℕ) (rs : List (List (List A)))
      → scope_cap ≡ max_scope_groups_per_request
      → record_cap ≡ max_records_per_request
      → s ≤ scope_cap
      → n ≤ record_cap
      → (count_groups es er s n rs ≡ ok tt)
        ↔ ((s + scope_total rs ≤ scope_cap) × (n + record_total rs ≤ record_cap))
  count_groups-total es er cs cr s n [] c d h k =
      (λ e. (omega arith, omega arith), λ e. unfold count_groups in refl)
  count_groups-total es er cs cr s n (r ∷ rs) c d h k =
      let step = count_groups-step es er s n r rs (omega arith) in
      let later = count_groups-total es er cs cr (s + length r) (n + record_count r) rs c d in
      rw (step, sym c, sym d)
        (elim (Bool-cases (ltb cs (s + length r))) [
          | inl over ↦ rw over (λ e. absurd (err_ne_ok e), λ b. absurd (ground arith))
          | inr fits ↦ elim (Bool-cases (ltb cr (n + record_count r))) [
            | inl over ↦ rw (fits, over) (λ e. absurd (err_ne_ok e), λ b. absurd (ground arith))
            | inr holds ↦
                let (there, back) = later (ground arith) (ground arith) in
                rw (fits, holds)
                  (
                    λ e. (let t = there e in (omega (arith, t.0), omega (arith, t.1))),
                    λ b. back (omega (arith, b.0), omega (arith, b.1)),
                  )
          ]
        ])

  validate-totals :
      (er es en : ParserCapError) (req : List (List (List A)))
      → (validate er es en req ≡ ok tt)
        ↔ ((length req ≤ 1024) × (scope_total req ≤ 4096) × (record_total req ≤ 10000))
  unfolding validate
  validate-totals er es en req =
      let (there, back) =
        count_groups-total es en max_scope_groups_per_request max_records_per_request 0 0 req refl
          refl (omega arith) (omega arith) in
      elim (Bool-cases (ltb max_resource_groups_per_request (length req))) [
        | inl over ↦ rw over (λ e. absurd (err_ne_ok e), λ b. absurd (ground arith))
        | inr fits ↦ rw fits (
          λ e. (let t = there e in (ground arith, omega (arith, t.0), omega (arith, t.1))),
          λ b. back (omega (arith, b.1), omega (arith, b.2)),
        )
      ]

  -- Each of the three functions accepts exactly the requests with at most 1024 resource groups, at
  -- most 4096 scope groups in all and at most 10000 records in all.
  pub validate_requests-totals :
      (req : List (List (List A)))
      → ((validate_trace_request req ≡ ok tt)
          ↔ ((length req ≤ 1024) × (scope_total req ≤ 4096) × (record_total req ≤ 10000)))
        × ((validate_metrics_request req ≡ ok tt)
            ↔ ((length req ≤ 1024) × (scope_total req ≤ 4096) × (record_total req ≤ 10000)))
        × ((validate_logs_request req ≡ ok tt)
            ↔ ((length req ≤ 1024) × (scope_total req ≤ 4096) × (record_total req ≤ 10000)))
  validate_requests-totals req = (
    validate-totals resource_spans scope_spans spans req,
    validate-totals resource_metrics scope_metrics metrics req,
    validate-totals resource_logs scope_logs log_records req,
  )
