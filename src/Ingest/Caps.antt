-- ===== src/Ingest/Caps.antt =====
-- parser_caps.rs: the caps on a decoded export request. A request is the list of its resource groups,
-- each the list of its scope groups, each the list of its records.
pub mod Totals
use zradar.Base.{ℕ, ◌+◌, ◌-◌, ◌^◌, min, List, [], ◌∷◌, length, Bool, ltb, if◌then◌else◌, String}
use zradar.Ingest.Status.{Status, plain, resource_exhausted}
use zradar.Base.Results.{Result, Verdict, ok, err, and_then}

abbrev pub max_resource_groups_per_request : ℕ
max_resource_groups_per_request = 1024

abbrev pub max_scope_groups_per_request : ℕ
max_scope_groups_per_request = 4096

abbrev pub max_records_per_request : ℕ
max_records_per_request = 10000

pub data ParserCapError : Type 0 where
  resource_spans scope_spans spans : ParserCapError
  resource_metrics scope_metrics metrics : ParserCapError
  resource_logs scope_logs log_records : ParserCapError

unfoldable pub message : ParserCapError → String
message resource_spans = "too_many_resource_spans"
message scope_spans = "too_many_scope_spans"
message spans = "too_many_spans"
message resource_metrics = "too_many_resource_metrics"
message scope_metrics = "too_many_scope_metrics"
message metrics = "too_many_metrics"
message resource_logs = "too_many_resource_logs"
message scope_logs = "too_many_scope_logs"
message log_records = "too_many_log_records"

unfoldable pub into_status : ParserCapError → Status
unfolding message
into_status e = plain resource_exhausted (message e)

-- `saturating_add` on `usize`.
abbrev pub add_usize : ℕ → ℕ → ℕ
add_usize a b = min (a + b) (2 ^ 64 - 1)

module _ {ℓ} {A : Type ℓ} where
  -- The inner loop: the count of records that it goes on with, or the error.
  unfoldable pub count_records : ParserCapError → ℕ → List (List A) → Result ℕ ParserCapError
  count_records too_many records [] = ok records
  count_records too_many records (g ∷ gs) =
      let counted = add_usize records (length g) in
      let rest = count_records too_many counted gs in
      if ltb max_records_per_request counted then err too_many else rest

  -- The loop over the resource groups, from the counts of scopes and records so far.
  unfoldable pub count_groups :
      ParserCapError → ParserCapError → ℕ → ℕ → List (List (List A)) → Verdict ParserCapError
  unfolding count_records
  count_groups too_many_scopes too_many_records scopes records [] = ok tt
  count_groups too_many_scopes too_many_records scopes records (r ∷ rs) =
      let counted = add_usize scopes (length r) in
      let rest =
        and_then (count_records too_many_records records r)
          (λ n. count_groups too_many_scopes too_many_records counted n rs) in
      if ltb max_scope_groups_per_request counted then err too_many_scopes else rest

  -- The shape that the three functions share.
  unfoldable pub validate :
      ParserCapError
      → ParserCapError
      → ParserCapError
      → List (List (List A))
      → Verdict ParserCapError
  unfolding count_groups
  validate too_many_resources too_many_scopes too_many_records req =
      if ltb max_resource_groups_per_request (length req)
      then err too_many_resources
      else count_groups too_many_scopes too_many_records 0 0 req

  abbrev pub validate_trace_request : List (List (List A)) → Verdict ParserCapError
  validate_trace_request = validate resource_spans scope_spans spans

  abbrev pub validate_metrics_request : List (List (List A)) → Verdict ParserCapError
  validate_metrics_request = validate resource_metrics scope_metrics metrics

  abbrev pub validate_logs_request : List (List (List A)) → Verdict ParserCapError
  validate_logs_request = validate resource_logs scope_logs log_records
