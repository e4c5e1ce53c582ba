-- ===== src/Wal/Flusher/Pending.antt =====
-- flusher.rs: what is still to be flushed, segment by segment.
use zradar.Base.{
  ℕ, ◌≤◌, ◌<◌, Bool-cases, inl, inr, ◌≡◌, ◌≢◌, refl, ap, Option, none, some, List, [], ◌∷◌, ◌++◌,
  arith, true, false, ltb, max, if◌then◌else◌,
}
use zradar.Wal.Checkpoint.{Checkpoint, start_segment}
use zradar.Wal.Record.{WalRecord}
use zradar.Wal.Log.View.{Segment, all_records}
use zradar.Wal.Flusher.{skips, batch_of, raise_max, max_offset_in_batch}

-- The records behind a checkpoint: none of an older segment, those above the offset in its own, and
-- all of a newer one.
unfoldable pub pending : Option Checkpoint → List Segment → List WalRecord
pending cp [] = []
pending cp (s ∷ ss) =
    let rest = pending cp ss in
    if ltb s.id (start_segment cp) then rest else batch_of cp s.id s.records ++ rest

abbrev pub IdsAbove : ℕ → List Segment → Type 0
IdsAbove n [] = Unit
IdsAbove n (s ∷ ss) = (n < s.id) × IdsAbove n ss

-- The ids rise, as `list_segments` sorts them.
abbrev pub Ascending : List Segment → Type 0
Ascending [] = Unit
Ascending (s ∷ ss) = IdsAbove s.id ss × Ascending ss

pub IdsAbove-mono : (m n : ℕ) (ss : List Segment) → m ≤ n → IdsAbove n ss → IdsAbove m ss
IdsAbove-mono m n [] h a = tt
IdsAbove-mono m n (s ∷ ss) h a = (omega arith, IdsAbove-mono m n ss h a.1)

-- Every record of a segment that is not the checkpoint's goes into the batch.
pub batch_of_other :
    (cp : Option Checkpoint) (id : ℕ) (rs : List WalRecord)
    → start_segment cp < id
    → batch_of cp id rs ≡ rs
unfolding batch_of skips
batch_of_other none id [] h = refl
batch_of_other (some cp) id [] h = refl
batch_of_other none id (r ∷ rs) h = ap (λ (l : List WalRecord). r ∷ l) (batch_of_other none id rs h)
batch_of_other (some cp) id (r ∷ rs) h = ground (arith, batch_of_other (some cp) id rs h)

pub pending_above :
    (cp : Option Checkpoint) (ss : List Segment)
    → IdsAbove (start_segment cp) ss
    → pending cp ss ≡ all_records ss
unfolding pending all_records
pending_above cp [] h = refl
pending_above cp (s ∷ ss) h =
    ground (arith, batch_of_other cp s.id s.records h.0, pending_above cp ss h.1)

-- The greatest offset is at least the one that the count starts from.
max_offset_ge :
    (k : ℕ) (rs : List WalRecord) (n : ℕ) → max_offset_in_batch (some k) rs ≡ some n → k ≤ n
unfolding max_offset_in_batch
max_offset_ge k [] n h = ground arith
max_offset_ge k (r ∷ rs) n h = omega (arith, max_offset_ge (max k r.assigned_offset) rs n h)

raise_max_ge : (m : Option ℕ) (k : ℕ) → (j : ℕ) × (raise_max m k ≡ some j) × (k ≤ j)
unfolding raise_max
raise_max_ge none k = (k, refl, omega arith)
raise_max_ge (some j) k = (max j k, refl, omega arith)

abbrev pub AtMost : ℕ → List WalRecord → Type 0
AtMost m [] = Unit
AtMost m (r ∷ rs) = (r.assigned_offset ≤ m) × AtMost m rs

pub skips-le :
    (start : Option Checkpoint) (id : ℕ) (r : WalRecord) (m : ℕ)
    → skips start id r ≡ true
    → ((c : Checkpoint)
        → start ≡ some c
        → id ≡ c.last_flushed_segment_id
        → c.last_flushed_offset ≤ m)
    → r.assigned_offset ≤ m
unfolding skips
skips-le none id r m h low = cc
skips-le (some c) id r m h low = ground (arith, low c refl)

-- What a pass skips lies at or below the checkpoint, what it takes at or below the new offset.
batch_of-AtMost :
    (start : Option Checkpoint) (id : ℕ) (rs : List WalRecord) (acc : Option ℕ) (m : ℕ)
    → max_offset_in_batch acc (batch_of start id rs) ≡ some m
    → ((c : Checkpoint)
        → start ≡ some c
        → id ≡ c.last_flushed_segment_id
        → c.last_flushed_offset ≤ m)
    → AtMost m rs
unfolding batch_of
batch_of-AtMost start id [] acc m h low = tt
batch_of-AtMost start id (r ∷ rs) acc m h low = elim (Bool-cases (skips start id r)) [
  | inl skipped ↦ (
    skips-le start id r m skipped low,
    batch_of-AtMost start id rs acc m (rw (skipped, batch_of) at h) low,
  )
  | inr taken ↦
      let h' : max_offset_in_batch (raise_max acc r.assigned_offset) (batch_of start id rs)
          ≡ some m =
        unfold max_offset_in_batch in (rw (taken, batch_of) at h) in
      let (j, raised, at_least) = raise_max_ge acc r.assigned_offset in
      let above = max_offset_ge j (batch_of start id rs) m (rw raised at h') in
      (omega arith, batch_of-AtMost start id rs (raise_max acc r.assigned_offset) m h' low)
]

-- Behind a checkpoint at the greatest offset nothing of the segment is left.
pub batch_of_settled :
    (cp : Checkpoint) (rs : List WalRecord)
    → AtMost cp.last_flushed_offset rs
    → batch_of (some cp) cp.last_flushed_segment_id rs ≡ []
unfolding batch_of skips
batch_of_settled cp [] a = refl
batch_of_settled cp (r ∷ rs) a = ground (arith, batch_of_settled cp rs a.1)

max_offset_low :
    (start : Option Checkpoint) (id : ℕ) (rs : List WalRecord) (m : ℕ) (c : Checkpoint)
    → max_offset_in_batch none (batch_of start id rs) ≡ some m
    → start ≡ some c
    → id ≡ c.last_flushed_segment_id
    → c.last_flushed_offset ≤ m
unfolding batch_of
max_offset_low start id [] m c h e at = unfold max_offset_in_batch in cc
max_offset_low start id (r ∷ rs) m c h e at = elim (Bool-cases (skips start id r)) [
  | inl skipped ↦ max_offset_low start id rs m c (rw (skipped, batch_of) at h) e at
  | inr taken ↦
      let h' : max_offset_in_batch (some r.assigned_offset) (batch_of start id rs) ≡ some m =
        unfold max_offset_in_batch raise_max in (rw (taken, batch_of) at h) in
      let above = max_offset_ge r.assigned_offset (batch_of start id rs) m h' in
      unfold skips in ground arith
]

-- After the batch of a pass, its segment is settled.
pub batch_of_after :
    (start : Option Checkpoint) (rs : List WalRecord) (cp : Checkpoint)
    → max_offset_in_batch none (batch_of start cp.last_flushed_segment_id rs)
      ≡ some cp.last_flushed_offset
    → batch_of (some cp) cp.last_flushed_segment_id rs ≡ []
batch_of_after start rs cp h = batch_of_settled cp rs (
    batch_of-AtMost start cp.last_flushed_segment_id rs none cp.last_flushed_offset h
      λ c e at. max_offset_low start cp.last_flushed_segment_id rs cp.last_flushed_offset c h e at)

max_offset_some : (k : ℕ) (rs : List WalRecord) → max_offset_in_batch (some k) rs ≢ none
unfolding max_offset_in_batch
max_offset_some k [] h = cc
max_offset_some k (r ∷ rs) h = max_offset_some (max k r.assigned_offset) rs h

-- Without a greatest offset the batch is empty.
pub max_offset_none : (rs : List WalRecord) → max_offset_in_batch none rs ≡ none → rs ≡ []
unfolding max_offset_in_batch
max_offset_none [] h = refl
max_offset_none (r ∷ rs) h = absurd (max_offset_some r.assigned_offset rs h)

IdsAbove-middle :
    (n : ℕ) (done : List Segment) (s : Segment) (rest : List Segment)
    → IdsAbove n (done ++ s ∷ rest)
    → n < s.id
IdsAbove-middle n [] s rest a = a.0
IdsAbove-middle n (d ∷ done) s rest a = IdsAbove-middle n done s rest a.1

pub Ascending-middle :
    (done : List Segment) (s : Segment) (rest : List Segment)
    → Ascending (done ++ s ∷ rest)
    → IdsAbove s.id rest
Ascending-middle [] s rest a = a.0
Ascending-middle (d ∷ done) s rest a = Ascending-middle done s rest a.1

-- Behind a checkpoint in a segment: what is left of it, and all of the newer ones.
pub pending_at :
    (cp : Checkpoint) (done : List Segment) (s : Segment) (rest : List Segment)
    → Ascending (done ++ s ∷ rest)
    → cp.last_flushed_segment_id ≡ s.id
    → pending (some cp) (done ++ s ∷ rest) ≡ batch_of (some cp) s.id s.records ++ all_records rest
unfolding pending
pending_at cp [] s rest a e = rw (pending_above (some cp) rest (rw e a.0)) (ground (arith, e))
pending_at cp (d ∷ done) s rest a e =
    ground (arith, pending_at cp done s rest a.1 e, IdsAbove-middle d.id done s rest a.0)

pub pending_older :
    (cp : Option Checkpoint) (s : Segment) (ss : List Segment)
    → ltb s.id (start_segment cp) ≡ true
    → pending cp (s ∷ ss) ≡ pending cp ss
unfolding pending
pending_older cp s ss h = rw h

pub pending_newer :
    (cp : Option Checkpoint) (s : Segment) (ss : List Segment)
    → ltb s.id (start_segment cp) ≡ false
    → pending cp (s ∷ ss) ≡ batch_of cp s.id s.records ++ pending cp ss
unfolding pending
pending_newer cp s ss h = rw h
