-- ===== src/Retention/Leases.antt =====
-- file_lease.rs (crates/core/zradar-traits/src): the leases that readers hold on files.
-- The map holds a count for each id; the guards that are alive are the leases that are held.
pub mod Counts
use zradar.Base.{
  ℕ, zero, suc, ◌+◌, ◌-◌, List, [], ◌∷◌, ◌++◌, Bool, true, false, ltb, ◌==◌, if◌then◌else◌,
}

pub record FileLeaseRegistry : Type 0 where
  pub counts : List (ℕ × ℕ)

-- `counts.get(&id)`, with 0 where there is none.
unfoldable pub get_count : ℕ → List (ℕ × ℕ) → ℕ
get_count id [] = 0
get_count id ((k, n) ∷ counts) = let rest = get_count id counts in if id == k then n else rest

-- `*counts.entry(id).or_insert(0) += 1`
unfoldable pub add_one : ℕ → List (ℕ × ℕ) → List (ℕ × ℕ)
add_one id [] = (id, 1) ∷ []
add_one id ((k, n) ∷ counts) =
    let rest = add_one id counts in if id == k then (k, n + 1) ∷ counts else (k, n) ∷ rest

-- The count goes down, and an entry at 0 is removed.
unfoldable pub sub_one : ℕ → List (ℕ × ℕ) → List (ℕ × ℕ)
sub_one id [] = []
sub_one id ((k, n) ∷ counts) =
    let rest = sub_one id counts in
    if id == k then (if n - 1 == 0 then counts else (k, n - 1) ∷ counts) else (k, n) ∷ rest

unfoldable pub acquire : List ℕ → FileLeaseRegistry → FileLeaseRegistry
unfolding add_one
acquire [] r = r
acquire (id ∷ ids) r = acquire ids (record r { counts = add_one id r.counts })

unfoldable pub is_leased : ℕ → FileLeaseRegistry → Bool
unfolding get_count
is_leased id r = ltb 0 (get_count id r.counts)

unfoldable pub release : ℕ → FileLeaseRegistry → FileLeaseRegistry
unfolding sub_one
release id r = record r { counts = sub_one id r.counts }

-- The registry and the guards that are alive, each with its file.
pub record Readers : Type 0 where
  pub registry : FileLeaseRegistry
  pub held : List ℕ

-- A reader acquires leases, or one of the guards, by its position, is dropped.
pub data LeaseStep : Type 0 where
  acquires : List ℕ → LeaseStep
  drops : ℕ → LeaseStep

unfoldable pub remove_at : ℕ → List ℕ → List ℕ
remove_at n [] = []
remove_at zero (id ∷ ids) = ids
remove_at (suc n) (id ∷ ids) = id ∷ remove_at n ids

unfoldable pub drop_guard : ℕ → List ℕ → FileLeaseRegistry → FileLeaseRegistry
unfolding release
drop_guard n [] r = r
drop_guard zero (id ∷ ids) r = release id r
drop_guard (suc n) (id ∷ ids) r = drop_guard n ids r

unfoldable pub lease_step : LeaseStep → Readers → Readers
unfolding acquire drop_guard remove_at
lease_step (acquires ids) w = record { registry = acquire ids w.registry; held = w.held ++ ids }
lease_step (drops n) w = record {
  registry = drop_guard n w.held w.registry;
  held = remove_at n w.held;
}

unfoldable pub lease_steps : List LeaseStep → Readers → Readers
unfolding lease_step
lease_steps [] w = w
lease_steps (s ∷ ss) w = lease_steps ss (lease_step s w)
