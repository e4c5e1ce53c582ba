-- ===== src/Retention/Leases/Counts.antt =====
-- file_lease.rs: the registry counts the guards that are alive.
use zradar.Base.{
  ℕ, zero, suc, ◌+◌, ◌-◌, ◌≡◌, refl, ap, ◌⊎◌, inl, inr, List, [], ◌∷◌, ◌++◌, false, ltb, ◌==◌,
  if◌then◌else◌, Bool-cases, arith,
}
use zradar.Retention.Leases.{
  FileLeaseRegistry, get_count, add_one, sub_one, acquire, is_leased, release, Readers, LeaseStep,
  acquires, drops, remove_at, drop_guard, lease_step, lease_steps,
}

-- How often an id stands in a list.
unfoldable pub occurrences : ℕ → List ℕ → ℕ
occurrences id [] = 0
occurrences id (k ∷ ks) = (if id == k then 1 else 0) + occurrences id ks

occurrences-append :
    (id : ℕ) (xs ys : List ℕ) → occurrences id (xs ++ ys) ≡ occurrences id xs + occurrences id ys
unfolding occurrences
occurrences-append id [] ys = omega arith
occurrences-append id (x ∷ xs) ys = omega (arith, occurrences-append id xs ys)

get_count-add_one :
    (id k : ℕ) (counts : List (ℕ × ℕ))
    → get_count id (add_one k counts) ≡ get_count id counts + (if id == k then 1 else 0)
unfolding get_count add_one
get_count-add_one id k [] = ground arith
get_count-add_one id k ((j, n) ∷ counts) = ground (arith, get_count-add_one id k counts)

-- Each id has one entry.
abbrev NoCount : ℕ → List (ℕ × ℕ) → Type 0
NoCount k [] = Unit
NoCount k ((j, n) ∷ counts) = ((k == j) ≡ false) × NoCount k counts

abbrev pub UniqueIds : List (ℕ × ℕ) → Type 0
UniqueIds [] = Unit
UniqueIds ((j, n) ∷ counts) = NoCount j counts × UniqueIds counts

get_count-NoCount : (id : ℕ) (counts : List (ℕ × ℕ)) → NoCount id counts → get_count id counts ≡ 0
unfolding get_count
get_count-NoCount id [] h = refl
get_count-NoCount id ((j, n) ∷ counts) h = ground (arith, get_count-NoCount id counts h.1)

get_count-sub_one :
    (id k : ℕ) (counts : List (ℕ × ℕ))
    → UniqueIds counts
    → get_count id (sub_one k counts) ≡ get_count id counts - (if id == k then 1 else 0)
unfolding get_count sub_one
get_count-sub_one id k [] u = ground arith
get_count-sub_one id k ((j, n) ∷ counts) u =
    ground (arith, get_count-sub_one id k counts u.1, get_count-NoCount j counts u.0)

add_one-NoCount :
    (j k : ℕ) (counts : List (ℕ × ℕ))
    → (j == k) ≡ false
    → NoCount j counts
    → NoCount j (add_one k counts)
unfolding add_one
add_one-NoCount j k [] other h = (other, tt)
add_one-NoCount j k ((i, n) ∷ counts) other h = ground (arith, add_one-NoCount j k counts other h.1)

add_one-UniqueIds :
    (k : ℕ) (counts : List (ℕ × ℕ)) → UniqueIds counts → UniqueIds (add_one k counts)
unfolding add_one
add_one-UniqueIds k [] u = (tt, tt)
add_one-UniqueIds k ((j, n) ∷ counts) u = elim (Bool-cases (k == j)) [
  | inl same ↦ rw same u
  | inr other ↦
      let other' : (j == k) ≡ false = ground arith in
      rw other (add_one-NoCount j k counts other' u.0, add_one-UniqueIds k counts u.1)
]

sub_one-NoCount :
    (j k : ℕ) (counts : List (ℕ × ℕ)) → NoCount j counts → NoCount j (sub_one k counts)
unfolding sub_one
sub_one-NoCount j k [] h = tt
sub_one-NoCount j k ((i, n) ∷ counts) h = ground (arith, sub_one-NoCount j k counts h.1)

sub_one-UniqueIds :
    (k : ℕ) (counts : List (ℕ × ℕ)) → UniqueIds counts → UniqueIds (sub_one k counts)
unfolding sub_one
sub_one-UniqueIds k [] u = tt
sub_one-UniqueIds k ((j, n) ∷ counts) u =
    let later = sub_one-UniqueIds k counts u.1 in
    let apart = sub_one-NoCount j k counts u.0 in
    elim (Bool-cases (k == j)) [
      | inr other ↦ rw other (apart, later)
      | inl same ↦ elim (Bool-cases (n - 1 == 0)) [
        | inl last ↦ rw (same, last) (u.1)
        | inr more ↦ rw (same, more) u
      ]
    ]

acquire-counts :
    (ids : List ℕ) (r : FileLeaseRegistry)
    → UniqueIds r.counts
    → UniqueIds (acquire ids r).counts
      × ((id : ℕ)
          → get_count id (acquire ids r).counts ≡ get_count id r.counts + occurrences id ids)
unfolding acquire occurrences
acquire-counts [] r u = (u, λ id. omega arith)
acquire-counts (k ∷ ids) r u =
    let r' : FileLeaseRegistry = record r { counts = add_one k r.counts } in
    let (unique, counted) = acquire-counts ids r' (add_one-UniqueIds k r.counts u) in
    (unique, λ id. omega (arith, counted id, get_count-add_one id k r.counts))

-- A guard that is dropped is released, or there is none at the position.
drop_guard-release :
    (n : ℕ) (held : List ℕ) (r : FileLeaseRegistry)
    → ((k : ℕ) × (drop_guard n held r ≡ release k r)
        × ((id : ℕ)
            → occurrences id held ≡ (if id == k then 1 else 0) + occurrences id (remove_at n held)))
      ⊎ ((drop_guard n held r ≡ r) × (remove_at n held ≡ held))
unfolding drop_guard remove_at occurrences
drop_guard-release n [] r = inr (refl, refl)
drop_guard-release zero (k ∷ held) r = inl (k, refl, λ id. refl)
drop_guard-release (suc n) (j ∷ held) r = elim (drop_guard-release n held r) [
  | inl (k, released, fewer) ↦ inl (k, released, λ id. omega (arith, fewer id))
  | inr (same, kept) ↦ inr (same, ap (λ (l : List ℕ). j ∷ l) kept)
]

-- The counts are those of the guards that are alive.
pub record IsCounted (w : Readers) : Type 0 where
  pub unique : UniqueIds w.registry.counts
  pub counted : (id : ℕ) → get_count id w.registry.counts ≡ occurrences id w.held

lease_step-IsCounted : (s : LeaseStep) (w : Readers) → IsCounted w → IsCounted (lease_step s w)
unfolding lease_step release
lease_step-IsCounted (acquires ids) w h =
    let (unique, grown) = acquire-counts ids w.registry h.unique in
    record {
      unique = unique;
      counted = λ id. omega (arith, grown id, h.counted id, occurrences-append id w.held ids);
    }
lease_step-IsCounted (drops n) w h = elim (drop_guard-release n w.held w.registry) [
  | inr (same, kept) ↦ record {
    unique = rw same (h.unique);
    counted = λ id. rw (same, kept) (h.counted id);
  }
  | inl (k, released, fewer) ↦ record {
    unique = rw released (sub_one-UniqueIds k w.registry.counts h.unique);
    counted = λ id.
        rw released (
          omega (arith, get_count-sub_one id k w.registry.counts h.unique, h.counted id, fewer id));
  }
]

-- However readers acquire leases and drop their guards, the registry counts for each file the guards
-- that are alive, so that a file is leased exactly while a guard of it lives.
pub lease_steps-leased :
    (ss : List LeaseStep) (w : Readers)
    → IsCounted w
    → IsCounted (lease_steps ss w)
      × ((id : ℕ)
          → is_leased id (lease_steps ss w).registry
            ≡ ltb 0 (occurrences id (lease_steps ss w).held))
unfolding lease_steps is_leased
lease_steps-leased [] w h = (h, λ id. ap (ltb 0) (h.counted id))
lease_steps-leased (s ∷ ss) w h =
    lease_steps-leased ss (lease_step s w) (lease_step-IsCounted s w h)
