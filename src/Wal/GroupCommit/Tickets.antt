-- ===== src/Wal/GroupCommit/Tickets.antt =====
-- group_commit.rs: every append that registers is notified once, in order, by the next good fsync.
use zradar.Base.{
  ℕ, zero, suc, ◌+◌, ◌≡◌, ◌∙◌, sym, Bool-cases, refl, ap, inl, inr, List, [], ◌∷◌, ◌++◌,
  append_assoc, append-nil, Bool, true, false, arith,
}
use zradar.Wal.GroupCommit.{
  FsyncQueue, new, register, drain_and_notify, has_pending, inc_fsync_count, commit_round,
}

-- Appends register and the commit task goes round, in any order.
pub data Step (q : FsyncQueue) : FsyncQueue → Type 0 where
  registers : Step q (register q).0
  goes_round : (fsync_ok : Bool) → Step q (commit_round fsync_ok q)

pub data Reachable : FsyncQueue → Type 0 where
  starts : Reachable new
  steps : {q q' : FsyncQueue} → Reachable q → Step q q' → Reachable q'

-- The tickets below `n`, in order.
abbrev pub tickets : ℕ → List ℕ
tickets zero = []
tickets (suc n) = tickets n ++ n ∷ []

tickets-add : (n : ℕ) → tickets (n + 1) ≡ tickets n ++ n ∷ []
tickets-add n = let next : n + 1 ≡ suc n = omega arith in ap tickets next

commit_round-tickets :
    (fsync_ok : Bool) (q : FsyncQueue)
    → (commit_round fsync_ok q).notified ++ (commit_round fsync_ok q).pending
      ≡ q.notified ++ q.pending
unfolding commit_round drain_and_notify inc_fsync_count
commit_round-tickets true q = elim (Bool-cases (has_pending q.pending)) [
  | inl e ↦ rw e (append-nil (q.notified ++ q.pending))
  | inr e ↦ rw e refl
]
commit_round-tickets false q = elim (Bool-cases (has_pending q.pending)) [
  | inl e ↦ rw e refl
  | inr e ↦ rw e refl
]

commit_round-next_ticket :
    (fsync_ok : Bool) (q : FsyncQueue) → (commit_round fsync_ok q).next_ticket ≡ q.next_ticket
unfolding commit_round drain_and_notify inc_fsync_count
commit_round-next_ticket true q = elim (Bool-cases (has_pending q.pending)) [
  | inl e ↦ rw e refl
  | inr e ↦ rw e refl
]
commit_round-next_ticket false q = elim (Bool-cases (has_pending q.pending)) [
  | inl e ↦ rw e refl
  | inr e ↦ rw e refl
]

register-tickets :
    (q : FsyncQueue)
    → q.notified ++ q.pending ≡ tickets q.next_ticket
    → (register q).0.notified ++ (register q).0.pending ≡ tickets (register q).0.next_ticket
unfolding register
register-tickets q h =
    sym (append_assoc q.notified q.pending (q.next_ticket ∷ []))
    ∙ ap (λ (l : List ℕ). l ++ q.next_ticket ∷ []) h
    ∙ sym (tickets-add q.next_ticket)

new-tickets : new.notified ++ new.pending ≡ tickets new.next_ticket
unfolding new
new-tickets = refl

-- In every state that registrations and rounds reach, with fsyncs that fail or not, each ticket that
-- was given out is notified or pending, once, in the order of the registrations.
pub Reachable-tickets :
    (q : FsyncQueue) → Reachable q → q.notified ++ q.pending ≡ tickets q.next_ticket
Reachable-tickets q starts = new-tickets
Reachable-tickets q (steps {q = p} before registers) =
    register-tickets p (Reachable-tickets p before)
Reachable-tickets q (steps {q = p} before (goes_round fsync_ok)) =
    commit_round-tickets fsync_ok p
    ∙ Reachable-tickets p before
    ∙ ap tickets (sym (commit_round-next_ticket fsync_ok p))

has_pending-false : (ts : List ℕ) → has_pending ts ≡ false → ts ≡ []
unfolding has_pending
has_pending-false [] h = refl
has_pending-false (t ∷ ts) h = cc

commit_round-pending : (q : FsyncQueue) → (commit_round true q).pending ≡ []
unfolding commit_round drain_and_notify inc_fsync_count
commit_round-pending q = elim (Bool-cases (has_pending q.pending)) [
  | inl e ↦ rw e refl
  | inr e ↦ rw e (has_pending-false q.pending e)
]

-- A round whose fsync succeeds leaves nobody waiting: all tickets given out so far are notified, each
-- once, in order.
pub commit_round_notifies :
    (q : FsyncQueue) → Reachable q → (commit_round true q).notified ≡ tickets q.next_ticket
commit_round_notifies q h =
    sym (append-nil _)
    ∙ ap (λ (l : List ℕ). (commit_round true q).notified ++ l) (sym (commit_round-pending q))
    ∙ commit_round-tickets true q
    ∙ Reachable-tickets q h
