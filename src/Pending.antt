-- ===== src/Pending.antt =====
-- limits.go: the cap on the checks that wait on one source, and `within`.
pub mod Pool
pub mod Tests
use authnd.Base.{
  ltb, leb, if◌then◌else◌, Text, text_eq_refl, text_eq_iff, text_eq, Map, get-put, get-remove, get,
  put, remove, ℕ, ◌+◌, ◌-◌, ◌≡◌, Bool, true, false, ◌&&◌, none, some, arith,
}
use authnd.Directory.{Outcome, proved, outage, Reply, answered, silent}

abbrev pub max_pending_per_source : ℕ
max_pending_per_source = 64

-- pendingChecks.n[key]; a missing key reads as 0
unfoldable pub pending_for : Text → Map ℕ → ℕ
pending_for k m = elim (get k m) [ none ↦ 0 | some n ↦ n ]

-- acquireCheck
unfoldable pub acquire_check : Text → Map ℕ → Map ℕ × Bool
unfolding pending_for
acquire_check k m =
    if leb max_pending_per_source (pending_for k m)
    then (m, false)
    else (put k (pending_for k m + 1) m, true)

-- releaseCheck: the count goes down by one, and is deleted where that leaves 0 or less.
unfoldable pub release_check : Text → Map ℕ → Map ℕ
unfolding pending_for
release_check k m =
    if leb (pending_for k m - 1) 0 then remove k m else put k (pending_for k m - 1) m

-- The goroutine of `within`: it releases where it ends, and is still counted where it does not.
settle : Text → Reply → Map ℕ → Map ℕ × Outcome
settle k (answered o) m = (release_check k m, o)
settle k silent m = (m, outage)

started : Text → Reply → Map ℕ × Bool → Map ℕ × Outcome
started k r (m, true) = settle k r m
started k r (m, false) = (m, outage)

-- within: the counts afterwards, and what the caller is told.
unfoldable pub within : Text → Reply → Map ℕ → Map ℕ × Outcome
unfolding settle started
within k r m = started k r (acquire_check k m)

module _ (k j : Text) (m : Map ℕ) where
  pub pending_for-put :
      (n : ℕ) → pending_for j (put k n m) ≡ (if text_eq k j then n else pending_for j m)
  unfolding pending_for
  pending_for-put n = ground (arith, get-put k j n m)

  pub pending_for-remove : pending_for j (remove k m) ≡ (if text_eq k j then 0 else pending_for j m)
  unfolding pending_for
  pending_for-remove = ground (arith, get-remove k j m)

-- A check starts exactly where fewer than 64 wait on its source, and counts for that source alone.
pub acquire_check_lem :
    (k j : Text) (m : Map ℕ)
    → ((acquire_check k m).1 ≡ ltb (pending_for k m) max_pending_per_source)
      × (pending_for j (acquire_check k m).0 ≡ (
          if text_eq k j && ltb (pending_for k m) max_pending_per_source
          then pending_for j m + 1
          else pending_for j m))
unfolding acquire_check
acquire_check_lem k j m = (
  ground arith,
  unfold acquire_check in
      ground (arith, text_eq_iff k j, pending_for-put k j m (pending_for k m + 1)),
)

-- A release takes one check off its source, down to none, and off no other.
pub release_check_lem :
    (k j : Text) (m : Map ℕ)
    → pending_for j (release_check k m)
      ≡ (if text_eq k j then pending_for j m - 1 else pending_for j m)
unfolding release_check
release_check_lem k j m =
    ground (
      arith,
      text_eq_iff k j,
      pending_for-put k j m (pending_for k m - 1),
      pending_for-remove k j m,
    )

-- What `within` does on every branch. At the cap the source is not asked, the answer is an outage
-- and nothing changes; an answer in time is passed on and leaves the counts as they were; a source
-- that stays silent is an outage and keeps one more check, for that source alone.
pub within_lem :
    (k j : Text) (r : Reply) (m : Map ℕ)
    → ((within k r m).1 ≡ (
        if ltb (pending_for k m) max_pending_per_source
        then (elim r [ answered o ↦ o | silent ↦ outage ])
        else outage))
      × (pending_for j (within k r m).0 ≡ (
          if text_eq k j && ltb (pending_for k m) max_pending_per_source
          then (elim r [ answered o ↦ pending_for j m | silent ↦ pending_for j m + 1 ])
          else pending_for j m))
unfolding within
within_lem k j (answered o) m = ground (
  arith,
  acquire_check_lem k j m,
  acquire_check_lem k k m,
  release_check_lem k j (acquire_check k m).0,
  text_eq_refl k,
  text_eq_iff k j,
)
within_lem k j silent m = ground (arith, acquire_check_lem k j m, acquire_check_lem k k m)

-- A check whose answer is yes was answered yes by its source, in time.
pub within_proved :
    (k : Text) (r : Reply) (m : Map ℕ) → (within k r m).1 ≡ proved → r ≡ answered proved
within_proved k (answered o) m h = ground (arith, within_lem k k (answered o) m)
within_proved k silent m h = ground (arith, within_lem k k silent m)
