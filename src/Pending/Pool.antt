-- ===== src/Pending/Pool.antt =====
-- The checks of a running server as a step relation: binds start checks, and the goroutines of
-- `within` end in any order, late ones included.
use authnd.Base.{
  ltb, if◌then◌else◌, Text, text_eq_refl, text_eq_iff, text_eq, Map, get, ℕ, ◌+◌, ◌-◌, ◌≤◌, ◌<◌,
  ◌≡◌, refl, List, [], ◌∷◌, arith,
}
use authnd.Pending.{
  max_pending_per_source, pending_for, acquire_check, release_check, acquire_check_lem,
  release_check_lem,
}

-- pendingChecks, and the source of each goroutine that has not ended.
pub record Pool : Type 0 where
  pub counts : Map ℕ
  pub running : List Text

abbrev pub idle : Pool
idle = record { counts = []; running = [] }

pub running_for : Text → List Text → ℕ
running_for k [] = 0
running_for k (j ∷ js) = if text_eq j k then running_for k js + 1 else running_for k js

end_one : Text → List Text → List Text
end_one k [] = []
end_one k (j ∷ js) = let rest = end_one k js in if text_eq j k then js else j ∷ rest

-- `within` up to the start of its goroutine.
pub begin : Text → Pool → Pool
begin k p =
    let (counts, started) = acquire_check k p.counts in
    record { counts = counts; running = if started then k ∷ p.running else p.running }

-- The end of a goroutine.
pub finish : Text → Pool → Pool
finish k p = record { counts = release_check k p.counts; running = end_one k p.running }

pub data Step : Pool → Pool → Type 0 where
  begins : (k : Text) (p : Pool) → Step p (begin k p)
  finishes : (k : Text) (p : Pool) → 0 < running_for k p.running → Step p (finish k p)

pub data Reach : Pool → Type 0 where
  start : Reach idle
  step : {p q : Pool} → Reach p → Step p q → Reach q

-- The count of every source is the number of its goroutines, and within the cap.
pub record IsCounted (p : Pool) : Type 0 where
  pub exact : (k : Text) → pending_for k p.counts ≡ running_for k p.running
  pub capped : (k : Text) → running_for k p.running ≤ max_pending_per_source

running_for-end_one :
    (k j : Text) (js : List Text)
    → 0 < running_for k js
    → running_for j (end_one k js)
      ≡ (if text_eq k j then running_for j js - 1 else running_for j js)
unfolding running_for end_one
running_for-end_one k j [] h = absurd (omega arith)
running_for-end_one k j (i ∷ js) h = ground (
  arith,
  running_for-end_one k j js,
  text_eq_iff i k,
  text_eq_iff i j,
  text_eq_iff k j,
  text_eq_refl k,
)

begin-IsCounted : (k : Text) (p : Pool) → IsCounted p → IsCounted (begin k p)
unfolding begin running_for
begin-IsCounted k p h = record {
  exact = λ j. ground (arith, acquire_check_lem k j p.counts, h.exact j);
  capped = λ j.
      ground
        (arith, acquire_check_lem k j p.counts, h.exact j, h.exact k, h.capped j, text_eq_iff k j);
}

finish-IsCounted :
    (k : Text) (p : Pool) → 0 < running_for k p.running → IsCounted p → IsCounted (finish k p)
unfolding finish
finish-IsCounted k p r h = record {
  exact = λ j.
      ground (arith, release_check_lem k j p.counts, h.exact j, running_for-end_one k j p.running);
  capped = λ j. ground (arith, h.capped j, running_for-end_one k j p.running);
}

Step-IsCounted : {p q : Pool} → Step p q → IsCounted p → IsCounted q
Step-IsCounted (begins k p) h = begin-IsCounted k p h
Step-IsCounted (finishes k p r) h = finish-IsCounted k p r h

idle-IsCounted : IsCounted idle
unfolding pending_for running_for get
idle-IsCounted = record { exact = λ k. refl; capped = λ k. omega arith }

-- However binds and late answers interleave, the count of each source is the number of its
-- goroutines that have not ended, and that is never more than 64.
pub Reach-IsCounted : {p : Pool} → Reach p → IsCounted p
Reach-IsCounted start = idle-IsCounted
Reach-IsCounted (step r s) = Step-IsCounted s (Reach-IsCounted r)

-- In every state that can be reached, a new check on a source starts exactly where fewer than 64
-- of that source's own goroutines are still there, whatever the other sources do.
pub begin_exact :
    {p : Pool} (k : Text)
    → Reach p
    → (acquire_check k p.counts).1 ≡ ltb (running_for k p.running) max_pending_per_source
begin_exact {p} k r = ground (arith, acquire_check_lem k k p.counts, (Reach-IsCounted r).exact k)
