-- ===== src/Demos/Measure.antt =====
-- The calls that the threads of src/demos.rs have left, as a measure of its loop.
use apogee.Base.{ℕ, ◌+◌, ◌*◌, ◌<◌, ◌≡◌, ◌≢◌, List, [], ◌∷◌, ◌++◌, ◌==◌, if◌then◌else◌, arith}
use apogee.Base.Maps.{count}
use apogee.Thread.{Threads}
use apogee.Demos.{Yields, yielded}

-- Two for each call that a thread has left; none for the bootstrap thread.
abbrev pub calls : Yields → ℕ → ℕ
calls left id = if id == 0 then 0 else 2 * left id + 2

abbrev pub work : Yields → List ℕ → ℕ
work left [] = 0
work left (id ∷ ids) = calls left id + work left ids

abbrev pub measure : Yields → Threads → ℕ
measure left t =
    work left (t.sched.current ∷ t.sched.ready) + (if t.sched.current == 0 then 1 else 0)

pub work-append :
    (left : Yields) (xs ys : List ℕ) → work left (xs ++ ys) ≡ work left xs + work left ys
work-append left [] ys = omega arith
work-append left (x ∷ xs) ys = omega (arith, work-append left xs ys)

-- A yield of a thread takes a call off for each place that the thread has.
pub work-yielded :
    (left : Yields) (id : ℕ) (ids : List ℕ)
    → id ≢ 0
    → 0 < left id
    → work (yielded left id) ids + 2 * count id ids ≡ work left ids
unfolding yielded
work-yielded left id [] h k = omega arith
work-yielded left id (x ∷ xs) h k = ground (arith, work-yielded left id xs h k)
