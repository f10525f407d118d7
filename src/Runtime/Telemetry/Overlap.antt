-- ===== src/Runtime/Telemetry/Overlap.antt =====
-- What a proof of concurrency rests on.
use smorx.Prelude.{◌<◌, ◌≡◌, List, ◌∷◌, ◌++◌}
use smorx.Runtime.Telemetry.{TaskTiming}

-- Two entries of a list of timings whose intervals share more than an instant: each starts before
-- the other ends, and neither is of no length.
pub record Overlapping (ts : List TaskTiming) : Type 0 where
  pub before : List TaskTiming
  pub left : TaskTiming
  pub middle : List TaskTiming
  pub right : TaskTiming
  pub rest : List TaskTiming
  pub split : ts ≡ before ++ left ∷ (middle ++ right ∷ rest)
  pub left_starts : left.started_at < right.finished_at
  pub right_starts : right.started_at < left.finished_at
  pub left_lasts : left.started_at < left.finished_at
  pub right_lasts : right.started_at < right.finished_at

-- The right one of a pair.
record Partner (left : TaskTiming) (ts : List TaskTiming) : Type 0 where
  middle : List TaskTiming
  right : TaskTiming
  rest : List TaskTiming
  split : ts ≡ middle ++ right ∷ rest
  left_starts : left.started_at < right.finished_at
  right_starts : right.started_at < left.finished_at
  left_lasts : left.started_at < left.finished_at
  right_lasts : right.started_at < right.finished_at
