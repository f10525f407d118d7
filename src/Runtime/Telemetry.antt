-- ===== src/Runtime/Telemetry.antt =====
-- packages/agent-runtime/src/smorx_runtime/telemetry.py. Times are microseconds; the mapping that
-- `summary` makes for a reader is left out.
pub mod Overlap
use smorx.Prelude.{
  ℕ, ◌-◌, min, max, String, Bool, true, false, ◌&&◌, ◌||◌, List, [], ◌∷◌, ◌++◌, map, concat,
  if◌then◌else◌, ltb, is_empty, filterb, anyb, contains, ◌==◌, string_eq,
}

pub data TimingStatus : Type 0 where
  succeeded timeout cancelled failed : TimingStatus

pub record TaskTiming : Type 0 where
  pub task_id : String
  pub agent_id : String
  pub started_at : ℕ
  pub finished_at : ℕ
  pub duration : ℕ
  pub status : TimingStatus
  pub timed_out : Bool

pub record WaveTelemetry : Type 0 where
  pub wave_id : String
  pub timings : List TaskTiming
  pub started_at : ℕ
  pub finished_at : ℕ
  pub wall : ℕ
  pub parallelism_high_water : ℕ
  pub max_cross_task_overlap : ℕ

-- max(0, earliest finish - latest start)
unfoldable pub overlap_seconds : TaskTiming → TaskTiming → ℕ
overlap_seconds left right =
    min left.finished_at right.finished_at - max left.started_at right.started_at

-- self._waves.append(wave)
unfoldable pub record_wave : WaveTelemetry → List WaveTelemetry → List WaveTelemetry
record_wave wave waves = waves ++ wave ∷ []

abbrev pub is_relevant : List String → TaskTiming → Bool
is_relevant ids timing = contains ids timing.task_id

unfoldable pub involved : List String → List WaveTelemetry → List WaveTelemetry
involved ids waves = filterb (λ wave. anyb (is_relevant ids) wave.timings) waves

unfoldable pub highest : List WaveTelemetry → ℕ
highest [] = 0
highest (wave ∷ waves) = max wave.parallelism_high_water (highest waves)

unfoldable pub relevant : List String → List WaveTelemetry → List TaskTiming
relevant ids [] = []
relevant ids (wave ∷ waves) = filterb (is_relevant ids) wave.timings ++ relevant ids waves

-- The two nested loops.
unfoldable pub any_overlap : List TaskTiming → Bool
unfolding overlap_seconds
any_overlap [] = false
any_overlap (left ∷ rest) =
    anyb (λ right. ltb 0 (overlap_seconds left right)) rest || any_overlap rest

unfoldable pub prove_concurrency : List String → List WaveTelemetry → Bool
unfolding involved highest relevant any_overlap
prove_concurrency ids waves =
    let waves' = involved ids waves in
    if is_empty waves'
    then false
    else if ltb (highest waves') 2
    then false
    else any_overlap (relevant ids waves')
