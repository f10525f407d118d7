-- ===== src/Runtime/WaveSummary.antt =====
-- packages/agent-runtime/src/smorx_runtime/waves.py: `_summarize_timings`. Times are microseconds, and
-- a timing does not finish before it starts.
pub mod Parallelism
use smorx.Prelude.{
  ℕ, ◌+◌, ◌-◌, min, max, Bool, true, false, not, ◌&&◌, ◌||◌, List, [], ◌∷◌, if◌then◌else◌, ltb,
}
use smorx.Runtime.Telemetry.{TaskTiming, overlap_seconds}

-- The start or the end of a timing, by its time; an end comes before a start at the same time.
pub record Edge : Type 0 where
  pub at : ℕ
  pub is_start : Bool

abbrev pub edge_le : Edge → Edge → Bool
edge_le a b = ltb a.at b.at || not (ltb b.at a.at) && (not a.is_start || b.is_start)

unfoldable pub insert_edge : Edge → List Edge → List Edge
insert_edge e [] = e ∷ []
insert_edge e (f ∷ fs) = if edge_le e f then e ∷ f ∷ fs else f ∷ insert_edge e fs

-- events.sort(key=...)
unfoldable pub sort_edges : List Edge → List Edge
unfolding insert_edge
sort_edges [] = []
sort_edges (e ∷ es) = insert_edge e (sort_edges es)

unfoldable pub edges_of : List TaskTiming → List Edge
edges_of [] = []
edges_of (t ∷ ts) =
    record { at = t.started_at; is_start = true }
    ∷ record { at = t.finished_at; is_start = false }
    ∷ edges_of ts

-- The loop over the events. `active` is the starts less the ends, which may be below zero.
unfoldable pub high_water_from : ℕ → ℕ → ℕ → List Edge → ℕ
high_water_from starts ends high [] = high
high_water_from starts ends high (e ∷ es) =
    let starts' = if e.is_start then starts + 1 else starts in
    let ends' = if e.is_start then ends else ends + 1 in
    let high' = if ltb (high + ends') starts' then starts' - ends' else high in
    high_water_from starts' ends' high' es

unfoldable pub high_water : List TaskTiming → ℕ
unfolding sort_edges edges_of high_water_from
high_water timings = high_water_from 0 0 0 (sort_edges (edges_of timings))

abbrev pub larger : ℕ → ℕ → ℕ
larger most overlap = if ltb most overlap then overlap else most

-- The two nested loops over the timings.
unfoldable pub overlap_with : ℕ → TaskTiming → List TaskTiming → ℕ
overlap_with most left [] = most
overlap_with most left (right ∷ rest) =
    overlap_with (larger most (overlap_seconds left right)) left rest

unfoldable pub max_overlap_from : ℕ → List TaskTiming → ℕ
unfolding overlap_with
max_overlap_from most [] = most
max_overlap_from most (left ∷ rest) = max_overlap_from (overlap_with most left rest) rest

unfoldable pub first_start : ℕ → List TaskTiming → ℕ
first_start least [] = least
first_start least (t ∷ ts) = first_start (min least t.started_at) ts

unfoldable pub last_finish : ℕ → List TaskTiming → ℕ
last_finish most [] = most
last_finish most (t ∷ ts) = last_finish (max most t.finished_at) ts

pub record Summary : Type 0 where
  pub wall : ℕ
  pub high_water : ℕ
  pub max_overlap : ℕ
  pub window_start : ℕ
  pub window_finish : ℕ

unfoldable pub summarize_timings : List TaskTiming → ℕ → ℕ → Summary
unfolding first_start last_finish high_water max_overlap_from
summarize_timings [] started finished = record {
  wall = finished - started;
  high_water = 0;
  max_overlap = 0;
  window_start = started;
  window_finish = finished;
}
summarize_timings (t ∷ ts) started finished =
    let start = first_start t.started_at ts in
    let finish = last_finish t.finished_at ts in
    record {
      wall = finish - start;
      high_water = high_water (t ∷ ts);
      max_overlap = max_overlap_from 0 (t ∷ ts);
      window_start = start;
      window_finish = finish;
    }
