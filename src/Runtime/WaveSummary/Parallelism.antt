-- ===== src/Runtime/WaveSummary/Parallelism.antt =====
-- The bound of the parallelism mark.
use smorx.Prelude.{
  ℕ, ◌+◌, ◌-◌, ◌≤◌, ◌≡◌, refl, ◌∙◌, ap, inl, inr, List, [], ◌∷◌, length, arith, if◌then◌else◌, ltb,
  Bool-cases,
}
use smorx.Runtime.Telemetry.{TaskTiming}
use smorx.Runtime.WaveSummary.{
  Edge, edge_le, insert_edge, sort_edges, edges_of, high_water_from, high_water, summarize_timings,
}

starts_in : List Edge → ℕ
starts_in [] = 0
starts_in (e ∷ es) = (if e.is_start then 1 else 0) + starts_in es

starts_in-insert_edge :
    (e : Edge) (es : List Edge) → starts_in (insert_edge e es) ≡ starts_in (e ∷ es)
unfolding starts_in insert_edge
starts_in-insert_edge e [] = refl
starts_in-insert_edge e (f ∷ fs) = elim (Bool-cases (edge_le e f)) [
  | inl first ↦ rw first refl
  | inr later ↦ rw later (ground (arith, starts_in-insert_edge e fs))
]

starts_in-sort_edges : (es : List Edge) → starts_in (sort_edges es) ≡ starts_in es
unfolding starts_in sort_edges
starts_in-sort_edges [] = refl
starts_in-sort_edges (e ∷ es) =
    starts_in-insert_edge e (sort_edges es)
    ∙ ap (λ n. (if e.is_start then 1 else 0) + n) (starts_in-sort_edges es)

starts_in-edges_of : (ts : List TaskTiming) → starts_in (edges_of ts) ≡ length ts
unfolding starts_in edges_of
starts_in-edges_of [] = refl
starts_in-edges_of (t ∷ ts) = ground (arith, starts_in-edges_of ts)

high_water_from-le :
    (starts ends high bound : ℕ) (es : List Edge)
    → high ≤ bound
    → starts + starts_in es ≤ bound
    → high_water_from starts ends high es ≤ bound
unfolding starts_in high_water_from
high_water_from-le starts ends high bound [] h k = h
high_water_from-le starts ends high bound (e ∷ es) h k =
    let starts' = if e.is_start then starts + 1 else starts in
    let ends' = if e.is_start then ends else ends + 1 in
    high_water_from-le starts' ends' (if ltb (high + ends') starts' then starts' - ends' else high)
      bound es (ground (arith, h, k)) (ground (arith, k))

-- The mark of a wave is at most the number of its timings, and for a wave without timings it is
-- zero.
pub summarize_timings-high_water :
    (ts : List TaskTiming) (started finished : ℕ)
    → (summarize_timings ts started finished).high_water ≤ length ts
unfolding summarize_timings high_water
summarize_timings-high_water [] started finished = omega arith
summarize_timings-high_water (t ∷ ts) started finished =
    let e = starts_in-sort_edges (edges_of (t ∷ ts)) ∙ starts_in-edges_of (t ∷ ts) in
    high_water_from-le 0 0 0 (length (t ∷ ts)) (sort_edges (edges_of (t ∷ ts))) (omega arith)
      (omega (arith, e))
