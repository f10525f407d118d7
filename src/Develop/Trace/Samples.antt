-- ===== src/Develop/Trace/Samples.antt =====
-- Tests and examples of the trace: a run of one decision and one execution, with a digest that
-- keeps its text.
use smorx.Prelude.{◌≡◌, refl, String, ◌⊎◌, true, none, [], ◌∷◌, length}
use smorx.Develop.Trace.{
  ExecutionTrace, LoopRun, intact, is_intact, build_trace, verify_trace_integrity,
}
use smorx.Develop.Trace.Chain.{
  canonicals, seals, Collision, verify_trace_integrity-build_trace,
  verify_trace_integrity-canonicals,
}

abbrev same : String → String
same s = s

abbrev finished : LoopRun String
finished = record {
  trace_id = "t1";
  task_id = "k1";
  loop_id = "l1";
  task_payload = "{task}";
  decisions = "{edit}" ∷ [];
  mutations = [];
  executions = "{pytest}" ∷ [];
  summary = "{done}";
  candidate = none;
}

abbrev trace : ExecutionTrace String
trace = build_trace same same finished

trace-is_intact : is_intact (verify_trace_integrity same same trace) ≡ true
unfolding verify_trace_integrity build_trace
trace-is_intact = refl

verify_trace_integrity-build_trace_example :
    verify_trace_integrity same same trace ≡ intact (length trace.entries)
verify_trace_integrity-build_trace_example = verify_trace_integrity-build_trace same same finished

-- With a constant digest, two traces whose first payloads differ have the same seals.
abbrev short : String → String
short s = "digest"

abbrev altered : LoopRun String
altered = record finished { task_payload = "{tusk}" }

short-is_intact :
    (is_intact (verify_trace_integrity short same (build_trace short same finished)) ≡ true)
    × (is_intact (verify_trace_integrity short same (build_trace short same altered)) ≡ true)
    × (seals short same (build_trace short same finished).entries
        ≡ seals short same (build_trace short same altered).entries)
unfolding verify_trace_integrity build_trace
short-is_intact = (refl, refl, refl)

verify_trace_integrity-canonicals_example :
    (canonicals short same (build_trace short same finished).entries
      ≡ canonicals short same (build_trace short same altered).entries)
    ⊎ Collision short same
verify_trace_integrity-canonicals_example =
    verify_trace_integrity-canonicals short same (build_trace short same finished)
      (build_trace short same altered) short-is_intact.0 short-is_intact.1 short-is_intact.2
