-- ===== src/Certification/MergeGate/Merged.antt =====
-- What a merge changes.
use smorx.Prelude.{
  ℕ, ◌≡◌, refl, ap, String, ◌⊎◌, inl, inr, false, not, List, [], ◌∷◌, ◌++◌, map, arith, Bool-cases,
  filterb, All, ◌==◌, string_eq, some,
}
use smorx.Certification.MergeGate.{merge_task, merge_change, merge_event, merged}
use smorx.Certification.Rows.{CertificateRow, CandidatePatch, ChangeRow, Event, Store, TaskRow}

-- The tasks keep their ids and their order, the one with the id is MERGED, and the others stay.
abbrev pub TaskMerged : String → List TaskRow → List TaskRow → Type 0
TaskMerged id before after =
    (map (λ (t : TaskRow). t.id) after ≡ map (λ (t : TaskRow). t.id) before)
    × All (λ (t : TaskRow). ((t.id == id) ≡ false) ⊎ (t.status ≡ "MERGED")) after
    × (filterb (λ (t : TaskRow). not (t.id == id)) after
        ≡ filterb (λ (t : TaskRow). not (t.id == id)) before)

abbrev pub ChangeMerged : String → List ChangeRow → List ChangeRow → Type 0
ChangeMerged id before after =
    (map (λ (c : ChangeRow). c.id) after ≡ map (λ (c : ChangeRow). c.id) before)
    × All (λ (c : ChangeRow). ((c.id == id) ≡ false) ⊎ (c.status ≡ "MERGED")) after
    × (filterb (λ (c : ChangeRow). not (c.id == id)) after
        ≡ filterb (λ (c : ChangeRow). not (c.id == id)) before)

-- One new MERGE event, of the patch's task and change and of the certificate.
abbrev pub IsMergeEvent : ℕ → CertificateRow → CandidatePatch → Event → Type 0
IsMergeEvent now certificate patch e =
    (e.event_type ≡ "MERGE")
    × (e.entity_id ≡ patch.task_id)
    × (e.task_id ≡ some patch.task_id)
    × (e.change_id ≡ patch.change_id)
    × (e.change_status ≡ "MERGED")
    × (e.certificate_key ≡ certificate.certificate_key)
    × (e.occurred_at ≡ now)

-- The task and the change of the patch are MERGED, an event says so, and all else stays.
abbrev pub IsMerged : ℕ → CertificateRow → CandidatePatch → Store → Store → Type 0
IsMerged now certificate patch s s' =
    TaskMerged patch.task_id s.tasks s'.tasks
    × ChangeMerged patch.change_id s.changes s'.changes
    × ((e : Event) × (s'.events ≡ s.events ++ e ∷ []) × IsMergeEvent now certificate patch e)
    × (s'.items ≡ s.items)
    × (s'.alignments ≡ s.alignments)

merge_task-TaskMerged : (id : String) (ts : List TaskRow) → TaskMerged id ts (merge_task id ts)
unfolding merge_task
merge_task-TaskMerged id [] = (refl, tt, refl)
merge_task-TaskMerged id (t ∷ ts) =
    let (ids, all, others) = merge_task-TaskMerged id ts in
    elim (Bool-cases (t.id == id)) [
      | inl here ↦ rw here (ap (λ xs. t.id ∷ xs) ids, (inr refl, all), ground (arith, here, others))
      | inr other ↦
          rw other (ap (λ xs. t.id ∷ xs) ids, (inl other, all), ground (arith, other, others))
    ]

merge_change-ChangeMerged :
    (id : String) (cs : List ChangeRow) → ChangeMerged id cs (merge_change id cs)
unfolding merge_change
merge_change-ChangeMerged id [] = (refl, tt, refl)
merge_change-ChangeMerged id (c ∷ cs) =
    let (ids, all, others) = merge_change-ChangeMerged id cs in
    elim (Bool-cases (c.id == id)) [
      | inl here ↦ rw here (ap (λ xs. c.id ∷ xs) ids, (inr refl, all), ground (arith, here, others))
      | inr other ↦
          rw other (ap (λ xs. c.id ∷ xs) ids, (inl other, all), ground (arith, other, others))
    ]

pub merged-IsMerged :
    (now : ℕ) (s : Store) (certificate : CertificateRow) (patch : CandidatePatch)
    → IsMerged now certificate patch s (merged now s certificate patch)
unfolding merged merge_event
merged-IsMerged now s certificate patch = (
  merge_task-TaskMerged patch.task_id s.tasks,
  merge_change-ChangeMerged patch.change_id s.changes,
  (_, refl, (refl, refl, refl, refl, refl, refl, refl)),
  refl,
  refl,
)
