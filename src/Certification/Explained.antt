-- ===== src/Certification/Explained.antt =====
-- The alignment and the gate, one after the other.
use smorx.Prelude.{
  ℕ, ◌≡◌, subst, String, ◌⊎◌, inl, inr, Bool, true, false, ◌&&◌, Option, none, some, List, [], ◌∷◌,
  filterb, anyb, All, All-imp, Bool-cases, and-true_inv, ◌==◌, string_eq, Result, ok,
}
use smorx.Certification.Alignment.{
  DeltaRow, ItemRow, Rows, or_empty, is_of_task, observed_deltas, authorized_items, statements_of,
  covers, delta_explained_by_intent, is_covered, evaluate_alignment,
}
use smorx.Certification.Alignment.Coverage.{AllCovered, evaluate_alignment-AllCovered}
use smorx.Certification.MergeGate.{
  MergeGateVerdict, MergeGateError, Verifier, integrity_result, evaluate_merge_gate,
}
use smorx.Certification.MergeGate.Authorized.{Some, is_of_task_iff}
use smorx.Certification.MergeGate.Merged.{IsMerged}
use smorx.Certification.MergeGate.Merging.{Gated, evaluate_merge_gate-Gated}
use smorx.Certification.Rows.{CertificateRow, CandidatePatch, Store}

Some-imp :
    {A : Type 0} (P Q : A → Type 0) (xs : List A) → ((x : A) → P x → Q x) → Some P xs → Some Q xs
Some-imp P Q [] f h = h
Some-imp P Q (x ∷ xs) f (inl now) = inl (f x now)
Some-imp P Q (x ∷ xs) f (inr later) = inr (Some-imp P Q xs f later)

All-filterb_inv :
    {A : Type 0} (p : A → Bool) (P : A → Type 0) (xs : List A)
    → All P (filterb p xs)
    → All (λ x. (p x ≡ false) ⊎ P x) xs
All-filterb_inv p P [] h = tt
All-filterb_inv p P (x ∷ xs) h = elim (Bool-cases (p x)) [
  | inl kept ↦ let (here, rest) = rw kept at h in (inr here, All-filterb_inv p P xs rest)
  | inr dropped ↦ (inl dropped, All-filterb_inv p P xs (rw dropped at h))
]

anyb-statements_of :
    (p : ItemRow → Bool) (q : String → Bool) (items : List ItemRow)
    → anyb q (statements_of (filterb p items)) ≡ true
    → Some (λ i. (p i ≡ true) × (q i.statement ≡ true)) items
unfolding statements_of
anyb-statements_of p q [] h = cc
anyb-statements_of p q (i ∷ is) h = elim (Bool-cases (p i)) [
  | inr dropped ↦ inr (anyb-statements_of p q is (rw dropped at h))
  | inl kept ↦ elim (Bool-cases (i.statement == "")) [
    | inl empty_ ↦ inr (anyb-statements_of p q is (rw (kept, empty_) at h))
    | inr filled ↦ elim (Bool-cases (q i.statement)) [
      | inl hit ↦ inl (kept, hit)
      | inr miss ↦ inr (anyb-statements_of p q is (rw (kept, filled, miss) at h))
    ]
  ]
]

module _ (lower upper : String → String) (task_id : String) where
  -- The delta's metric, or a word of it, is in the statement of an authorized item: of the items that
  -- are given, or else of those of the task.
  abbrev pub IsExplained : List ItemRow → Option (List ItemRow) → DeltaRow → Type 0
  IsExplained items none d =
      Some
        (λ i.
          (i.task_id ≡ some task_id)
          × (i.authorized ≡ true)
          × (covers lower upper (lower (or_empty d.metric)) i.statement ≡ true))
        items
  IsExplained items (some given) d =
      Some
        (λ i.
          (i.authorized ≡ true)
          × (covers lower upper (lower (or_empty d.metric)) i.statement ≡ true))
        given

  -- The deltas that are given, or else those of the task.
  abbrev pub AllExplained :
      List DeltaRow → Option (List DeltaRow) → List ItemRow → Option (List ItemRow) → Type 0
  AllExplained rows none items chosen =
      All (λ d. ((is_of_task task_id d.task_id && d.observed) ≡ false) ⊎ IsExplained items chosen d)
        rows
  AllExplained rows (some given) items chosen =
      All (λ d. (d.observed ≡ false) ⊎ IsExplained items chosen d) given

  is_covered-IsExplained :
      (rows : Rows) (chosen : Option (List ItemRow)) (d : DeltaRow)
      → is_covered lower upper (statements_of (authorized_items rows task_id chosen)) d ≡ true
      → IsExplained rows.items chosen d
  unfolding is_covered delta_explained_by_intent authorized_items
  is_covered-IsExplained rows none d h =
      Some-imp _ _ rows.items
        (λ i k.
          let (own, given) = and-true_inv (is_of_task task_id i.task_id) i.authorized k.0 in
          ((is_of_task_iff task_id i.task_id).0 own, given, k.1))
        (anyb-statements_of (λ i. is_of_task task_id i.task_id && i.authorized)
          (covers lower upper (lower (or_empty d.metric))) rows.items h)
  is_covered-IsExplained rows (some given) d h =
      anyb-statements_of (λ i. i.authorized) (covers lower upper (lower (or_empty d.metric))) given
        h

  AllCovered-AllExplained :
      (rows : Rows) (deltas : Option (List DeltaRow)) (chosen : Option (List ItemRow))
      → AllCovered lower upper rows task_id deltas chosen
      → AllExplained rows.deltas deltas rows.items chosen
  unfolding observed_deltas
  AllCovered-AllExplained rows none chosen h =
      All-filterb_inv (λ d. is_of_task task_id d.task_id && d.observed)
        (IsExplained rows.items chosen) rows.deltas
        (All-imp _ (IsExplained rows.items chosen) (is_covered-IsExplained rows chosen) _ h)
  AllCovered-AllExplained rows (some given) chosen h =
      All-filterb_inv (λ d. d.observed) (IsExplained rows.items chosen) given
        (All-imp _ (IsExplained rows.items chosen) (is_covered-IsExplained rows chosen) _ h)

-- The rows that the alignment reads are the gate's.
abbrev pub rows_of : Store → List DeltaRow → Rows
rows_of store deltas = record {
  deltas = deltas;
  items = store.items;
  alignments = store.alignments;
}

module _ (lower upper : String → String) (verifier : Option Verifier) (now : ℕ) (store : Store)
    (certificate : CertificateRow) (patch : CandidatePatch) (requested : List String)
    (rows : List DeltaRow) (task_id : String) (deltas : Option (List DeltaRow))
    (items : Option (List ItemRow)) where
  -- What the gate says with the verdict of the alignment.
  unfoldable pub gate : Result MergeGateError MergeGateVerdict × Store
  unfolding evaluate_merge_gate evaluate_alignment
  gate =
      evaluate_merge_gate verifier now store (some certificate)
        (evaluate_alignment lower upper (rows_of store rows) (some task_id) deltas items)
        (some patch) requested

  -- A merge with the verdict of `evaluate_alignment` on a task: of the deltas that were given to it, or
  -- of the task's if none were, each observed one has its metric or a word of it in the statement of an
  -- authorized item, of the items that were given or of the task's; the certificate is CERTIFIED and
  -- its integrity is intact, the patch is VERIFIED; and the store is changed by the merge alone.
  pub gate-AllExplained :
      (v : MergeGateVerdict) (store' : Store)
      → gate ≡ (ok v, store')
      → v.allowed ≡ true
      → AllExplained lower upper task_id rows deltas store.items items
        × ((certificate.status == "CERTIFIED") ≡ true)
        × ((patch.status == "VERIFIED") ≡ true)
        × (integrity_result verifier store certificate ≡ some true)
        × IsMerged now certificate patch store store'
  unfolding gate
  gate-AllExplained v store' e allowed =
      let verdict =
        evaluate_alignment lower upper (rows_of store rows) (some task_id) deltas items in
      let gated : Gated verifier now store (some certificate) verdict (some patch) requested
          (ok v, store') =
        subst (Gated verifier now store (some certificate) verdict (some patch) requested) e (
          evaluate_merge_gate-Gated verifier now store (some certificate) verdict (some patch)
            requested) in
      elim gated [
        | inl (_, p, _, same) ↦ (
          AllCovered-AllExplained lower upper task_id (rows_of store rows) deltas items (
              (evaluate_alignment-AllCovered lower upper (rows_of store rows) task_id deltas
                  items).0.0
                p.aligned),
          p.certified,
          p.verified,
          p.intact,
          same,
        )
        | inr (refused, _, _) ↦ cc
      ]
