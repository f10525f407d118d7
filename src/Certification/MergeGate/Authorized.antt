-- ===== src/Certification/MergeGate/Authorized.antt =====
-- When the protected behaviors of a merge count as authorized.
use smorx.Prelude.{
  ◌≡◌, ◌↔◌, refl, ap, String, ◌⊎◌, inl, inr, Bool, true, false, not, ◌&&◌, Option, none, some, List,
  [], ◌∷◌, if◌then◌else◌, Bool-cases, anyb, All, contains, is_empty, ◌==◌, string_eq, ==-cases,
}
use smorx.Certification.Alignment.{ItemRow, AlignmentRow, AlignmentVerdict, is_of_task}
use smorx.Certification.MergeGate.{
  is_authorized_item, authorized_alignment_exists, all_authorized, protected_behaviors_authorized,
}
use smorx.Certification.Rows.{CertificateRow, Store}

-- An entry of the list with the property.
abbrev pub Some : {A : Type 0} → (A → Type 0) → List A → Type 0
Some P [] = ⊥
Some P (x ∷ xs) = P x ⊎ Some P xs

module _ {A : Type 0} (p : A → Bool) (P : A → Type 0) where
  pub anyb-Some :
      (sound : (x : A) → (p x ≡ true) ↔ P x) (xs : List A) → (anyb p xs ≡ true) ↔ Some P xs
  anyb-Some sound [] = (λ h. cc, λ h. absurd h)
  anyb-Some sound (x ∷ xs) =
      let rest = anyb-Some sound xs in
      let here = sound x in
      elim (Bool-cases (p x)) [
        | inl yes_ ↦ rw yes_ ((λ h. inl (here.0 yes_)), (λ h. refl))
        | inr off ↦ rw off (
          (λ h. inr (rest.0 h)),
          (λ h. elim h [ inl now ↦ cc (here.1 now, off) | inr later ↦ rest.1 later ]),
        )
      ]

-- The alignment is of the task and ALIGNED, and its intent item is there and authorized.
abbrev pub IsAligned : String → List ItemRow → AlignmentRow → Type 0
IsAligned task_id items row =
    (row.task_id ≡ some task_id)
    × (row.status ≡ "ALIGNED")
    × Some (λ (i : ItemRow). (i.id ≡ row.intent_item_id) × (i.authorized ≡ true)) items

-- The task of the certificate has such an alignment.
abbrev pub HasAlignment : Store → Option String → Type 0
HasAlignment store none = ⊥
HasAlignment store (some task_id) = Some (IsAligned task_id store.items) store.alignments

-- The behaviors that are asked for, or those of the verdict where none is.
abbrev pub behaviors_of : AlignmentVerdict → List String → List String
behaviors_of verdict [] = verdict.protected_behaviors
behaviors_of verdict (b ∷ bs) = b ∷ bs

-- There are no behaviors; or each is one of the verdict's, where that has any, and the task of the
-- certificate has an aligned row with an authorized item.
abbrev pub IsAuthorized : Store → CertificateRow → AlignmentVerdict → List String → Type 0
IsAuthorized store certificate verdict requested =
    (behaviors_of verdict requested ≡ [])
    ⊎ All
        (λ b. (verdict.protected_behaviors ≡ []) ⊎ (contains verdict.protected_behaviors b ≡ true))
        (behaviors_of verdict requested)
      × HasAlignment store certificate.task_id

==-iff : (a b : String) → ((a == b) ≡ true) ↔ (a ≡ b)
==-iff a b = elim (==-cases a b) [
  | inl (e, same) ↦ rw e ((λ h. same), (λ h. refl))
  | inr (e, differs) ↦ rw e ((λ h. cc), (λ h. absurd (differs h)))
]

pub is_of_task_iff :
    (task_id : String) (t : Option String) → (is_of_task task_id t ≡ true) ↔ (t ≡ some task_id)
is_of_task_iff task_id none = (λ h. cc, λ h. cc)
is_of_task_iff task_id (some t) =
    let same = ==-iff t task_id in ((λ h. ap some (same.0 h)), (λ h. same.1 cc))

and_iff : (a b : Bool) {P Q : Type 0} → (a ≡ true) ↔ P → (b ≡ true) ↔ Q → ((a && b) ≡ true) ↔ P × Q
and_iff true true p q = ((λ h. (p.0 refl, q.0 refl)), (λ h. refl))
and_iff true false p q = ((λ h. cc), (λ h. q.1 h.1))
and_iff false b p q = ((λ h. cc), (λ h. p.1 h.0))

id_iff : (b : Bool) → (b ≡ true) ↔ (b ≡ true)
id_iff b = ((λ h. h), (λ h. h))

is_authorized_item_iff :
    (items : List ItemRow) (id : String)
    → (is_authorized_item items id ≡ true)
      ↔ Some (λ (i : ItemRow). (i.id ≡ id) × (i.authorized ≡ true)) items
is_authorized_item_iff items id =
    anyb-Some (λ i. i.id == id && i.authorized) _
      (λ i. and_iff (i.id == id) i.authorized (==-iff i.id id) (id_iff i.authorized)) items

authorized_alignment_exists-HasAlignment :
    (store : Store) (certificate : CertificateRow)
    → (authorized_alignment_exists store certificate ≡ true)
      ↔ HasAlignment store certificate.task_id
unfolding authorized_alignment_exists
authorized_alignment_exists-HasAlignment store certificate = of_task certificate.task_id
  where
    of_task :
        (task : Option String)
        → ((elim task [
          | none ↦ false
          | some task_id ↦
              anyb
                (λ row.
                  is_of_task task_id row.task_id
                  && row.status == "ALIGNED"
                  && is_authorized_item store.items row.intent_item_id)
                store.alignments
        ])
            ≡ true)
          ↔ HasAlignment store task
    of_task none = (λ h. cc, λ h. absurd h)
    of_task (some task_id) =
        anyb-Some _ (IsAligned task_id store.items)
          (λ row.
            let own = is_of_task_iff task_id row.task_id in
            let aligned = ==-iff row.status "ALIGNED" in
            let both =
              and_iff (is_of_task task_id row.task_id) (row.status == "ALIGNED") own aligned in
            let item = is_authorized_item_iff store.items row.intent_item_id in
            let all =
              and_iff (is_of_task task_id row.task_id && row.status == "ALIGNED")
                (is_authorized_item store.items row.intent_item_id) both item in
            (
              (λ h. let (front, last) = all.0 h in (front.0, front.1, last)),
              (λ h. all.1 ((h.0, h.1), h.2)),
            ))
          store.alignments

is_within :
    (coverage : List String) (b : String)
    → ((not (is_empty coverage) && not (contains coverage b)) ≡ false)
      ↔ ((coverage ≡ []) ⊎ (contains coverage b ≡ true))
is_within [] b = ((λ h. inl refl), (λ h. refl))
is_within (x ∷ xs) b = elim (Bool-cases (contains (x ∷ xs) b)) [
  | inl there ↦ rw there ((λ h. inr refl), (λ h. refl))
  | inr absent ↦ rw absent ((λ h. cc), (λ h. elim h [ inl e1 ↦ cc | inr e2 ↦ cc ]))
]

-- The loop over the behaviors, where there is an alignment.
all_authorized-All :
    (coverage bs : List String)
    → (all_authorized coverage true bs ≡ true)
      ↔ All (λ c. (coverage ≡ []) ⊎ (contains coverage c ≡ true)) bs
unfolding all_authorized
all_authorized-All coverage [] = ((λ h. tt), (λ h. refl))
all_authorized-All coverage (b ∷ bs) =
    let rest = all_authorized-All coverage bs in
    let within = is_within coverage b in
    elim (Bool-cases (not (is_empty coverage) && not (contains coverage b))) [
      | inl outside ↦ rw outside ((λ h. cc), (λ h. cc (within.1 h.0, outside)))
      | inr inside ↦ rw inside ((λ h. (within.0 inside, rest.0 h)), (λ h. rest.1 h.1))
    ]

all_authorized-none :
    (coverage : List String) (b : String) (bs : List String)
    → all_authorized coverage false (b ∷ bs) ≡ false
unfolding all_authorized
all_authorized-none coverage b bs =
    elim (Bool-cases (not (is_empty coverage) && not (contains coverage b))) [
      | inl outside ↦ rw outside refl
      | inr inside ↦ rw inside refl
    ]

behaviors_iff :
    (coverage : List String) (exists_ : Bool) (H : Type 0)
    → (exists_ ≡ true) ↔ H
    → (bs : List String)
    → ((if is_empty bs then true else all_authorized coverage exists_ bs) ≡ true)
      ↔ ((bs ≡ []) ⊎ All (λ b. (coverage ≡ []) ⊎ (contains coverage b ≡ true)) bs × H)
behaviors_iff coverage exists_ H iff [] = ((λ h. inl refl), (λ h. refl))
behaviors_iff coverage true H iff (b ∷ bs) =
    let all = all_authorized-All coverage (b ∷ bs) in
    (
      (λ h. inr (all.0 h, iff.0 refl)),
      (λ h. elim h [ inl empty_ ↦ cc | inr within ↦ all.1 within.0 ]),
    )
behaviors_iff coverage false H iff (b ∷ bs) =
    let off = all_authorized-none coverage b bs in
    ((λ h. cc (off, h)), (λ h. elim h [ inl empty_ ↦ cc | inr within ↦ cc (iff.1 within.1) ]))

protected_behaviors_authorized-of :
    (store : Store) (certificate : CertificateRow) (verdict : AlignmentVerdict)
    (requested : List String)
    → protected_behaviors_authorized store certificate verdict requested ≡ (
        if is_empty (behaviors_of verdict requested)
        then true
        else all_authorized verdict.protected_behaviors
            (authorized_alignment_exists store certificate)
            (behaviors_of verdict requested))
unfolding protected_behaviors_authorized
protected_behaviors_authorized-of store certificate verdict [] = refl
protected_behaviors_authorized-of store certificate verdict (b ∷ bs) = refl

-- The check of the protected behaviors.
pub protected_behaviors_authorized-IsAuthorized :
    (store : Store) (certificate : CertificateRow) (verdict : AlignmentVerdict)
    (requested : List String)
    → (protected_behaviors_authorized store certificate verdict requested ≡ true)
      ↔ IsAuthorized store certificate verdict requested
protected_behaviors_authorized-IsAuthorized store certificate verdict requested =
    rw (protected_behaviors_authorized-of store certificate verdict requested) (
      behaviors_iff verdict.protected_behaviors (authorized_alignment_exists store certificate)
        (HasAlignment store certificate.task_id)
        (authorized_alignment_exists-HasAlignment store certificate)
        (behaviors_of verdict requested))
