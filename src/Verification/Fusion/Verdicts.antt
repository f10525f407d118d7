-- ===== src/Verification/Fusion/Verdicts.antt =====
-- The fused verdict of a claim against a plain description of its evidence.
use smorx.Prelude.{
  ℕ, ◌+◌, ◌≡◌, refl, ◌∙◌, ap, String, inl, inr, Bool, true, false, not, ◌&&◌, ◌||◌, Option, none,
  some, List, [], ◌∷◌, ◌++◌, arith, if◌then◌else◌, length, length-append, filterb, filterb-append,
  anyb, ◌==◌, string_eq, ==-cases, contains, lookup, insert, lookup-insert,
}
use smorx.Verification.Contracts.{EvidenceRecord, classify_claim}
use smorx.Verification.Fusion.{
  classify_signal, address, Clubs, club_of, join, join_all, open_clubs, supporting_count,
  contradicting_count, verdict_of, verdicts_of, fuse_claim_evidence,
}

-- The records about a claim that support it, and those that do not.
abbrev pub about : String → EvidenceRecord → Bool
about c r = r.claim_id == c

abbrev pub supporters : String → List EvidenceRecord → ℕ
supporters c rs = length (filterb (λ r. about c r && (classify_signal r).0) rs)

abbrev pub opponents : String → List EvidenceRecord → ℕ
opponents c rs = length (filterb (λ r. about c r && not (classify_signal r).0) rs)

lookup-join :
    (c : String) (clubs : Clubs) (r : EvidenceRecord)
    → club_of (lookup c (join clubs r))
      ≡ (if about c r then club_of (lookup c clubs) ++ address r ∷ [] else club_of (lookup c clubs))
unfolding join
lookup-join c clubs r =
    let club = club_of (lookup r.claim_id clubs) ++ address r ∷ [] in
    elim (==-cases r.claim_id c) [
      | inl (eq, same) ↦ ground (
        arith,
        eq,
        lookup-insert r.claim_id c club clubs,
        ap (λ x. club_of (lookup x clubs)) same,
      )
      | inr (ne, _) ↦ ground (arith, ne, lookup-insert r.claim_id c club clubs)
    ]

supporting_count-join :
    (c : String) (clubs : Clubs) (r : EvidenceRecord)
    → supporting_count (club_of (lookup c (join clubs r)))
      ≡ supporting_count (club_of (lookup c clubs)) + supporters c (r ∷ [])
unfolding supporting_count address
supporting_count-join c clubs r = ground (
  arith,
  ap supporting_count (lookup-join c clubs r),
  filterb-append (λ e. e.supports) (club_of (lookup c clubs)) (address r ∷ []),
  length-append (filterb (λ e. e.supports) (club_of (lookup c clubs)))
      (filterb (λ e. e.supports) (address r ∷ [])),
)

contradicting_count-join :
    (c : String) (clubs : Clubs) (r : EvidenceRecord)
    → contradicting_count (club_of (lookup c (join clubs r)))
      ≡ contradicting_count (club_of (lookup c clubs)) + opponents c (r ∷ [])
unfolding contradicting_count address
contradicting_count-join c clubs r = ground (
  arith,
  ap contradicting_count (lookup-join c clubs r),
  filterb-append (λ e. not e.supports) (club_of (lookup c clubs)) (address r ∷ []),
  length-append (filterb (λ e. not e.supports) (club_of (lookup c clubs)))
      (filterb (λ e. not e.supports) (address r ∷ [])),
)

supporters-cons :
    (c : String) (r : EvidenceRecord) (rs : List EvidenceRecord)
    → supporters c (r ∷ rs) ≡ supporters c (r ∷ []) + supporters c rs
supporters-cons c r rs = ground arith

opponents-cons :
    (c : String) (r : EvidenceRecord) (rs : List EvidenceRecord)
    → opponents c (r ∷ rs) ≡ opponents c (r ∷ []) + opponents c rs
opponents-cons c r rs = ground arith

supporting_count-join_all :
    (c : String) (clubs : Clubs) (rs : List EvidenceRecord)
    → supporting_count (club_of (lookup c (join_all clubs rs)))
      ≡ supporting_count (club_of (lookup c clubs)) + supporters c rs
unfolding join_all
supporting_count-join_all c clubs [] = omega arith
supporting_count-join_all c clubs (r ∷ rs) = omega (
  arith,
  supporting_count-join_all c (join clubs r) rs,
  supporting_count-join c clubs r,
  supporters-cons c r rs,
)

contradicting_count-join_all :
    (c : String) (clubs : Clubs) (rs : List EvidenceRecord)
    → contradicting_count (club_of (lookup c (join_all clubs rs)))
      ≡ contradicting_count (club_of (lookup c clubs)) + opponents c rs
unfolding join_all
contradicting_count-join_all c clubs [] = omega arith
contradicting_count-join_all c clubs (r ∷ rs) = omega (
  arith,
  contradicting_count-join_all c (join clubs r) rs,
  contradicting_count-join c clubs r,
  opponents-cons c r rs,
)

abbrev is_some {ℓ} : {A : Type ℓ} → Option A → Bool
is_some none = false
is_some (some a) = true

is_some-join_all :
    (c : String) (clubs : Clubs) (rs : List EvidenceRecord)
    → is_some (lookup c (join_all clubs rs)) ≡ (is_some (lookup c clubs) || anyb (about c) rs)
unfolding join_all join
is_some-join_all c clubs [] = ground arith
is_some-join_all c clubs (r ∷ rs) =
    let club = club_of (lookup r.claim_id clubs) ++ address r ∷ [] in
    ground (
      arith,
      is_some-join_all c (join clubs r) rs,
      ap is_some (lookup-insert r.claim_id c club clubs),
    )

is_some-open_clubs :
    (c : String) (clubs : Clubs) (cs : List String)
    → is_some (lookup c (open_clubs clubs cs)) ≡ (is_some (lookup c clubs) || contains cs c)
unfolding open_clubs contains
is_some-open_clubs c clubs [] = ground arith
is_some-open_clubs c clubs (x ∷ cs) =
    ground
      (arith, is_some-open_clubs c (insert x [] clubs) cs, ap is_some (lookup-insert x c [] clubs))

open_clubs_empty :
    (c : String) (clubs : Clubs) (cs : List String)
    → club_of (lookup c clubs) ≡ []
    → club_of (lookup c (open_clubs clubs cs)) ≡ []
unfolding open_clubs
open_clubs_empty c clubs [] h = h
open_clubs_empty c clubs (x ∷ cs) h =
    open_clubs_empty c (insert x [] clubs) cs
      (ground (arith, h, ap club_of (lookup-insert x c [] clubs)))

lookup-verdicts_of :
    (c : String) (clubs : Clubs)
    → lookup c (verdicts_of clubs)
      ≡ (if is_some (lookup c clubs) then some (verdict_of (club_of (lookup c clubs))) else none)
unfolding verdicts_of lookup
lookup-verdicts_of c [] = refl
lookup-verdicts_of c ((j, club) ∷ clubs) = ground (arith, lookup-verdicts_of c clubs)

module _ (records : List EvidenceRecord) (claim_ids : List String) (c : String) where
  abbrev clubs : Clubs
  clubs = join_all (open_clubs [] claim_ids) records

  opened_empty : club_of (lookup c (open_clubs [] claim_ids)) ≡ []
  opened_empty = open_clubs_empty c [] claim_ids (unfold lookup in refl)

  supporting_count-clubs : supporting_count (club_of (lookup c clubs)) ≡ supporters c records
  unfolding supporting_count
  supporting_count-clubs = ground (
    arith,
    supporting_count-join_all c (open_clubs [] claim_ids) records,
    ap supporting_count opened_empty,
  )

  contradicting_count-clubs : contradicting_count (club_of (lookup c clubs)) ≡ opponents c records
  unfolding contradicting_count
  contradicting_count-clubs = ground (
    arith,
    contradicting_count-join_all c (open_clubs [] claim_ids) records,
    ap contradicting_count opened_empty,
  )

  verdict_of-clubs :
      verdict_of (club_of (lookup c clubs))
      ≡ classify_claim (supporters c records) (opponents c records) 0
  unfolding verdict_of
  verdict_of-clubs = cc (supporting_count-clubs, contradicting_count-clubs)

  is_some-clubs : is_some (lookup c clubs) ≡ (contains claim_ids c || anyb (about c) records)
  unfolding lookup
  is_some-clubs = ground (
    arith,
    is_some-join_all c (open_clubs [] claim_ids) records,
    is_some-open_clubs c [] claim_ids,
  )

-- The verdict of a claim that was asked for, or that some record names, is the classification of the
-- numbers of its supporting and its opposing records; no other claim has a verdict.
pub lookup-verdicts :
    (records : List EvidenceRecord) (claim_ids : List String) (c : String)
    → lookup c (fuse_claim_evidence records claim_ids).verdicts ≡ (
        if contains claim_ids c || anyb (about c) records
        then some (classify_claim (supporters c records) (opponents c records) 0)
        else none)
unfolding fuse_claim_evidence
lookup-verdicts records claim_ids c =
    lookup-verdicts_of c (clubs records claim_ids c)
    ∙ cc (verdict_of-clubs records claim_ids c, is_some-clubs records claim_ids c)
