-- ===== src/Runtime/Graph/Waves/Ordering.antt =====
-- The order of a plan: what a wave needs is done before it.

use smorx.Prelude.{
  ◌≡◌, refl, sym, ◌∙◌, String, true, List, [], ◌∷◌, ◌++◌, arith, All, All-imp, concat, contains,
  string_eq, allb,
}
use smorx.Runtime.Graph.{TaskSpec}
use smorx.Runtime.Graph.Waves.{deps_done, waves}
use smorx.Runtime.Graph.Waves.Marking.{done_after, done_after_all, contains-done_after}

-- Every task of a wave has its dependencies done before the wave.
abbrev pub IsOrdered : List String → List (List TaskSpec) → Type 0
IsOrdered done [] = Unit
IsOrdered done (wave ∷ waves) =
    All (λ t. deps_done done t ≡ true) wave × IsOrdered (done_after wave done) waves

-- More done tasks leave a task ready.
abbrev pub Subset : List String → List String → Type 0
Subset xs ys = (i : String) → contains xs i ≡ true → contains ys i ≡ true

deps_done-Subset :
    (d d' : List String) (t : TaskSpec) → Subset d d' → deps_done d t ≡ true → deps_done d' t ≡ true
unfolding deps_done
deps_done-Subset d d' t sub h = go t.depends_on h
  where
    go : (deps : List String) → allb (contains d) deps ≡ true → allb (contains d') deps ≡ true
    go [] k = refl
    go (x ∷ xs) k = ground (arith, sub x, go xs)

pub done_after-Subset : (w : List TaskSpec) (d : List String) → Subset d (done_after w d)
done_after-Subset w d i h = ground (arith, h, contains-done_after w d i)

pub IsOrdered-of_All :
    (ws : List (List TaskSpec)) (d d' : List String)
    → Subset d d'
    → All (All (λ t. deps_done d t ≡ true)) ws
    → IsOrdered d' ws
IsOrdered-of_All [] d d' sub h = tt
IsOrdered-of_All (w ∷ ws) d d' sub h = (
  All-imp _ _ (λ t. deps_done-Subset d d' t sub) w h.0,
  IsOrdered-of_All ws d (done_after w d') (λ i m. done_after-Subset w d' i (sub i m)) h.1,
)

pub IsOrdered-append :
    (ps ws : List (List TaskSpec)) (d : List String)
    → IsOrdered d ps
    → IsOrdered (done_after_all ps d) ws
    → IsOrdered d (ps ++ ws)
IsOrdered-append [] ws d h k = k
IsOrdered-append (p ∷ ps) ws d h k = (h.0, IsOrdered-append ps ws (done_after p d) h.1 k)

pub done_after_all-append :
    (ps ws : List (List TaskSpec)) (d : List String)
    → done_after_all (ps ++ ws) d ≡ done_after_all ws (done_after_all ps d)
done_after_all-append [] ws d = refl
done_after_all-append (p ∷ ps) ws d = done_after_all-append ps ws (done_after p d)

done_after-append :
    (xs ys : List TaskSpec) (d : List String)
    → done_after (xs ++ ys) d ≡ done_after ys (done_after xs d)
done_after-append [] ys d = refl
done_after-append (x ∷ xs) ys d = done_after-append xs ys (x.id ∷ d)

pub done_after_all-concat :
    (ws : List (List TaskSpec)) (d : List String) → done_after_all ws d ≡ done_after (concat ws) d
done_after_all-concat [] d = refl
done_after_all-concat (w ∷ ws) d =
    done_after_all-concat ws (done_after w d) ∙ sym (done_after-append w (concat ws) d)
