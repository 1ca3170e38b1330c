-- ===== src/Fst/DelStates/Marks.antt =====
-- The states that `del_states` marks for deletion.
use rustfst.Base.{
  ℕ, ◌<◌, ◌≡◌, ◌⊎◌, ◌↔◌, ◌==◌, refl, sym, subst, ◌∙◌, inl, inr, ⊎_elim, if◌then◌else◌, List, [],
  ◌∷◌, length, length-set, get_elem?, get_elem?-lt, get_elem?-some, set, some, ok, Option-cases,
  Bool-cases, arith, replicate, length-replicate, >>=-eq-ok,
}
use rustfst.Fst.{VectorFst, num_states}
use rustfst.Fst.Access.{get_elem?-set}
use rustfst.Fst.DelStates.{deleted, mark_deleted, del_states}

-- The states to delete exist.
abbrev pub Existing : ℕ → List ℕ → Type 0
Existing n [] = Unit
Existing n (s ∷ dstates) = (s < n) × Existing n dstates

-- A call that succeeds is given existing states.
mark_deleted-Existing :
    (new_id dstates marked : List ℕ)
    → mark_deleted new_id dstates ≡ ok marked
    → Existing (length new_id) dstates
unfolding mark_deleted
mark_deleted-Existing new_id [] marked h = tt
mark_deleted-Existing new_id (s ∷ dstates) marked h = elim (Option-cases (get_elem? new_id s)) [
  | inl absent ↦ absurd (ground (arith, absent))
  | inr (id, at) ↦ (
    get_elem?-lt new_id s at,
    subst (λ n. Existing n dstates) (length-set new_id s deleted)
        (mark_deleted-Existing (set new_id s deleted) dstates marked (ground (arith, at))),
  )
]

pub del_states-Existing :
    {W : Type 0} (f g : VectorFst W) (dstates : List ℕ)
    → del_states f dstates ≡ ok g
    → Existing (num_states f) dstates
unfolding del_states
del_states-Existing f g dstates h =
    let (marked, e, _) = >>=-eq-ok (mark_deleted (replicate (num_states f) 0) dstates) _ h in
    subst (λ n. Existing n dstates) (length-replicate (num_states f) 0)
      (mark_deleted-Existing (replicate (num_states f) 0) dstates marked e)

-- `k` is one of the states to delete.
abbrev pub Among : ℕ → List ℕ → Type 0
Among k [] = ⊥
Among k (s ∷ dstates) = (k ≡ s) ⊎ Among k dstates

-- What the marks say of the states to delete.
abbrev pub Marks : List ℕ → List ℕ → List ℕ → Type 0
Marks new_id dstates marked =
    (k : ℕ)
    → (get_elem? marked k ≡ some deleted) ↔ (Among k dstates ⊎ (get_elem? new_id k ≡ some deleted))

pub mark_deleted-ok :
    (new_id dstates : List ℕ)
    → Existing (length new_id) dstates
    → (marked : List ℕ) × (mark_deleted new_id dstates ≡ ok marked)
      × (length marked ≡ length new_id)
      × Marks new_id dstates marked
unfolding mark_deleted
mark_deleted-ok new_id [] all =
    (new_id, refl, refl, λ k. (λ h. inr h, ⊎_elim (λ h. absurd h) (λ h. h)))
mark_deleted-ok new_id (s ∷ dstates) (lt, all) =
    let (id, e) = get_elem?-some new_id s lt in
    let size = length-set new_id s deleted in
    let (marked, e', same, marks) =
      mark_deleted-ok (set new_id s deleted) dstates
        (subst (λ n. Existing n dstates) (sym size) all) in
    let at : (k : ℕ)
        → get_elem? (set new_id s deleted) k
          ≡ (if s == k then some deleted else get_elem? new_id k) =
      λ k. get_elem?-set new_id s k deleted lt in
    (
      marked,
      ground (arith, e, e'),
      same ∙ size,
      λ k. (
        λ h.
            ⊎_elim (λ old. inl (inr old))
              (λ set_there. elim (Bool-cases (s == k)) [
                | inl q ↦ inl (inl (ground arith))
                | inr q ↦ inr (ground (arith, at k))
              ])
              ((marks k).0 h),
        ⊎_elim
            (⊎_elim (λ q. (marks k).1 (inr (ground (arith, at k)))) (λ old. (marks k).1 (inl old)))
            (λ old. (marks k).1 (inr (ground (arith, at k)))),
      ),
    )
