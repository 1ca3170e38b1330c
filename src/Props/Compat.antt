-- ===== src/Props/Compat.antt =====
-- fst_properties/utils.rs: whether two sets of properties agree.
use rustfst.Base.{
  ◌≡◌, ◌↔◌, Bool, true, false, not, ◌&&◌, List, [], ◌∷◌, arith, ◌⊎◌, inl, inr, refl, subst,
}
use rustfst.Props.{
  Flag, FstProperties, all_flags, acceptor, not_acceptor, i_deterministic, not_i_deterministic,
  o_deterministic, not_o_deterministic, epsilons, no_epsilons, i_epsilons, no_i_epsilons,
  o_epsilons, no_o_epsilons, i_label_sorted, not_i_label_sorted, o_label_sorted, not_o_label_sorted,
  weighted, unweighted, cyclic, acyclic, initial_cyclic, initial_acyclic, top_sorted,
  not_top_sorted, accessible, not_accessible, coaccessible, not_coaccessible, string, not_string,
  weighted_cycles, unweighted_cycles,
}
use rustfst.Props.Known.{known_properties, incompat_properties, xor}

-- `is_empty()`
abbrev pub no_flag : List Flag → FstProperties → Bool
no_flag [] p = true
no_flag (f ∷ fs) p = not (p f) && no_flag fs p

unfoldable pub compat_properties : FstProperties → FstProperties → Bool
unfolding incompat_properties known_properties
compat_properties p q = no_flag all_flags (incompat_properties p q)

abbrev Listed : Flag → List Flag → Type 0
Listed f [] = ⊥
Listed f (g ∷ fs) = (g ≡ f) ⊎ Listed f fs

no_flag-Listed :
    (p : FstProperties) (f : Flag) (fs : List Flag)
    → no_flag fs p ≡ true
    → Listed f fs
    → p f ≡ false
no_flag-Listed p f [] h l = absurd l
no_flag-Listed p f (g ∷ fs) h (inl same) = subst (λ (k : Flag). p k ≡ false) same (ground arith)
no_flag-Listed p f (g ∷ fs) h (inr l) = no_flag-Listed p f fs (ground arith) l

no_flag_lem :
    (p : FstProperties) (fs : List Flag) → ((f : Flag) → p f ≡ false) → no_flag fs p ≡ true
no_flag_lem p [] none_set = ground arith
no_flag_lem p (f ∷ fs) none_set = ground (arith, none_set f, no_flag_lem p fs none_set)

every-Listed : (f : Flag) → Listed f all_flags
every-Listed acceptor = inl refl
every-Listed not_acceptor = inr (inl refl)
every-Listed i_deterministic = inr (inr (inl refl))
every-Listed not_i_deterministic = inr (inr (inr (inl refl)))
every-Listed o_deterministic = inr (inr (inr (inr (inl refl))))
every-Listed not_o_deterministic = inr (inr (inr (inr (inr (inl refl)))))
every-Listed epsilons = inr (inr (inr (inr (inr (inr (inl refl))))))
every-Listed no_epsilons = inr (inr (inr (inr (inr (inr (inr (inl refl)))))))
every-Listed i_epsilons = inr (inr (inr (inr (inr (inr (inr (inr (inl refl))))))))
every-Listed no_i_epsilons = inr (inr (inr (inr (inr (inr (inr (inr (inr (inl refl)))))))))
every-Listed o_epsilons = inr (inr (inr (inr (inr (inr (inr (inr (inr (inr (inl refl))))))))))
every-Listed no_o_epsilons =
    inr (inr (inr (inr (inr (inr (inr (inr (inr (inr (inr (inl refl)))))))))))
every-Listed i_label_sorted =
    inr (inr (inr (inr (inr (inr (inr (inr (inr (inr (inr (inr (inl refl))))))))))))
every-Listed not_i_label_sorted =
    inr (inr (inr (inr (inr (inr (inr (inr (inr (inr (inr (inr (inr (inl refl)))))))))))))
every-Listed o_label_sorted =
    inr (inr (inr (inr (inr (inr (inr (inr (inr (inr (inr (inr (inr (inr (inl refl))))))))))))))
every-Listed not_o_label_sorted =
    inr
      (inr (inr (inr (inr (inr (inr (inr (inr (inr (inr (inr (inr (inr (inr (inl refl)))))))))))))))
every-Listed weighted = inr (
    inr (
      inr (inr (inr (inr (inr (inr (inr (inr (inr (inr (inr (inr (inr (inr (inl refl))))))))))))))))
every-Listed unweighted = inr (
    inr (
      inr (
        inr (
          inr (inr (inr (inr (inr (inr (inr (inr (inr (inr (inr (inr (inr (inl refl)))))))))))))))))
every-Listed cyclic = inr (
    inr (
      inr (
        inr (
          inr (
            inr (
              inr (inr (inr (inr (inr (inr (inr (inr (inr (inr (inr (inr (inl refl))))))))))))))))))
every-Listed acyclic = inr (
    inr (
      inr (
        inr (
          inr (
            inr (
              inr (
                inr (
                  inr (inr (inr (inr (inr (inr (inr (inr (inr (inr (inr (inl refl)))))))))))))))))))
every-Listed initial_cyclic = inr (
    inr (
      inr (
        inr (
          inr (
            inr (
              inr (
                inr (
                  inr (
                    inr (
                      inr (inr (inr (inr (inr (inr (inr (inr (inr (inr (inl refl))))))))))))))))))))
every-Listed initial_acyclic = inr (
    inr (
      inr (
        inr (
          inr (
            inr (
              inr (
                inr (
                  inr (
                    inr (
                      inr (
                        inr (
                          inr (inr (inr (inr (inr (inr (inr (inr (inr (inl refl)))))))))))))))))))))
every-Listed top_sorted = inr (
    inr (
      inr (
        inr (
          inr (
            inr (
              inr (
                inr (
                  inr (
                    inr (
                      inr (
                        inr (
                          inr (
                            inr (
                              inr (inr (inr (inr (inr (inr (inr (inr (inl refl))))))))))))))))))))))
every-Listed not_top_sorted = inr (
    inr (
      inr (
        inr (
          inr (
            inr (
              inr (
                inr (
                  inr (
                    inr (
                      inr (
                        inr (
                          inr (
                            inr (
                              inr (
                                inr (
                                  inr (inr (inr (inr (inr (inr (inr (inl refl)))))))))))))))))))))))
every-Listed accessible = inr (
    inr (
      inr (
        inr (
          inr (
            inr (
              inr (
                inr (
                  inr (
                    inr (
                      inr (
                        inr (
                          inr (
                            inr (
                              inr (
                                inr (
                                  inr (
                                    inr (
                                      inr (inr (inr (inr (inr (inr (inl refl))))))))))))))))))))))))
every-Listed not_accessible = inr (
    inr (
      inr (
        inr (
          inr (
            inr (
              inr (
                inr (
                  inr (
                    inr (
                      inr (
                        inr (
                          inr (
                            inr (
                              inr (
                                inr (
                                  inr (
                                    inr (
                                      inr (
                                        inr (
                                          inr (inr (inr (inr (inr (inl refl)))))))))))))))))))))))))
every-Listed coaccessible = inr (
    inr (
      inr (
        inr (
          inr (
            inr (
              inr (
                inr (
                  inr (
                    inr (
                      inr (
                        inr (
                          inr (
                            inr (
                              inr (
                                inr (
                                  inr (
                                    inr (
                                      inr (
                                        inr (
                                          inr (
                                            inr (
                                              inr (inr (inr (inr (inl refl))))))))))))))))))))))))))
every-Listed not_coaccessible = inr (
    inr (
      inr (
        inr (
          inr (
            inr (
              inr (
                inr (
                  inr (
                    inr (
                      inr (
                        inr (
                          inr (
                            inr (
                              inr (
                                inr (
                                  inr (
                                    inr (
                                      inr (
                                        inr (
                                          inr (
                                            inr (
                                              inr (
                                                inr (
                                                  inr (inr (inr (inl refl)))))))))))))))))))))))))))
every-Listed string = inr (
    inr (
      inr (
        inr (
          inr (
            inr (
              inr (
                inr (
                  inr (
                    inr (
                      inr (
                        inr (
                          inr (
                            inr (
                              inr (
                                inr (
                                  inr (
                                    inr (
                                      inr (
                                        inr (
                                          inr (
                                            inr (
                                              inr (
                                                inr (
                                                  inr (
                                                    inr (
                                                      inr (inr (inl refl))))))))))))))))))))))))))))
every-Listed not_string = inr (
    inr (
      inr (
        inr (
          inr (
            inr (
              inr (
                inr (
                  inr (
                    inr (
                      inr (
                        inr (
                          inr (
                            inr (
                              inr (
                                inr (
                                  inr (
                                    inr (
                                      inr (
                                        inr (
                                          inr (
                                            inr (
                                              inr (
                                                inr (
                                                  inr (
                                                    inr (
                                                      inr (
                                                        inr (
                                                          inr (inl refl)))))))))))))))))))))))))))))
every-Listed weighted_cycles = inr (
    inr (
      inr (
        inr (
          inr (
            inr (
              inr (
                inr (
                  inr (
                    inr (
                      inr (
                        inr (
                          inr (
                            inr (
                              inr (
                                inr (
                                  inr (
                                    inr (
                                      inr (
                                        inr (
                                          inr (
                                            inr (
                                              inr (
                                                inr (
                                                  inr (
                                                    inr (
                                                      inr (
                                                        inr (
                                                          inr (
                                                            inr
                                                            (inl refl))))))))))))))))))))))))))))))
every-Listed unweighted_cycles = inr (
    inr (
      inr (
        inr (
          inr (
            inr (
              inr (
                inr (
                  inr (
                    inr (
                      inr (
                        inr (
                          inr (
                            inr (
                              inr (
                                inr (
                                  inr (
                                    inr (
                                      inr (
                                        inr (
                                          inr (
                                            inr (
                                              inr (
                                                inr (
                                                  inr (
                                                    inr (
                                                      inr (
                                                        inr (
                                                          inr (
                                                            inr (
                                                            inr
                                                            (inl refl)))))))))))))))))))))))))))))))

incompat-agree :
    (p q : FstProperties) (f : Flag)
    → (incompat_properties p q f ≡ false)
      ↔ (known_properties p f ≡ true → known_properties q f ≡ true → p f ≡ q f)
unfolding incompat_properties
incompat-agree p q f = (
  λ h k l. ground arith,
  λ same. agree (p f) (q f) (known_properties p f) (known_properties q f) same,
)
  where
    agree :
        (a b m n : Bool)
        → (m ≡ true → n ≡ true → a ≡ b)
        → xor (a && (m && n)) (b && (m && n)) ≡ false
    agree a b true true same = ground (arith, same refl refl)
    agree a b true false same = ground arith
    agree a b false n same = ground arith

-- Two sets of properties are compatible exactly if they agree on every flag that both know.
pub compat_properties_lem :
    (p q : FstProperties)
    → (compat_properties p q ≡ true)
      ↔ ((f : Flag) → known_properties p f ≡ true → known_properties q f ≡ true → p f ≡ q f)
unfolding compat_properties
compat_properties_lem p q = (
  λ h f.
      (incompat-agree p q f).0
        (no_flag-Listed (incompat_properties p q) f all_flags h (every-Listed f)),
  λ same. no_flag_lem (incompat_properties p q) all_flags (λ f. (incompat-agree p q f).1 (same f)),
)
