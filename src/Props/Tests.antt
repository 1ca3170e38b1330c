-- ===== src/Props/Tests.antt =====
-- Known and incompatible properties of concrete sets of flags.
use rustfst.Props.Compat.{compat_properties, compat_properties_lem}
use rustfst.Base.{◌↔◌, ◌≡◌, refl, ◌||◌, true, false, [], ◌∷◌}
use rustfst.Props.{Flag, mask, acceptor, not_acceptor, cyclic, weighted}
use rustfst.Props.Known.{known_properties, incompat_properties, opposite, known_properties_lem}

known_properties_lem_example :
    known_properties (mask (not_acceptor ∷ [])) acceptor
    ≡ mask (not_acceptor ∷ []) acceptor || mask (not_acceptor ∷ []) (opposite acceptor)
known_properties_lem_example = known_properties_lem (mask (not_acceptor ∷ [])) acceptor

clash :
    incompat_properties (mask (acceptor ∷ weighted ∷ [])) (mask (not_acceptor ∷ [])) acceptor ≡ true
unfolding incompat_properties known_properties
clash = refl

no_clash : incompat_properties (mask (acceptor ∷ [])) (mask (cyclic ∷ [])) acceptor ≡ false
unfolding incompat_properties known_properties
no_clash = refl

compat_properties_lem_example :
    (compat_properties (mask (acceptor ∷ [])) (mask (cyclic ∷ [])) ≡ true) ↔ (
      (f : Flag)
      → known_properties (mask (acceptor ∷ [])) f ≡ true
      → known_properties (mask (cyclic ∷ [])) f ≡ true
      → mask (acceptor ∷ []) f ≡ mask (cyclic ∷ []) f)
compat_properties_lem_example = compat_properties_lem (mask (acceptor ∷ [])) (mask (cyclic ∷ []))
