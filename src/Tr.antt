-- ===== src/Tr.antt =====
-- rustfst/src/tr.rs, and the label of epsilon (rustfst/src/lib.rs).
use rustfst.Base.{ℕ}

abbrev pub eps_label : ℕ
eps_label = 0

pub record Tr {ℓ} (W : Type ℓ) : Type ℓ where
  pub ilabel : ℕ
  pub olabel : ℕ
  pub weight : W
  pub nextstate : ℕ
