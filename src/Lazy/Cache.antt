-- ===== src/Lazy/Cache.antt =====
-- rustfst/src/algorithms/lazy/cache/{cache_status,fst_cache}.rs: what a cache of a machine is.
pub mod SimpleVec
use rustfst.Base.{ℕ, ◌≡◌, ◌≢◌, List, Option, none, some}
use rustfst.Tr.{Tr}

pub data CacheStatus {ℓ} (T : Type ℓ) : Type ℓ where
  not_computed : CacheStatus T
  computed : T → CacheStatus T

module _ {ℓ κ} {T : Type ℓ} {U : Type κ} where
  abbrev pub map : CacheStatus T → (T → U) → CacheStatus U
  map not_computed f = not_computed
  map (computed x) f = computed (f x)

abbrev pub into_option {ℓ} : {T : Type ℓ} → CacheStatus T → Option T
into_option not_computed = none
into_option (computed x) = some x

-- The trait `FstCache`. The locks are left out: each call runs under its own.
pub record FstCache (W : Type 0) : Type 1 where
  pub Cache : Type 0
  pub get_start : Cache → CacheStatus (Option ℕ)
  pub insert_start : Cache → Option ℕ → Cache
  pub get_trs : Cache → ℕ → CacheStatus (List (Tr W))
  pub insert_trs : Cache → ℕ → List (Tr W) → Cache
  pub get_final_weight : Cache → ℕ → CacheStatus (Option W)
  pub insert_final_weight : Cache → ℕ → Option W → Cache

-- A cache gives back what was inserted last, and an insertion leaves the rest.
pub record IsFstCache {W : Type 0} (c : FstCache W) : Type 0 where
  pub start-insert : (x : c.Cache) (s : Option ℕ) → c.get_start (c.insert_start x s) ≡ computed s
  pub start-insert_trs :
      (x : c.Cache) (i : ℕ) (l : List (Tr W)) → c.get_start (c.insert_trs x i l) ≡ c.get_start x
  pub start-insert_final :
      (x : c.Cache) (i : ℕ) (w : Option W)
      → c.get_start (c.insert_final_weight x i w) ≡ c.get_start x
  pub trs-insert :
      (x : c.Cache) (i : ℕ) (l : List (Tr W)) → c.get_trs (c.insert_trs x i l) i ≡ computed l
  pub trs-insert_ne :
      (x : c.Cache) (i j : ℕ) (l : List (Tr W))
      → i ≢ j
      → c.get_trs (c.insert_trs x i l) j ≡ c.get_trs x j
  pub trs-insert_start :
      (x : c.Cache) (s : Option ℕ) (j : ℕ) → c.get_trs (c.insert_start x s) j ≡ c.get_trs x j
  pub trs-insert_final :
      (x : c.Cache) (i j : ℕ) (w : Option W)
      → c.get_trs (c.insert_final_weight x i w) j ≡ c.get_trs x j
  pub final-insert :
      (x : c.Cache) (i : ℕ) (w : Option W)
      → c.get_final_weight (c.insert_final_weight x i w) i ≡ computed w
  pub final-insert_ne :
      (x : c.Cache) (i j : ℕ) (w : Option W)
      → i ≢ j
      → c.get_final_weight (c.insert_final_weight x i w) j ≡ c.get_final_weight x j
  pub final-insert_start :
      (x : c.Cache) (s : Option ℕ) (j : ℕ)
      → c.get_final_weight (c.insert_start x s) j ≡ c.get_final_weight x j
  pub final-insert_trs :
      (x : c.Cache) (i j : ℕ) (l : List (Tr W))
      → c.get_final_weight (c.insert_trs x i l) j ≡ c.get_final_weight x j
