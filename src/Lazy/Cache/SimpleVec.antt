-- ===== src/Lazy/Cache/SimpleVec.antt =====
-- rustfst/src/algorithms/lazy/cache/{simple_vec_cache,cache_internal_types}.rs: the cache that keeps the
-- states in vectors.
use rustfst.Base.{
  ℕ, zero, suc, ◌+◌, ◌-◌, ◌≤◌, ◌≡◌, ◌≢◌, leb, if◌then◌else◌, refl, ap, ◌∙◌, List, [], ◌∷◌, ◌++◌,
  length, get_elem?, set, replicate, Option, none, some, Bool-cases, inl, inr, arith, length-append,
  length-replicate, get_elem?-set_self, get_elem?-set_ne,
}
use rustfst.Tr.{Tr}
use rustfst.Fst.Mutate.{count_label}
use rustfst.Lazy.Cache.{CacheStatus, not_computed, computed, map, into_option, FstCache, IsFstCache}

-- The larger of two sizes, `std::cmp::max`.
abbrev pub max : ℕ → ℕ → ℕ
max a b = if leb a b then b else a

pub record CacheTrs (W : Type 0) : Type 0 where
  pub trs : List (Tr W)
  pub niepsilons : ℕ
  pub noepsilons : ℕ

pub record CachedData (T : Type 0) : Type 0 where
  pub cached : T
  pub num_known_states : ℕ

pub record SimpleVecCache (W : Type 0) : Type 0 where
  pub start : CachedData (CacheStatus (Option ℕ))
  pub trs : CachedData (List (CacheStatus (CacheTrs W)))
  pub final_weights : CachedData (List (CacheStatus (Option W)))

-- `resize(n, NotComputed)` where the vector is shorter, as the callers test.
abbrev pub resized : {T : Type 0} → List (CacheStatus T) → ℕ → List (CacheStatus T)
resized l n = if leb n (length l) then l else l ++ replicate (n - length l) not_computed

-- `CachedData::get` and the match of `get_final_weight`.
abbrev pub entry : {T : Type 0} → List (CacheStatus T) → ℕ → CacheStatus T
entry l id = elim (get_elem? l id) [ none ↦ not_computed | some e ↦ e ]

abbrev pub known : {W : Type 0} → List (Tr W) → ℕ → ℕ
known [] n = n
known (tr ∷ trs) n = known trs (max n (tr.nextstate + 1))

module _ {W : Type 0} where
  abbrev pub cleared : SimpleVecCache W
  cleared = record {
    start = record { cached = not_computed; num_known_states = 0 };
    trs = record { cached = []; num_known_states = 0 };
    final_weights = record { cached = []; num_known_states = 0 };
  }

  unfoldable pub get_start : SimpleVecCache W → CacheStatus (Option ℕ)
  get_start cache = cache.start.cached

  unfoldable pub insert_start : SimpleVecCache W → Option ℕ → SimpleVecCache W
  insert_start cache id = record cache {
    start = record {
      cached = computed id;
      num_known_states = elim id [
        | none ↦ cache.start.num_known_states
        | some s ↦ max cache.start.num_known_states (s + 1)
      ];
    };
  }

  unfoldable pub get_trs : SimpleVecCache W → ℕ → CacheStatus (List (Tr W))
  get_trs cache id = map (entry cache.trs.cached id) (λ e. e.trs)

  unfoldable pub insert_trs : SimpleVecCache W → ℕ → List (Tr W) → SimpleVecCache W
  insert_trs cache id trs = record cache {
    trs = record {
      cached = set (resized cache.trs.cached (id + 1)) id (
          computed (record {
            trs = trs;
            niepsilons = count_label (λ t. t.ilabel) trs;
            noepsilons = count_label (λ t. t.olabel) trs;
          }));
      num_known_states = known trs cache.trs.num_known_states;
    };
  }

  unfoldable pub get_final_weight : SimpleVecCache W → ℕ → CacheStatus (Option W)
  get_final_weight cache id = entry cache.final_weights.cached id

  unfoldable pub insert_final_weight : SimpleVecCache W → ℕ → Option W → SimpleVecCache W
  insert_final_weight cache id weight = record cache {
    final_weights = record {
      cached = set (resized cache.final_weights.cached (id + 1)) id (computed weight);
      num_known_states = max cache.final_weights.num_known_states (id + 1);
    };
  }

  unfoldable pub num_known_states : SimpleVecCache W → ℕ
  num_known_states cache =
      max (max (max 0 cache.start.num_known_states) cache.trs.num_known_states)
        cache.final_weights.num_known_states

  unfoldable pub num_trs : SimpleVecCache W → ℕ → Option ℕ
  num_trs cache id = into_option (map (entry cache.trs.cached id) (λ e. length e.trs))

  unfoldable pub num_input_epsilons : SimpleVecCache W → ℕ → Option ℕ
  num_input_epsilons cache id = into_option (map (entry cache.trs.cached id) (λ e. e.niepsilons))

  unfoldable pub num_output_epsilons : SimpleVecCache W → ℕ → Option ℕ
  num_output_epsilons cache id = into_option (map (entry cache.trs.cached id) (λ e. e.noepsilons))

  abbrev total_trs : List (CacheStatus (CacheTrs W)) → ℕ
  total_trs [] = 0
  total_trs (not_computed ∷ l) = total_trs l
  total_trs (computed e ∷ l) = length e.trs + total_trs l

  unfoldable pub compute_num_known_trs : SimpleVecCache W → ℕ
  compute_num_known_trs cache = total_trs cache.trs.cached

  unfoldable pub len_trs : SimpleVecCache W → ℕ
  len_trs cache = length cache.trs.cached

  unfoldable pub len_final_weights : SimpleVecCache W → ℕ
  len_final_weights cache = length cache.final_weights.cached

  -- `SimpleVecCache` as an instance of the trait.
  abbrev pub simple_vec_cache : FstCache W
  simple_vec_cache = record {
    Cache = SimpleVecCache W;
    get_start = get_start;
    insert_start = insert_start;
    get_trs = get_trs;
    insert_trs = insert_trs;
    get_final_weight = get_final_weight;
    insert_final_weight = insert_final_weight;
  }

module _ {T : Type 0} where
  length-resized : (l : List (CacheStatus T)) (n : ℕ) → n ≤ length (resized l n)
  length-resized l n = ground (
    arith,
    length-append l (replicate (n - length l) not_computed),
    length-replicate {A = CacheStatus T} (n - length l) not_computed,
  )

  entry-replicate : (n id : ℕ) → entry {T = T} (replicate n not_computed) id ≡ not_computed
  entry-replicate zero id = refl
  entry-replicate (suc n) zero = refl
  entry-replicate (suc n) (suc id) = entry-replicate n id

  entry-append :
      (l : List (CacheStatus T)) (n id : ℕ) → entry (l ++ replicate n not_computed) id ≡ entry l id
  entry-append [] n id = entry-replicate n id
  entry-append (x ∷ l) n zero = refl
  entry-append (x ∷ l) n (suc id) = entry-append l n id

  entry-resized : (l : List (CacheStatus T)) (n id : ℕ) → entry (resized l n) id ≡ entry l id
  entry-resized l n id = elim (Bool-cases (leb n (length l))) [
    | inl e ↦ ground (arith, e)
    | inr e ↦ ground (arith, e, entry-append l (n - length l) id)
  ]

  entry-set :
      (l : List (CacheStatus T)) (id : ℕ) (v : CacheStatus T)
      → entry (set (resized l (id + 1)) id v) id ≡ v
  entry-set l id v =
      let lt = length-resized l (id + 1) in
      ground (arith, get_elem?-set_self (resized l (id + 1)) id v (omega (arith, lt)))

  entry-set_ne :
      (l : List (CacheStatus T)) (id j : ℕ) (v : CacheStatus T)
      → id ≢ j
      → entry (set (resized l (id + 1)) id v) j ≡ entry l j
  entry-set_ne l id j v ne =
      let at = get_elem?-set_ne (resized l (id + 1)) id j v ne in
      ap (λ (o : Option (CacheStatus T)). elim o [ none ↦ not_computed | some e ↦ e ]) at
      ∙ entry-resized l (id + 1) j

pub simple_vec_cache-IsFstCache : {W : Type 0} → IsFstCache (simple_vec_cache {W = W})
unfolding get_start insert_start get_trs insert_trs get_final_weight insert_final_weight
simple_vec_cache-IsFstCache {W} = record {
  start-insert = λ x s. refl;
  start-insert_trs = λ x i l. refl;
  start-insert_final = λ x i w. refl;
  trs-insert = λ x i l. ap (λ e. map e (λ (c : CacheTrs W). c.trs)) (entry-set x.trs.cached i _);
  trs-insert_ne = λ x i j l ne.
      ap (λ e. map e (λ (c : CacheTrs W). c.trs)) (entry-set_ne x.trs.cached i j _ ne);
  trs-insert_start = λ x s j. refl;
  trs-insert_final = λ x i j w. refl;
  final-insert = λ x i w. entry-set x.final_weights.cached i _;
  final-insert_ne = λ x i j w ne. entry-set_ne x.final_weights.cached i j _ ne;
  final-insert_start = λ x s j. refl;
  final-insert_trs = λ x i j l. refl;
}
