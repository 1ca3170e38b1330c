-- ===== src/Lazy/StateTable/Numbers.antt =====
-- A state table numbers its tuples from 0.
use rustfst.Base.{
  ℕ, suc, ◌^◌, ◌≡◌, ◌≢◌, ◌≤◌, ◌<◌, ◌↔◌, inl, inr, refl, sym, ap, subst, ◌∙◌, List, [], ◌∷◌, ◌++◌,
  length, get_elem?, length-append, none, some, Option-cases, Bool-cases, ok, u32, u32_small, arith,
}
use rustfst.Fst.Access.{get_elem?-concat, get_elem?-concat_last, get_elem?-concat_old}
use rustfst.Lazy.StateTable.{Equality, BiHashMap, new, lookup, get_id_or_insert, find_tuple}

module _ {T : Type 0} ⦃eq : Equality T⦄ where
  -- Both directions of the table agree.
  pub record IsTable (table : BiHashMap T) : Type 0 where
    pub listed :
        (tuple : T) (id : ℕ)
        → lookup table.tuple_to_id tuple ≡ some id
        → get_elem? table.id_to_tuple id ≡ some tuple
    pub numbered :
        (tuple : T) (id : ℕ)
        → get_elem? table.id_to_tuple id ≡ some tuple
        → lookup table.tuple_to_id tuple ≡ some id

  pub new-IsTable : IsTable new
  new-IsTable = record { listed = λ t id h. cc; numbered = λ t id h. cc }

  -- The result of numbering a tuple: a table that has the tuple under the number and all the old
  -- numbers.
  pub record Numbers (table : BiHashMap T) (tuple : T) (answer : ℕ × BiHashMap T) : Type 0 where
    pub valid : IsTable answer.1
    pub resolves : find_tuple answer.1 answer.0 ≡ ok tuple
    pub keeps : (id : ℕ) (t : T) → find_tuple table id ≡ ok t → find_tuple answer.1 id ≡ ok t
    pub again : get_id_or_insert answer.1 tuple ≡ answer
    pub dense : length answer.1.id_to_tuple ≤ suc (length table.id_to_tuple)

  pub lookup-head :
      (tuple other : T) (n : ℕ) (l : List (T × ℕ))
      → tuple ≢ other
      → lookup ((tuple, n) ∷ l) other ≡ lookup l other
  lookup-head tuple other n l ne = elim (Bool-cases (eq.equals tuple other)) [
    | inl e ↦ absurd (ne ((eq.equals_iff tuple other).0 e))
    | inr e ↦ ground (arith, e)
  ]

  pub lookup_self : (tuple : T) (n : ℕ) (l : List (T × ℕ)) → lookup ((tuple, n) ∷ l) tuple ≡ some n
  lookup_self tuple n l = ground (arith, (eq.equals_iff tuple tuple).1 refl)

  pub find_tuple-at :
      (table : BiHashMap T) (id : ℕ) (t : T)
      → (find_tuple table id ≡ ok t) ↔ (get_elem? table.id_to_tuple id ≡ some t)
  unfolding find_tuple
  find_tuple-at table id t = elim (Option-cases (get_elem? table.id_to_tuple id)) [
    | inl e ↦ ground (arith, e)
    | inr (a, e) ↦ ground (arith, e)
  ]

  -- A known tuple.
  stays :
      (table : BiHashMap T) (tuple : T) (id : ℕ)
      → IsTable table
      → lookup table.tuple_to_id tuple ≡ some id
      → Numbers table tuple (id, table)
  unfolding get_id_or_insert
  stays table tuple id v e = record {
    valid = v;
    resolves = (find_tuple-at table id tuple).1 (v.listed tuple id e);
    keeps = λ i t h. h;
    again = ground (arith, e);
    dense = omega arith;
  }

  extended : BiHashMap T → T → BiHashMap T
  extended table tuple = record {
    tuple_to_id = (tuple, length table.id_to_tuple) ∷ table.tuple_to_id;
    id_to_tuple = table.id_to_tuple ++ tuple ∷ [];
  }

  extended-IsTable :
      (table : BiHashMap T) (tuple : T)
      → IsTable table
      → lookup table.tuple_to_id tuple ≡ none
      → IsTable (extended table tuple)
  unfolding extended
  extended-IsTable table tuple v e =
      let n = length table.id_to_tuple in
      record {
        listed = λ t id h. elim (Bool-cases (eq.equals tuple t)) [
          | inl q ↦
              let same : tuple ≡ t = (eq.equals_iff tuple t).0 q in
              let at : id ≡ n = ground (arith, h, q) in
              rw (at, sym same) (get_elem?-concat_last table.id_to_tuple tuple)
          | inr q ↦
              get_elem?-concat_old table.id_to_tuple tuple id (v.listed t id (ground (arith, h, q)))
        ];
        numbered = λ t id h. elim (get_elem?-concat table.id_to_tuple tuple id {a = t} h) [
          | inl old ↦
              let known = v.numbered t id old in
              lookup-head tuple t n table.tuple_to_id
                (λ same. absurd (ground (arith, known, e, ap (lookup table.tuple_to_id) same)))
              ∙ known
          | inr (at, same) ↦ rw (at, same) (lookup_self tuple n table.tuple_to_id)
        ];
      }

  -- A new one.
  adds :
      (table : BiHashMap T) (tuple : T)
      → IsTable table
      → length table.id_to_tuple < 2 ^ 32
      → lookup table.tuple_to_id tuple ≡ none
      → Numbers table tuple (
        u32 (length table.id_to_tuple),
        record {
          tuple_to_id = (tuple, u32 (length table.id_to_tuple)) ∷ table.tuple_to_id;
          id_to_tuple = table.id_to_tuple ++ tuple ∷ [];
        },
      )
  unfolding get_id_or_insert extended
  adds table tuple v small e =
      let n = length table.id_to_tuple in
      let table' = extended table tuple in
      let here = get_elem?-concat_last table.id_to_tuple tuple in
      rw (u32_small n small) (record {
        valid = extended-IsTable table tuple v e;
        resolves = (find_tuple-at table' n tuple).1 here;
        keeps = λ i t h.
            (find_tuple-at table' i t).1
              (get_elem?-concat_old table.id_to_tuple tuple i ((find_tuple-at table i t).0 h));
        again = ground (arith, lookup_self tuple n table.tuple_to_id);
        dense = omega (arith, length-append table.id_to_tuple (tuple ∷ []));
      })

  -- Below 2^32 tuples, numbering a tuple keeps the table right: its number resolves to it, every
  -- number given before resolves to what it did, asking again gives the same number and changes
  -- nothing, and at most one number is added.
  pub get_id_or_insert_lem :
      (table : BiHashMap T) (tuple : T)
      → IsTable table
      → length table.id_to_tuple < 2 ^ 32
      → Numbers table tuple (get_id_or_insert table tuple)
  unfolding get_id_or_insert
  get_id_or_insert_lem table tuple v small = elim (Option-cases (lookup table.tuple_to_id tuple)) [
    | inl e ↦ subst (Numbers table tuple) (ground (arith, e)) (adds table tuple v small e)
    | inr (id, e) ↦ subst (Numbers table tuple) (ground (arith, e)) (stays table tuple id v e)
  ]

  pub get_id_or_insert-grows :
      (table : BiHashMap T) (tuple : T)
      → length table.id_to_tuple ≤ length (get_id_or_insert table tuple).1.id_to_tuple
  unfolding get_id_or_insert
  get_id_or_insert-grows table tuple = elim (Option-cases (lookup table.tuple_to_id tuple)) [
    | inl e ↦ ground (arith, e, length-append table.id_to_tuple (tuple ∷ []))
    | inr (id, e) ↦ ground (arith, e)
  ]
