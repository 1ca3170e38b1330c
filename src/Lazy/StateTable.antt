-- ===== src/Lazy/StateTable.antt =====
-- rustfst/src/algorithms/lazy/state_table.rs: the numbers of the states of a machine that is computed on
-- demand. The lock around the table is left out: each call runs under it from its start to its end. The
-- hash map is an association list.
pub mod Numbers
use rustfst.Base.{
  ℕ, ◌≡◌, ◌↔◌, if◌then◌else◌, Bool, true, List, [], ◌∷◌, ◌++◌, length, get_elem?, Option, none,
  some, Result, ok, err, panic, u32,
}

-- `Eq` of the tuples.
pub record Equality (T : Type 0) : Type 0 where
  pub equals : T → T → Bool
  pub equals_iff : (a b : T) → (equals a b ≡ true) ↔ (a ≡ b)

pub record BiHashMap (T : Type 0) : Type 0 where
  pub tuple_to_id : List (T × ℕ)
  pub id_to_tuple : List T

module _ {T : Type 0} where
  -- `BiHashMap::new`, `StateTable::new` and its default.
  abbrev pub new : BiHashMap T
  new = record { tuple_to_id = []; id_to_tuple = [] }

  module _ ⦃eq : Equality T⦄ where
    abbrev pub lookup : List (T × ℕ) → T → Option ℕ
    lookup [] tuple = none
    lookup ((t, id) ∷ entries) tuple =
        let rest = lookup entries tuple in if eq.equals t tuple then some id else rest

    -- `find_id` and `find_id_from_ref` are this under the lock.
    unfoldable pub get_id_or_insert : BiHashMap T → T → ℕ × BiHashMap T
    get_id_or_insert table tuple = elim (lookup table.tuple_to_id tuple) [
      | some id ↦ (id, table)
      | none ↦
          let n = u32 (length table.id_to_tuple) in
          (
            n,
            record {
              tuple_to_id = (tuple, n) ∷ table.tuple_to_id;
              id_to_tuple = table.id_to_tuple ++ tuple ∷ [];
            },
          )
    ]

  -- `get_tuple_unchecked`, which panics on an unknown number, and `find_tuple`.
  unfoldable pub find_tuple : BiHashMap T → ℕ → Result T
  find_tuple table id = elim (get_elem? table.id_to_tuple id) [ none ↦ err panic | some t ↦ ok t ]
