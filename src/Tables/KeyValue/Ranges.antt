-- ===== src/Tables/KeyValue/Ranges.antt =====
-- include/mdbx_containers/KeyValueTable.hpp: the methods that read a range of keys with a cursor.
use mdbx_containers.Prelude.{
  ℕ, zero, suc, Bool, true, false, not, Option, none, some, List, [], ◌∷◌, ok, throw, Result,
  if◌then◌else◌, length,
}
use mdbx_containers.NodeId.{Comparison, is_same}
use mdbx_containers.Stateful.{◌>>=◌, pure}
use mdbx_containers.Mdbx.{c_str, Bytes, Mdbx, done, failed}
use mdbx_containers.Entries.{Entry, is_less, is_greater, seek}
use mdbx_containers.Tables.{BaseTable, Connection, Serializer, InSession, reading, of_result}

-- The records that a forward loop visits: up to the first whose key is above `hi`.
unfoldable pub upto : (Bytes → Bytes → Comparison) → Bytes → List Entry → List Entry
upto cmp hi [] = []
upto cmp hi ((k, v) ∷ l) =
    let rest = upto cmp hi l in if is_greater (cmp k hi) then [] else (k, v) ∷ rest

-- The cursor's way back: the records before the place of `k`, the last one first, in front of `back`.
unfoldable pub passed : (Bytes → Bytes → Comparison) → Bytes → List Entry → List Entry → List Entry
passed cmp k [] back = back
passed cmp k ((j, v) ∷ l) back =
    let rest = passed cmp k l ((j, v) ∷ back) in if is_less (cmp j k) then rest else back

-- The records that a backward loop visits: up to the first whose key is below `lo`.
unfoldable pub downto : (Bytes → Bytes → Comparison) → Bytes → List Entry → List Entry
downto cmp lo [] = []
downto cmp lo ((k, v) ∷ l) =
    let rest = downto cmp lo l in if is_less (cmp k lo) then [] else (k, v) ∷ rest

-- Where the backward loop starts: MDBX_SET_RANGE at `hi`, then MDBX_LAST where nothing is found, MDBX_PREV
-- where a greater key is.
unfoldable pub backward : (Bytes → Bytes → Comparison) → Bytes → List Entry → List Entry
unfolding seek passed
backward cmp hi entries = elim (seek cmp hi entries) [
  | [] ↦ passed cmp hi entries []
  | (k, v) ∷ l ↦
      if is_greater (cmp k hi) then passed cmp hi entries [] else (k, v) ∷ passed cmp hi entries []
]

-- `limit` records at most: the loop stops when `out` has reached it.
unfoldable pub at_most : ℕ → List Entry → List Entry
at_most n [] = []
at_most zero (e ∷ l) = []
at_most (suc n) (e ∷ l) = e ∷ at_most n l

module _ {K V : Type 0} (db : Mdbx) (connection : Connection db) (s : Serializer K V)
    (table : BaseTable) where
  unfoldable pub pair_of : Entry → Result (K × V)
  pair_of (k, v) = elim (s.deserialize_key k) [
    | throw e ↦ throw e
    | ok key ↦ elim (s.deserialize_value v) [ throw e ↦ throw e | ok value ↦ ok (key, value) ]
  ]

  -- The body of a loop that adds the pair of each record.
  unfoldable pub pairs_of : List Entry → Result (List (K × V))
  unfolding pair_of
  pairs_of [] = ok []
  pairs_of (e ∷ l) = elim (pair_of e) [
    | throw x ↦ throw x
    | ok pair ↦ elim (pairs_of l) [ throw x ↦ throw x | ok pairs ↦ ok (pair ∷ pairs) ]
  ]

  unfoldable pub values_of : List Entry → Result (List V)
  values_of [] = ok []
  values_of ((k, v) ∷ l) = elim (s.deserialize_value v) [
    | throw x ↦ throw x
    | ok value ↦ elim (values_of l) [ throw x ↦ throw x | ok values ↦ ok (value ∷ values) ]
  ]

  unfoldable pub first_pair : List Entry → Result (Option (K × V))
  unfolding pair_of
  first_pair [] = ok none
  first_pair (e ∷ l) = elim (pair_of e) [ throw x ↦ throw x | ok pair ↦ ok (some pair) ]

  unfoldable pub first_key : List Entry → Result (Option K)
  first_key [] = ok none
  first_key ((k, v) ∷ l) = elim (s.deserialize_key k) [ throw x ↦ throw x | ok key ↦ ok (some key) ]

  -- The records of the table with a key from `lo` to `hi`, as a forward loop meets them.
  unfoldable pub between : Bytes → Bytes → db.Txn → List Entry
  unfolding seek upto
  between lo hi t =
      if is_greater (db.cmp (c_str table.dbi_name) t lo hi)
      then []
      else upto (db.cmp (c_str table.dbi_name) t) hi
          (seek (db.cmp (c_str table.dbi_name) t) lo (db.entries (c_str table.dbi_name) t))

  unfoldable pub between_reverse : Bytes → Bytes → db.Txn → List Entry
  unfolding backward downto
  between_reverse lo hi t =
      if is_greater (db.cmp (c_str table.dbi_name) t lo hi)
      then []
      else downto (db.cmp (c_str table.dbi_name) t) lo
          (backward (db.cmp (c_str table.dbi_name) t) hi (db.entries (c_str table.dbi_name) t))

  unfoldable pub last : List Entry → List Entry
  last [] = []
  last (e ∷ []) = e ∷ []
  last (e ∷ f ∷ l) = last (f ∷ l)

  unfoldable pub db_load : InSession db (List (K × V))
  unfolding ◌>>=◌ of_result reading pairs_of
  db_load = do
    entries ← reading db (db.entries (c_str table.dbi_name))
    of_result db (pairs_of entries)

  unfoldable pub db_range : K → K → InSession db (List (K × V))
  unfolding ◌>>=◌ of_result reading between pairs_of
  db_range from_key to_key = do
    lo ← of_result db (s.serialize_key from_key)
    hi ← of_result db (s.serialize_key to_key)
    entries ← reading db (between lo hi)
    of_result db (pairs_of entries)

  unfoldable pub db_range_values : K → K → InSession db (List V)
  unfolding ◌>>=◌ of_result reading between values_of
  db_range_values from_key to_key = do
    lo ← of_result db (s.serialize_key from_key)
    hi ← of_result db (s.serialize_key to_key)
    entries ← reading db (between lo hi)
    of_result db (values_of entries)

  -- The loop of `db_for_each_range`, with what the callback has been given: it stops where the callback
  -- returns false.
  unfoldable pub call_loop : (K → V → Bool) → List Entry → Result (List (K × V) × Bool)
  unfolding pair_of
  call_loop callback [] = ok ([], true)
  call_loop callback (e ∷ l) = elim (pair_of e) [
    | throw x ↦ throw x
    | ok pair ↦ elim (callback pair.0 pair.1) [
      | false ↦ ok (pair ∷ [], false)
      | true ↦ elim (call_loop callback l) [
        | throw x ↦ throw x
        | ok given ↦ ok (pair ∷ given.0, given.1)
      ]
    ]
  ]

  unfoldable pub db_for_each_range : K → K → (K → V → Bool) → InSession db (List (K × V) × Bool)
  unfolding ◌>>=◌ of_result reading between call_loop
  db_for_each_range from_key to_key callback = do
    lo ← of_result db (s.serialize_key from_key)
    hi ← of_result db (s.serialize_key to_key)
    entries ← reading db (between lo hi)
    of_result db (call_loop callback entries)

  unfoldable pub db_range_reverse : K → K → InSession db (List (K × V))
  unfolding ◌>>=◌ of_result reading between_reverse pairs_of
  db_range_reverse from_key to_key = do
    lo ← of_result db (s.serialize_key from_key)
    hi ← of_result db (s.serialize_key to_key)
    entries ← reading db (between_reverse lo hi)
    of_result db (pairs_of entries)

  unfoldable pub db_range_reverse_limit : K → K → ℕ → InSession db (List (K × V))
  unfolding ◌>>=◌ pure of_result reading between_reverse at_most pairs_of
  db_range_reverse_limit from_key to_key zero = pure []
  db_range_reverse_limit from_key to_key (suc limit) = do
    lo ← of_result db (s.serialize_key from_key)
    hi ← of_result db (s.serialize_key to_key)
    entries ← reading db (between_reverse lo hi)
    of_result db (pairs_of (at_most (suc limit) entries))

  unfoldable pub contains_between : Bytes → Bytes → db.Txn → Bool
  unfolding seek
  contains_between lo hi t =
      if is_greater (db.cmp (c_str table.dbi_name) t lo hi)
      then false
      else elim (seek (db.cmp (c_str table.dbi_name) t) lo (db.entries (c_str table.dbi_name) t)) [
        | [] ↦ false
        | (k, v) ∷ l ↦ not (is_greater (db.cmp (c_str table.dbi_name) t k hi))
      ]

  unfoldable pub db_contains_range : K → K → InSession db Bool
  unfolding ◌>>=◌ of_result reading contains_between
  db_contains_range from_key to_key = do
    lo ← of_result db (s.serialize_key from_key)
    hi ← of_result db (s.serialize_key to_key)
    reading db (contains_between lo hi)

  unfoldable pub db_count_range : K → K → InSession db ℕ
  unfolding ◌>>=◌ of_result reading between
  db_count_range from_key to_key = do
    lo ← of_result db (s.serialize_key from_key)
    hi ← of_result db (s.serialize_key to_key)
    reading db (λ t. length (between lo hi t))

  -- The exact record is looked for first; any failure of `mdbx_get` leads on to the cursor.
  unfoldable pub lower_bound : Bytes → db.Txn → Result (Option (K × V))
  unfolding pair_of first_pair seek
  lower_bound key t = elim (db.get (c_str table.dbi_name) key t) [
    | done value ↦ first_pair ((key, value) ∷ [])
    | failed rc ↦
        first_pair
          (seek (db.cmp (c_str table.dbi_name) t) key (db.entries (c_str table.dbi_name) t))
  ]

  unfoldable pub db_lower_bound : K → InSession db (Option (K × V))
  unfolding ◌>>=◌ of_result reading lower_bound
  db_lower_bound key = do
    db_key ← of_result db (s.serialize_key key)
    found ← reading db (lower_bound db_key)
    of_result db found

  -- The next record where the first has the key itself.
  unfoldable pub skip_same : (Bytes → Bytes → Comparison) → Bytes → List Entry → List Entry
  skip_same cmp key [] = []
  skip_same cmp key ((k, v) ∷ l) = if is_same (cmp k key) then l else (k, v) ∷ l

  unfoldable pub db_upper_bound : K → InSession db (Option (K × V))
  unfolding ◌>>=◌ of_result reading first_pair skip_same seek
  db_upper_bound key = do
    db_key ← of_result db (s.serialize_key key)
    entries ← reading db (λ t.
        skip_same (db.cmp (c_str table.dbi_name) t) db_key
          (seek (db.cmp (c_str table.dbi_name) t) db_key (db.entries (c_str table.dbi_name) t)))
    of_result db (first_pair entries)

  unfoldable pub db_first : InSession db (Option (K × V))
  unfolding ◌>>=◌ of_result reading first_pair
  db_first = do
    entries ← reading db (db.entries (c_str table.dbi_name))
    of_result db (first_pair entries)

  unfoldable pub db_last : InSession db (Option (K × V))
  unfolding ◌>>=◌ of_result reading first_pair last
  db_last = do
    entries ← reading db (λ t. last (db.entries (c_str table.dbi_name) t))
    of_result db (first_pair entries)

  unfoldable pub db_min_key : InSession db (Option K)
  unfolding ◌>>=◌ of_result reading first_key
  db_min_key = do
    entries ← reading db (db.entries (c_str table.dbi_name))
    of_result db (first_key entries)

  unfoldable pub db_max_key : InSession db (Option K)
  unfolding ◌>>=◌ of_result reading first_key last
  db_max_key = do
    entries ← reading db (λ t. last (db.entries (c_str table.dbi_name) t))
    of_result db (first_key entries)
