-- ===== src/Tables/KeyValue/Between.antt =====
-- include/mdbx_containers/KeyValueTable.hpp: what a range of keys holds.
use mdbx_containers.Prelude.{
  ◌≡◌, refl, sym, ap, ◌∙◌, subst, Bool, true, false, not, ◌&&◌, Option, none, some, List, [], ◌∷◌,
  ok, throw, Result, arith, bytes_eq, bytes_eq_iff, if◌then◌else◌, Bool-cases, Option-cases, inl,
  inr,
}
use mdbx_containers.NodeId.{compare_bytes}
use mdbx_containers.NodeId.Laws.{compare_bytes_trans, compare_bytes-flip, compare_bytes_same}
use mdbx_containers.Stateful.{◌>>=◌}
use mdbx_containers.Stateful.Laws.{bind-eq-ok}
use mdbx_containers.Mdbx.{c_str, Bytes, Mdbx, IsMdbx, done}
use mdbx_containers.Entries.{Entry, is_less, is_greater, lookup, seek, IsSorted}
use mdbx_containers.Entries.Order.{lookup-seek, lookup-after, IsSorted-seek}
use mdbx_containers.Protocol.Batch.{ChangeOp}
use mdbx_containers.Tables.{
  BaseTable, Connection, Serializer, IsSerializer, InSession, reading, of_result,
}
use mdbx_containers.Tables.Laws.{of_result-eq-ok, reading-eq-ok}
use mdbx_containers.Tables.KeyValue.{decoded}
use mdbx_containers.Tables.KeyValue.Ranges.{upto, between, pair_of, pairs_of, db_range}
use mdbx_containers.Tables.KeyValue.Spec.{Map}
use mdbx_containers.Tables.KeyValue.Refinement.{
  Represents, encoded, stored, same_keys, key-eq-ok, decoded-encoded,
}

-- Is the key from `lo` to `hi`?
abbrev pub in_bounds : Bytes → Bytes → Bytes → Bool
in_bounds lo hi b = not (is_less (compare_bytes b lo)) && not (is_greater (compare_bytes b hi))

-- A record after the end of the loop is not found, any other is.
lookup-upto :
    (hi b : Bytes) (l : List Entry)
    → IsSorted compare_bytes l
    → lookup b (upto compare_bytes hi l)
      ≡ (if is_greater (compare_bytes b hi) then none else lookup b l)
unfolding lookup upto
lookup-upto hi b [] s = ground arith
lookup-upto hi b ((i, w) ∷ l) s = elim (Option-cases (lookup b l)) [
  | inl e ↦ ground (arith, lookup-upto hi b l s.1, bytes_eq_iff i b)
  | inr (v, e) ↦ ground (
    arith,
    lookup-upto hi b l s.1,
    bytes_eq_iff i b,
    lookup-after i b l v s.0 e,
    compare_bytes_trans hi i b,
    compare_bytes-flip i hi,
    compare_bytes-flip b hi,
  )
]

bounds_crossed :
    (lo hi b : Bytes) → is_greater (compare_bytes lo hi) ≡ true → in_bounds lo hi b ≡ false
bounds_crossed lo hi b h = ground (
  arith,
  compare_bytes-flip lo hi,
  compare_bytes-flip b lo,
  compare_bytes-flip b hi,
  compare_bytes_trans hi lo b,
  compare_bytes_same b lo,
)

-- The first value that a list of pairs has for a key.
abbrev pub value_in : {K V : Type 0} → (K → K → Bool) → K → List (K × V) → Option V
value_in equal_keys k [] = none
value_in equal_keys k ((j, v) ∷ pairs) =
    if equal_keys j k then some v else value_in equal_keys k pairs

-- Every key that can be read is written as the bytes that it was read from.
pub record IsCanonical {K V : Type 0} (s : Serializer K V) : Type 0 where
  pub serialize-deserialize_key :
      (b : Bytes) (k : K) → s.deserialize_key b ≡ ok k → s.serialize_key k ≡ ok b

module _ {K V : Type 0} (db : Mdbx) (laws : IsMdbx db) (connection : Connection db)
    (s : Serializer K V) (serializes : IsSerializer s) (table : BaseTable) where
  lookup-between :
      (lo hi b : Bytes) (t : db.Txn)
      → db.dbi_flags (c_str table.dbi_name) t ≡ done 0
      → lookup b (between db connection s table lo hi t)
        ≡ (if in_bounds lo hi b then lookup b (db.entries (c_str table.dbi_name) t) else none)
  unfolding between lookup
  lookup-between lo hi b t flags =
      let n = (c_str table.dbi_name) in
      let order = laws.cmp-dbi_flags n t flags in
      let all = db.entries n t in
      let sorted = subst (λ cmp. IsSorted cmp all) order (laws.entries-IsSorted n t) in
      let after = lookup-seek lo b all sorted in
      let cut =
        lookup-upto hi b (seek compare_bytes lo all) (IsSorted-seek compare_bytes lo all sorted) in
      rw order (elim (Bool-cases (is_greater (compare_bytes lo hi))) [
        | inl crossed ↦ ground (arith, crossed, bounds_crossed lo hi b)
        | inr straight ↦ ground (arith, straight, after, cut)
      ])

  pairs_of-eq-ok :
      (j v : Bytes) (l : List Entry) (pairs : List (K × V))
      → pairs_of db connection s table ((j, v) ∷ l) ≡ ok pairs
      → (key : K) × (value : V) × (rest : List (K × V)) × (s.deserialize_key j ≡ ok key)
        × (s.deserialize_value v ≡ ok value)
        × (pairs_of db connection s table l ≡ ok rest)
        × (pairs ≡ (key, value) ∷ rest)
  unfolding pairs_of pair_of
  pairs_of-eq-ok j v l pairs h =
      go (s.deserialize_key j) (s.deserialize_value v) (pairs_of db connection s table l) refl refl
        refl
    where
      go :
          (rk : Result K) (rv : Result V) (rl : Result (List (K × V)))
          → s.deserialize_key j ≡ rk
          → s.deserialize_value v ≡ rv
          → pairs_of db connection s table l ≡ rl
          → (key : K) × (value : V) × (rest : List (K × V)) × (s.deserialize_key j ≡ ok key)
            × (s.deserialize_value v ≡ ok value)
            × (pairs_of db connection s table l ≡ ok rest)
            × (pairs ≡ (key, value) ∷ rest)
      go (ok key) (ok value) (ok rest) ek ev el = (key, value, rest, ek, ev, el, ground arith)
      go (throw e) rv rl ek ev el = ground arith
      go (ok key) (throw e) rl ek ev el = ground arith
      go (ok key) (ok value) (throw e) ek ev el = ground arith

  value_in-pairs_of :
      (canonical : IsCanonical s) (l : List Entry) (pairs : List (K × V)) (k : K) (b : Bytes)
      → s.serialize_key k ≡ ok b
      → pairs_of db connection s table l ≡ ok pairs
      → decoded s.deserialize_value (lookup b l) ≡ ok (value_in s.equal_keys k pairs)
  unfolding pairs_of pair_of lookup decoded
  value_in-pairs_of canonical [] pairs k b hk h = ground arith
  value_in-pairs_of canonical ((j, v) ∷ l) pairs k b hk h =
      let (key, value, rest, ek, ev, el, whole) = pairs_of-eq-ok j v l pairs h in
      let tail = value_in-pairs_of canonical l rest k b hk el in
      let head =
        same_keys db laws connection s serializes table key k j b
          (canonical.serialize-deserialize_key j key ek) hk in
      subst
        (λ p.
          decoded s.deserialize_value (if bytes_eq j b then some v else lookup b l)
          ≡ ok (value_in s.equal_keys k p))
        (sym whole) (ground (arith, tail, head, ev))

  abbrev read_range : Bytes → Bytes → InSession db (List (K × V))
  read_range lo hi =
      reading db (between db connection s table lo hi)
      >>= (λ entries. of_result db (pairs_of db connection s table entries))

  abbrev to_range : K → Bytes → InSession db (List (K × V))
  to_range to_key lo = of_result db (s.serialize_key to_key) >>= read_range lo

  lookup-encoded :
      (t : db.Txn) (o : Option V) (b : Bytes)
      → db.get (c_str table.dbi_name) b t ≡ stored db laws connection s serializes table o
      → lookup b (db.entries (c_str table.dbi_name) t)
        ≡ encoded db laws connection s serializes table o
  lookup-encoded t none b h = elim (Option-cases (lookup b (db.entries (c_str table.dbi_name) t))) [
    | inl e ↦ e
    | inr (v, e) ↦ absurd (ground (arith, (laws.get-entries (c_str table.dbi_name) b t v).1 e))
  ]
  lookup-encoded t (some value) b h =
      (laws.get-entries (c_str table.dbi_name) b t (s.serialize_value value)).0 h

  -- `db_range`, when it returns on a table without flags that holds a map, returns the part of the map from the
  -- first key to the last one: a key that can be serialized has among the returned pairs the value that the map has
  -- for it, where its bytes are not below those of the first key and not above those of the last, and
  -- none otherwise. Keys are read from exactly the bytes that they are written as.
  pub value_in-db_range :
      (canonical : IsCanonical s) (u u' : db.Txn × List ChangeOp) (m : Map K V)
      (from_key to_key : K) (pairs : List (K × V)) (lo hi : Bytes)
      → Represents db laws connection s serializes table u.0 m
      → db.dbi_flags (c_str table.dbi_name) u.0 ≡ done 0
      → s.serialize_key from_key ≡ ok lo
      → s.serialize_key to_key ≡ ok hi
      → db_range db connection s table from_key to_key u ≡ ok (pairs, u')
      → (k : K) (b : Bytes) → s.serialize_key k ≡ ok b
      → value_in s.equal_keys k pairs ≡ (if in_bounds lo hi b then m k else none)
  unfolding db_range
  value_in-db_range canonical u u' m from_key to_key pairs lo hi r flags hlo hhi h k b hb =
      let (lo', hlo', h1) =
        key-eq-ok db laws connection s serializes table from_key (λ lo. to_range to_key lo) u u'
          pairs h in
      let (hi', hhi', h2) =
        key-eq-ok db laws connection s serializes table to_key (λ hi. read_range lo' hi) u u' pairs
          h1 in
      let (l, w, e, j) =
        bind-eq-ok (reading db (between db connection s table lo' hi'))
          (λ entries. of_result db (pairs_of db connection s table entries)) u h2 in
      let (read, unchanged) = reading-eq-ok db (between db connection s table lo' hi') u w e in
      let (built, kept) = of_result-eq-ok db (pairs_of db connection s table l) w u' j in
      let found = value_in-pairs_of canonical l pairs k b hb built in
      let low : lo' ≡ lo = ground arith in
      let high : hi' ≡ hi = ground arith in
      let cut =
        ap (λ x. lookup b x) (sym read ∙ rw (low, high) refl) ∙ lookup-between lo hi b u.0 flags in
      let held = lookup-encoded u.0 (m k) b (r.holds k b hb) in
      ground (
        arith,
        found,
        cut,
        held,
        decoded-encoded db laws connection s serializes table (m k),
        decoded-encoded db laws connection s serializes table none,
      )
