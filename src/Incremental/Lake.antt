-- ===== src/Incremental/Lake.antt =====
-- What Spark and Delta Lake document, as far as spark/jobs/incremental_ingest.py relies on it: what
-- a merge that updates all matched records and inserts the others does to a table.
use mathlib.Core.List.{Permᴰ}
use vector_catalog_service.Prelude.{
  ◌≡◌, String, Bool, true, false, ◌||◌, ◌==◌, Option, none, some, List, [], ◌∷◌, ◌++◌, map,
  if◌then◌else◌,
}
use vector_catalog_service.Prelude.Dict.{has}
use vector_catalog_service.Prelude.Exec.{ok, raised}
use vector_catalog_service.Incremental.{
  when_matched_update_all, when_not_matched_insert_all, Merge, Write, Lakehouse,
}

-- A record: the value of each column.
abbrev pub Record : Type 0 → Type 0
Record V = String → V

abbrev pub key : String
key = "record_id"

-- `withColumn(name, value)`, on one record
abbrev pub stamp : {V : Type 0} → String → V → Record V → Record V
stamp name value r column = if name == column then value else r column

abbrev pub or_else : {A : Type 0} → A → Option A → A
or_else a none = a
or_else a (some b) = b

module _ {V : Type 0} (equal : V → V → Bool) where
  abbrev pub same_key : Record V → Record V → Bool
  same_key t n = equal (t key) (n key)

  -- the record of the source with the key of `t`, if there is one
  abbrev pub find : Record V → List (Record V) → Option (Record V)
  find t [] = none
  find t (n ∷ ns) = if same_key t n then some n else find t ns

  abbrev pub updated : List (Record V) → Record V → Record V
  updated source t = or_else t (find t source)

  -- A record of the table has the key of `n`.
  abbrev pub matched : List (Record V) → Record V → Bool
  matched [] n = false
  matched (t ∷ ts) n = same_key t n || matched ts n

  abbrev pub inserted : List (Record V) → List (Record V) → List (Record V)
  inserted table [] = []
  inserted table (n ∷ ns) = if matched table n then inserted table ns else n ∷ inserted table ns

  -- The table after the merge, up to order.
  abbrev pub upsert : List (Record V) → List (Record V) → List (Record V)
  upsert table source = map (updated source) table ++ inserted table source

-- A merge on the keys that updates every matched record and inserts all others.
abbrev pub full_merge : {D : Type 0} → String → D → Merge D
full_merge table source = record {
  path = table;
  target_alias = "target";
  source = source;
  source_alias = "source";
  condition = "target.record_id = source.record_id";
  clauses = when_matched_update_all ∷ when_not_matched_insert_all ∷ [];
}

-- A write of a new table in the format of Delta Lake, partitioned by any columns.
abbrev pub delta_write : {D : Type 0} → String → List String → D → Write D
delta_write table by source = record {
  source = source;
  format = "delta";
  partition_by = by;
  path = table;
}

-- How data frames and tables are read: `equal` is the equality of SQL, under which null equals
-- nothing.
pub record Contents (V D S : Type 0) : Type 0 where
  pub equal : V → V → Bool
  pub columns : D → List String
  pub records : D → List (Record V)
  pub table : String → S → D

module _ {V D S : Type 0} (lake : Lakehouse V D S) (it : Contents V D S) where
  pub record IsLake : Type 0 where
    pub equal_sym : (a b : V) → it.equal a b ≡ true → it.equal b a ≡ true
    pub equal_trans : (a b c : V) → it.equal a b ≡ true → it.equal b c ≡ true → it.equal a c ≡ true
    pub with_column_records :
        (c : String) (v : V) (d : D)
        → it.records (lake.with_column c v d) ≡ map (stamp c v) (it.records d)
    pub with_column_columns :
        (c : String) (v w : V) (d : D)
        → it.columns (lake.with_column c v d) ≡ it.columns (lake.with_column c w d)
    pub execute_records :
        (path : String) (d : D) (s s' : S)
        → it.columns (it.table path s) ≡ it.columns d
        → lake.execute (full_merge path d) s ≡ (ok tt, s')
        → Permᴰ
            (it.records (it.table path s'))
            (upsert it.equal (it.records (it.table path s)) (it.records d))
    pub execute_columns :
        (path : String) (d : D) (s s' : S)
        → it.columns (it.table path s) ≡ it.columns d
        → lake.execute (full_merge path d) s ≡ (ok tt, s')
        → it.columns (it.table path s') ≡ it.columns d
    pub execute_unresolved :
        (path : String) (d : D) (s : S)
        → has key (it.columns (it.table path s)) ≡ false
        → (e : String) × (lake.execute (full_merge path d) s ≡ (raised e, s))
    pub execute_kept :
        (path : String) (d : D) (s s' : S)
        → lake.execute (full_merge path d) s ≡ (ok tt, s')
        → lake.is_delta_table path s ≡ true
        → lake.is_delta_table path s' ≡ true
    pub save_records :
        (path : String) (by : List String) (d : D) (s s' : S)
        → lake.save (delta_write path by d) s ≡ (ok tt, s')
        → Permᴰ (it.records (it.table path s')) (it.records d)
    pub save_table :
        (path : String) (by : List String) (d : D) (s s' : S)
        → lake.save (delta_write path by d) s ≡ (ok tt, s')
        → (lake.is_delta_table path s' ≡ true) × (it.columns (it.table path s') ≡ it.columns d)
