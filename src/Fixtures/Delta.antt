-- ===== src/Fixtures/Delta.antt =====
-- One Delta table and one parquet file, with a clock; values are numbers, 0 is null.
use mathlib.Core.List.{Permᴰ}
use mathlib.Core.List.Permᴰ
use mathlib.Core.Path.{subst}
use vector_catalog_service.Prelude.Dict.{has}
use vector_catalog_service.Prelude.{
  ℕ, ◌≡◌, refl, sym, ap, ◌∙◌, String, Bool, true, false, ◌&&◌, Option, none, some, List, [], ◌∷◌,
  ◌++◌, map, length, eqb, if◌then◌else◌, arith,
}
use vector_catalog_service.Prelude.Exec.{ok, raised}
use vector_catalog_service.Incremental.{Lakehouse}
use vector_catalog_service.Incremental.Lake.{
  full_merge, Record, Contents, IsLake, key, stamp, upsert,
}

pub record DataFrame : Type 0 where
  pub columns : List String
  pub records : List (Record ℕ)

pub record Store : Type 0 where
  pub now : ℕ
  pub file : DataFrame
  pub delta : Option DataFrame

-- null equals nothing
abbrev pub equal : ℕ → ℕ → Bool
equal a b = eqb a b && (if eqb a 0 then false else true)

abbrev pub no_table : DataFrame
no_table = record { columns = []; records = [] }

abbrev pub table_of : Option DataFrame → DataFrame
table_of none = no_table
table_of (some d) = d

abbrev pub is_some : {A : Type 0} → Option A → Bool
is_some none = false
is_some (some a) = true

abbrev pub merged : DataFrame → DataFrame → DataFrame
merged target source = record {
  columns = target.columns;
  records = upsert equal target.records source.records;
}

abbrev pub lake : Lakehouse ℕ DataFrame Store
lake = record {
  get_or_create = λ builder s. ok tt;
  read_parquet = λ path s. ok s.file;
  current_timestamp = λ s. s.now;
  with_column = λ name value d. record {
    columns = if has name d.columns then d.columns else d.columns ++ (name ∷ []);
    records = map (stamp name value) d.records;
  };
  is_delta_table = λ path s. is_some s.delta;
  execute = λ m s.
      if has key (table_of s.delta).columns
      then (ok tt, record s { delta = some (merged (table_of s.delta) m.source) })
      else (raised "cannot resolve target.record_id", s);
  save = λ w s. (ok tt, record s { delta = some w.source });
  count = λ d s. ok (length d.records);
  show_history = λ path n columns s. ok tt;
}

abbrev pub contents : Contents ℕ DataFrame Store
contents = record {
  equal = equal;
  columns = λ d. d.columns;
  records = λ d. d.records;
  table = λ path s. table_of s.delta;
}

execute-delta :
    (path : String) (d : DataFrame) (s s' : Store)
    → lake.execute (full_merge path d) s ≡ (ok tt, s')
    → some (merged (table_of s.delta) d) ≡ s'.delta
execute-delta path d s s' h = ground arith

pub lake-IsLake : IsLake lake contents
lake-IsLake = record {
  equal_sym = λ a b h. ground arith;
  equal_trans = λ a b c h k. ground arith;
  with_column_records = λ c v d. refl;
  with_column_columns = λ c v w d. refl;
  execute_records = λ path d s s' same h.
      subst (λ t. Permᴰ (table_of t).records (upsert equal (table_of s.delta).records d.records))
        (execute-delta path d s s' h) (Permᴰ.refl _);
  execute_columns = λ path d s s' same h.
      sym (ap (λ t. (table_of t).columns) (execute-delta path d s s' h)) ∙ same;
  execute_unresolved = λ path d s missing. ("cannot resolve target.record_id", ground arith);
  execute_kept = λ path d s s' h there. sym (ap is_some (execute-delta path d s s' h));
  save_records = λ path by d s s' h.
      let put : some d ≡ s'.delta = ground arith in
      subst (λ t. Permᴰ (table_of t).records d.records) put (Permᴰ.refl _);
  save_table = λ path by d s s' h.
      let put : some d ≡ s'.delta = ground arith in
      (sym (ap is_some put), sym (ap (λ t. (table_of t).columns) put));
}
