-- ===== src/Catalog.antt =====
-- internal/table/catalog.go: the catalog of the tables and the manager that keeps tables open. What
-- `OpenTable` gives is an argument, `none` for an error, and so is whether the catalog was saved.
-- Both types hold their mutex for the whole of a method, but that `GetTable` takes it twice.
pub mod Open
use hedgehog_db_opus.Base.{
  ℕ, Bool, true, false, not, Option, none, some, String, List, [], ◌∷◌, map,
}
use hedgehog_db_opus.Base.{string_keys, ◌==◌, if◌then◌else◌}
use hedgehog_db_opus.Base.GoMap.{GoMap, lookup, delete, insert, is_some}

pub record TableMeta : Type 0 where
  pub name : String
  pub created_at : ℕ
  pub item_count : ℕ

pub data CatalogError : Type 0 where
  already_exists not_found save_failed open_failed : CatalogError

-- `Catalog`, less the directory: its tables.
abbrev pub Catalog : Type 0
Catalog = GoMap String TableMeta

-- The error, if any, with the catalog.
unfoldable pub register_table : String → ℕ → Catalog → Option CatalogError × Catalog
register_table name now c =
    if is_some (lookup name c)
    then (some already_exists, c)
    else (none, insert name (record { name = name; created_at = now; item_count = 0 }) c)

unfoldable pub unregister_table : String → Catalog → Option CatalogError × Catalog
unregister_table name c =
    if not (is_some (lookup name c)) then (some not_found, c) else (none, delete name c)

unfoldable pub update_item_count : String → ℕ → Catalog → Catalog
update_item_count name count c = elim (lookup name c) [
  | none ↦ c
  | some meta ↦
      insert name (record { name = meta.name; created_at = meta.created_at; item_count = count }) c
]

abbrev pub list_tables : Catalog → List TableMeta
list_tables c = map (λ (e : String × TableMeta). e.1) c

module _ (Table : Type 0) where
  pub record TableManager : Type 0 where
    pub catalog : Catalog
    pub tables : GoMap String Table

  -- The result of a method that gives a table.
  pub data TableResult : Type 0 where
    got_table : Table → TableResult
    failed : CatalogError → TableResult

  -- The last step of `GetTable` and `CreateTable`.
  abbrev pub keep_open : String → Option Table → TableManager → TableResult × TableManager
  keep_open name none tm = (failed open_failed, tm)
  keep_open name (some t) tm =
      (got_table t, record { catalog = tm.catalog; tables = insert name t tm.tables })

  unfoldable pub manager_get_table :
      String → Option Table → TableManager → TableResult × TableManager
  manager_get_table name open_table tm = elim (lookup name tm.tables) [
    | some t ↦ (got_table t, tm)
    | none ↦
        if not (is_some (lookup name tm.catalog))
        then (failed not_found, tm)
        else keep_open name open_table tm
  ]

  unfoldable pub manager_create_table :
      String → ℕ → Bool → Option Table → TableManager → TableResult × TableManager
  manager_create_table name now saved open_table tm =
      let (e, c) = register_table name now tm.catalog in
      elim e [
        | some err ↦ (failed err, tm)
        | none ↦
            if not saved
            then (failed save_failed, record { catalog = c; tables = tm.tables })
            else keep_open name open_table (record { catalog = c; tables = tm.tables })
      ]

  -- The error, if any, with the manager. The table is closed first.
  unfoldable pub manager_delete_table :
      String → Bool → TableManager → Option CatalogError × TableManager
  manager_delete_table name saved tm =
      let (e, c) = unregister_table name tm.catalog in
      (
        elim e [ some err ↦ some err | none ↦ if saved then none else some save_failed ],
        record { catalog = c; tables = delete name tm.tables },
      )
