-- ===== src/Catalog/Open.antt =====
-- internal/table/catalog.go: only tables of the catalog are open.
use hedgehog_db_opus.Base.{
  ℕ, ◌≡◌, refl, ap, sym, ◌∙◌, arith, Bool, true, false, Option, none, some, String, Bool-cases,
}
use hedgehog_db_opus.Base.{inl, inr, ==_refl, string_keys, ◌==◌, if◌then◌else◌}
use hedgehog_db_opus.Base.GoMap.{lookup, delete, insert, is_some, lookup-insert, lookup-delete}
use hedgehog_db_opus.Catalog.{
  Catalog, CatalogError, already_exists, TableMeta, TableManager, register_table, unregister_table,
  keep_open,
}
use hedgehog_db_opus.Catalog.{manager_get_table, manager_create_table, manager_delete_table}

none_of_is_some : {V : Type 0} → (o : Option V) → is_some o ≡ false → o ≡ none
none_of_is_some none h = refl
none_of_is_some (some v) h = cc h

-- Whether or not the catalog has the table, it has not afterwards, and the others stay.
lookup-unregister_table :
    (name asked : String) (c : Catalog)
    → lookup asked (unregister_table name c).1 ≡ (if name == asked then none else lookup asked c)
unfolding unregister_table
lookup-unregister_table name asked c = elim (Bool-cases (is_some (lookup name c))) [
  | inl t ↦ rw t (lookup-delete name asked c)
  | inr f ↦ rw f (elim (Bool-cases (name == asked)) [
    | inl e ↦ rw e (
        ap (λ i. lookup i c) (sym ((string_keys.test_iff name asked).0 e))
        ∙ none_of_is_some (lookup name c) f)
    | inr n ↦ rw n refl
  ])
]

register_refused :
    (name : String) (now : ℕ) (c : Catalog)
    → is_some (lookup name c) ≡ true
    → register_table name now c ≡ (some already_exists, c)
unfolding register_table
register_refused name now c t = rw t refl

register_done :
    (name : String) (now : ℕ) (c : Catalog)
    → is_some (lookup name c) ≡ false
    → register_table name now c
      ≡ (none, insert name (record { name = name; created_at = now; item_count = 0 }) c)
unfolding register_table
register_done name now c f = rw f refl

module _ {Table : Type 0} where
  -- Every open table is in the catalog.
  abbrev pub IsOpen : TableManager Table → Type 0
  IsOpen tm =
      (name : String)
      → is_some (lookup name tm.tables) ≡ true
      → is_some (lookup name tm.catalog) ≡ true

  keep_open-IsOpen :
      (name : String) (o : Option Table) (tm : TableManager Table)
      → IsOpen tm
      → is_some (lookup name tm.catalog) ≡ true
      → IsOpen (keep_open Table name o tm).1
  keep_open-IsOpen name none tm w there = w
  keep_open-IsOpen name (some t) tm w there = λ asked h. elim (Bool-cases (name == asked)) [
    | inl e ↦
        ap (λ i. is_some (lookup i tm.catalog)) (sym ((string_keys.test_iff name asked).0 e))
        ∙ there
    | inr n ↦
        let same : lookup asked (insert name t tm.tables) ≡ lookup asked tm.tables =
          ground (arith, n, lookup-insert name asked t tm.tables) in
        w asked (sym (ap is_some same) ∙ h)
  ]

  get_case :
      (name : String) (o found : Option Table) (tm : TableManager Table)
      → IsOpen tm
      → lookup name tm.tables ≡ found
      → IsOpen (manager_get_table Table name o tm).1
  unfolding manager_get_table
  get_case name o (some t) tm w q = rw (manager_get_table, q) w
  get_case name o none tm w q = elim (Bool-cases (is_some (lookup name tm.catalog))) [
    | inl there ↦ rw (manager_get_table, q, there) (keep_open-IsOpen name o tm w there)
    | inr missing ↦ rw (manager_get_table, q, missing) w
  ]

  -- A table that is fetched is opened only if the catalog has it, so that only tables of the catalog
  -- are open.
  pub manager_get_table-IsOpen :
      (name : String) (o : Option Table) (tm : TableManager Table)
      → IsOpen tm
      → IsOpen (manager_get_table Table name o tm).1
  manager_get_table-IsOpen name o tm w = get_case name o (lookup name tm.tables) tm w refl

  -- A table that is deleted is neither open nor in the catalog, and only tables of the catalog are open.
  pub manager_delete_table-IsOpen :
      (name : String) (saved : Bool) (tm : TableManager Table)
      → IsOpen tm
      → IsOpen (manager_delete_table Table name saved tm).1
        × (lookup name (manager_delete_table Table name saved tm).1.tables ≡ none)
        × (lookup name (manager_delete_table Table name saved tm).1.catalog ≡ none)
  unfolding manager_delete_table
  manager_delete_table-IsOpen name saved tm w =
      let gone : lookup name (delete name tm.tables) ≡ none =
        ground (arith, ==_refl name, lookup-delete name name tm.tables) in
      (
        λ asked h. elim (Bool-cases (name == asked)) [
          | inl e ↦
              let none_open : lookup asked (delete name tm.tables) ≡ none =
                ground (arith, e, lookup-delete name asked tm.tables) in
              let bad : false ≡ true = sym (ap is_some none_open) ∙ h in absurd (cc bad)
          | inr n ↦
              let open_before : lookup asked (delete name tm.tables) ≡ lookup asked tm.tables =
                ground (arith, n, lookup-delete name asked tm.tables) in
              let kept : lookup asked (unregister_table name tm.catalog).1
                  ≡ lookup asked tm.catalog =
                ground (arith, n, lookup-unregister_table name asked tm.catalog) in
              ap is_some kept ∙ w asked (sym (ap is_some open_before) ∙ h)
        ],
        gone,
        ground (arith, ==_refl name, lookup-unregister_table name name tm.catalog),
      )

  registered-IsOpen :
      (name : String) (meta : TableMeta) (tm : TableManager Table)
      → IsOpen tm
      → IsOpen (record { catalog = insert name meta tm.catalog; tables = tm.tables })
  registered-IsOpen name meta tm w = λ asked h. elim (Bool-cases (name == asked)) [
    | inl e ↦
        let new : lookup asked (insert name meta tm.catalog) ≡ some meta =
          ground (arith, e, lookup-insert name asked meta tm.catalog) in
        ap is_some new
    | inr n ↦
        let same : lookup asked (insert name meta tm.catalog) ≡ lookup asked tm.catalog =
          ground (arith, n, lookup-insert name asked meta tm.catalog) in
        ap is_some same ∙ w asked h
  ]

  -- A creation keeps only tables of the catalog open, also where the catalog is not saved or the table
  -- does not open.
  manager_create_table-IsOpen :
      (name : String) (now : ℕ) (saved : Bool) (o : Option Table) (tm : TableManager Table)
      → IsOpen tm
      → IsOpen (manager_create_table Table name now saved o tm).1
  unfolding manager_create_table
  manager_create_table-IsOpen name now saved o tm w =
      let meta : TableMeta = record { name = name; created_at = now; item_count = 0 } in
      let c : Catalog = insert name meta tm.catalog in
      let registered = registered-IsOpen name meta tm w in
      let new : lookup name c ≡ some meta =
        ground (arith, ==_refl name, lookup-insert name name meta tm.catalog) in
      let there : is_some (lookup name c) ≡ true = ap is_some new in
      elim (Bool-cases (is_some (lookup name tm.catalog))) [
        | inl t ↦
            let refused : register_table name now tm.catalog ≡ (some already_exists, tm.catalog) =
              register_refused name now tm.catalog t in
            let e0 : (register_table name now tm.catalog).0 ≡ some already_exists =
              ap (λ (r : Option CatalogError × Catalog). r.0) refused in
            rw (manager_create_table, e0) w
        | inr f ↦
            let ok : (register_table name now tm.catalog).0 ≡ none =
              ap (λ (r : Option CatalogError × Catalog). r.0)
                (register_done name now tm.catalog f) in
            let grown : (register_table name now tm.catalog).1 ≡ c =
              ap (λ (r : Option CatalogError × Catalog). r.1)
                (register_done name now tm.catalog f) in
            elim (Bool-cases saved) [
              | inl s ↦
                  rw (manager_create_table, ok, grown, s)
                    (keep_open-IsOpen name o (record { catalog = c; tables = tm.tables }) registered
                      there)
              | inr n ↦ rw (manager_create_table, ok, grown, n) registered
            ]
      ]
