-- ===== src/Tests/CatalogTests.antt =====
-- internal/table/catalog.go with numbers for tables.
use hedgehog_db_opus.Base.{ℕ, arith, ◌≡◌, true, none, [], ◌∷◌, string_keys}
use hedgehog_db_opus.Base.GoMap.{lookup}
use hedgehog_db_opus.Catalog.{TableManager, manager_delete_table}
use hedgehog_db_opus.Catalog.Open.{IsOpen, manager_delete_table-IsOpen}

abbrev one_open : TableManager ℕ
one_open = record {
  catalog = ("users", record { name = "users"; created_at = 5; item_count = 0 }) ∷ [];
  tables = ("users", 1) ∷ [];
}

one_open-IsOpen : IsOpen one_open
unfolding lookup
one_open-IsOpen = λ name h. ground (arith, h)

manager_delete_table-IsOpen_example :
    IsOpen (manager_delete_table ℕ "users" true one_open).1
    × (lookup "users" (manager_delete_table ℕ "users" true one_open).1.tables ≡ none)
    × (lookup "users" (manager_delete_table ℕ "users" true one_open).1.catalog ≡ none)
manager_delete_table-IsOpen_example =
    manager_delete_table-IsOpen "users" true one_open one_open-IsOpen
