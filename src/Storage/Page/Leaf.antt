-- ===== src/Storage/Page/Leaf.antt =====
-- internal/storage/page.go: the cells of leaf pages. A binary search reads the keys in place.
-- `none` stands for ErrPageFull and for a key that is not found. A slice of the page that leaves it
-- is a panic in Go and is cut short here; Reached is about where the reads fall.
pub mod Cells
pub mod Refinement
pub mod Reached
use hedgehog_db_opus.Base.{
  ℕ, zero, suc, ◌+◌, ◌-◌, ◌*◌, Bool, true, false, not, ◌||◌, Option, none, some,
}
use hedgehog_db_opus.Base.{List, [], ◌∷◌, ◌++◌, length, nat_keys, ltb, if◌then◌else◌}
use hedgehog_db_opus.Base.Search.{first_true}
use hedgehog_db_opus.Base.Bytes.{le_bytes}
use hedgehog_db_opus.Base.Buffer.{read_at, copy_at, get_le, put_le}
use hedgehog_db_opus.Storage.Keys.{key_less, key_equal}
use hedgehog_db_opus.Storage.Page.{Page, cell_count, cell_ptr_size, free_space, free_space_end}
use hedgehog_db_opus.Storage.Page.{get_cell_pointer, place_cell, drop_cell}

abbrev pub leaf_cell_size : List ℕ → List ℕ → ℕ
leaf_cell_size key value = 2 + length key + 4 + length value

-- The bytes written, with the page.
unfoldable pub write_leaf_cell : ℕ → List ℕ → List ℕ → Page → ℕ × Page
write_leaf_cell offset key value p =
    let d1 = put_le 2 offset (length key) p.bytes in
    let d2 = copy_at (offset + 2) key d1 in
    let d3 = put_le 4 (offset + 2 + length key) (length value) d2 in
    let d4 = copy_at (offset + 2 + length key + 4) value d3 in
    (
      offset + 2 + length key + 4 + length value - offset,
      record { id = p.id; bytes = d4; dirty = true },
    )

unfoldable pub read_leaf_cell : ℕ → Page → List ℕ × List ℕ
read_leaf_cell offset p =
    let key_len = get_le 2 offset p.bytes in
    let value_len = get_le 4 (offset + 2 + key_len) p.bytes in
    (read_at (offset + 2) key_len p.bytes, read_at (offset + 2 + key_len + 4) value_len p.bytes)

-- `GetLeafKeyValueAt` and `GetLeafKeyAt`.
unfoldable pub get_leaf_key_value_at : ℕ → Page → List ℕ × List ℕ
get_leaf_key_value_at idx p = read_leaf_cell (get_cell_pointer idx p) p

unfoldable pub get_leaf_key_at : ℕ → Page → List ℕ
get_leaf_key_at idx p = (get_leaf_key_value_at idx p).0

unfoldable pub leaf_search_index : List ℕ → Page → ℕ
leaf_search_index key p =
    first_true (cell_count p) (λ mid. not (key_less (get_leaf_key_at mid p) key))

unfoldable pub insert_leaf_cell : List ℕ → List ℕ → Page → Option Page
insert_leaf_cell key value p =
    let cell_size = leaf_cell_size key value in
    let new_end = free_space_end p - cell_size in
    if ltb (free_space p) (cell_size + cell_ptr_size)
    then none
    else some (
        place_cell (leaf_search_index key p) (cell_count p) new_end
          (write_leaf_cell new_end key value p).1)

unfoldable pub search_leaf : List ℕ → Page → Option (List ℕ)
search_leaf key p =
    let idx = leaf_search_index key p in
    if ltb idx (cell_count p)
    then (let (k, v) = get_leaf_key_value_at idx p in if key_equal k key then some v else none)
    else none

-- Whether the key was found, with the page.
unfoldable pub delete_leaf_cell : List ℕ → Page → Bool × Page
delete_leaf_cell key p =
    let idx = leaf_search_index key p in
    if not (ltb idx (cell_count p))
    then (false, p)
    else if not (key_equal (get_leaf_key_at idx p) key)
    then (false, p)
    else (true, drop_cell idx (cell_count p) p)
