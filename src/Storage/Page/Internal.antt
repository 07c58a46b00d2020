-- ===== src/Storage/Page/Internal.antt =====
-- internal/storage/page.go: the cells of internal pages, each a key with the page of the keys below
-- it. `none` stands for ErrPageFull.
pub mod Refinement
use hedgehog_db_opus.Base.{ℕ, zero, suc, ◌+◌, ◌-◌, ◌*◌, Bool, true, false, not, Option, none, some}
use hedgehog_db_opus.Base.{List, [], ◌∷◌, length, ltb, if◌then◌else◌}
use hedgehog_db_opus.Base.Search.{first_true}
use hedgehog_db_opus.Base.Buffer.{read_at, copy_at, get_le, put_le}
use hedgehog_db_opus.Storage.Keys.{key_less}
use hedgehog_db_opus.Storage.Page.{Page, cell_count, cell_ptr_size, free_space, free_space_end}
use hedgehog_db_opus.Storage.Page.{get_cell_pointer, place_cell, right_pointer}

abbrev pub internal_cell_size : List ℕ → ℕ
internal_cell_size key = 4 + 2 + length key

-- The bytes written, with the page.
unfoldable pub write_internal_cell : ℕ → ℕ → List ℕ → Page → ℕ × Page
write_internal_cell offset child_page_id key p =
    let d1 = put_le 4 offset child_page_id p.bytes in
    let d2 = put_le 2 (offset + 4) (length key) d1 in
    let d3 = copy_at (offset + 4 + 2) key d2 in
    (offset + 4 + 2 + length key - offset, record { id = p.id; bytes = d3; dirty = true })

unfoldable pub read_internal_cell : ℕ → Page → ℕ × List ℕ
read_internal_cell offset p =
    let key_len = get_le 2 (offset + 4) p.bytes in
    (get_le 4 offset p.bytes, read_at (offset + 4 + 2) key_len p.bytes)

-- `GetInternalCellAt` and `GetInternalKeyAt`.
unfoldable pub get_internal_cell_at : ℕ → Page → ℕ × List ℕ
get_internal_cell_at idx p = read_internal_cell (get_cell_pointer idx p) p

unfoldable pub get_internal_key_at : ℕ → Page → List ℕ
get_internal_key_at idx p = (get_internal_cell_at idx p).1

unfoldable pub internal_search_index : List ℕ → Page → ℕ
internal_search_index key p =
    first_true (cell_count p) (λ mid. not (key_less (get_internal_key_at mid p) key))

unfoldable pub insert_internal_cell : ℕ → List ℕ → Page → Option Page
insert_internal_cell child_page_id key p =
    let cell_size = internal_cell_size key in
    let new_end = free_space_end p - cell_size in
    if ltb (free_space p) (cell_size + cell_ptr_size)
    then none
    else some (
        place_cell (internal_search_index key p) (cell_count p) new_end
          (write_internal_cell new_end child_page_id key p).1)

-- The loop of `FindChild`, with `rounds` of it left from the index `i` up.
unfoldable pub find_child_from : ℕ → ℕ → List ℕ → Page → ℕ
find_child_from zero i key p = right_pointer p
find_child_from (suc rounds) i key p =
    let (child, cell_key) = get_internal_cell_at i p in
    let rest = find_child_from rounds (i + 1) key p in if key_less key cell_key then child else rest

unfoldable pub find_child : List ℕ → Page → ℕ
find_child key p = find_child_from (cell_count p) 0 key p
