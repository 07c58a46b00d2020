-- ===== src/Tests/PageTests.antt =====
-- internal/storage/page.go: a leaf page and an internal page with one entry each, and an overflow page.
use hedgehog_db_opus.Base.{ℕ, ◌+◌, ◌-◌, ◌≤◌, ◌<◌, ◌≡◌, refl, arith, ◌⊎◌}
use hedgehog_db_opus.Base.{◌&&◌, none, some, List, [], ◌∷◌, take, nat_keys}
use hedgehog_db_opus.Base.{◌==◌, if◌then◌else◌, insert_at, length}
use hedgehog_db_opus.Base.GoMap.{lookup, is_some}
use hedgehog_db_opus.Storage.FileHeader.{page_size}
use hedgehog_db_opus.Storage.Keys.{byte_keys, key_less, compare_keys}
use hedgehog_db_opus.Storage.Page.{
  Page, new_page, page_type_leaf, page_type_internal, place_cell, cell_count,
}
use hedgehog_db_opus.Storage.Page.{
  free_space, free_space_end, cell_ptr_size, get_cell_pointer, pointer_at,
}
use hedgehog_db_opus.Storage.Page.Leaf.{
  write_leaf_cell, leaf_cell_size, insert_leaf_cell, search_leaf,
}
use hedgehog_db_opus.Storage.Page.Leaf.{delete_leaf_cell, get_leaf_key_value_at}
use hedgehog_db_opus.Storage.Page.Leaf.Cells.{IsLeaf, search_leaf_lem}
use hedgehog_db_opus.Storage.Page.Leaf.Refinement.{
  new_page-IsLeaf, place_cell-IsLeaf, insert_leaf_cell-IsLeaf,
}
use hedgehog_db_opus.Storage.Page.Leaf.Refinement.{delete_leaf_cell-IsLeaf, insert_leaf_cell_room}
use hedgehog_db_opus.Storage.Page.Entries.{lower_bound}
use hedgehog_db_opus.Storage.Page.Contents.{cell_count_filled}
use hedgehog_db_opus.Storage.Page.Internal.{
  write_internal_cell, internal_cell_size, insert_internal_cell, find_child,
}
use hedgehog_db_opus.Storage.Page.Internal.Refinement.{
  IsInternal, new_page-IsInternal, place_cell-IsInternal,
}
use hedgehog_db_opus.Storage.Page.Internal.Refinement.{insert_internal_cell-IsInternal, upper_bound}
use hedgehog_db_opus.Storage.Page.Overflow.{
  write_overflow_page, read_overflow_page, overflow_data_size,
}
use hedgehog_db_opus.Storage.Page.Overflow.{read_overflow_page-write_overflow_page}
use hedgehog_db_opus.Storage.Page.Leaf.Reached.{
  Reached, fresh, inserted, get_leaf_key_value_at_bounds,
}
use hedgehog_db_opus.Base.Buffer.{get_le}

abbrev key_b : List ℕ
key_b = 98 ∷ []

abbrev value_one : List ℕ
value_one = 1 ∷ 2 ∷ []

-- A leaf page with the entry of "b".
abbrev one_leaf : Page
one_leaf =
    place_cell (lower_bound {V = List ℕ} key_b []) 0 (page_size - leaf_cell_size key_b value_one)
      (write_leaf_cell (page_size - leaf_cell_size key_b value_one) key_b value_one
        (new_page 1 page_type_leaf)).1

one_leaf-IsLeaf :
    IsLeaf one_leaf (page_size - leaf_cell_size key_b value_one) ((key_b, value_one) ∷ [])
unfolding lookup lower_bound
one_leaf-IsLeaf =
    place_cell-IsLeaf (new_page-IsLeaf 1 page_type_leaf) key_b value_one refl (omega arith)

absent_a : search_leaf (97 ∷ []) one_leaf ≡ none
unfolding lookup compare_keys
absent_a = search_leaf_lem one_leaf-IsLeaf (97 ∷ [])

insert_leaf_cell-IsLeaf_example :
    ((free_space one_leaf < leaf_cell_size (97 ∷ []) (3 ∷ []) + cell_ptr_size)
      × (insert_leaf_cell (97 ∷ []) (3 ∷ []) one_leaf ≡ none))
    ⊎ ((leaf_cell_size (97 ∷ []) (3 ∷ []) + cell_ptr_size ≤ free_space one_leaf)
        × ((p' : Page) × (insert_leaf_cell (97 ∷ []) (3 ∷ []) one_leaf ≡ some p')
            × ((asked : List ℕ)
                → search_leaf asked p'
                  ≡ (if (97 ∷ []) == asked then some (3 ∷ []) else search_leaf asked one_leaf))
            × (free_space_end p' ≡ free_space_end one_leaf - leaf_cell_size (97 ∷ []) (3 ∷ []))
            × ((after : List (List ℕ × List ℕ)) × IsLeaf p'
                  (page_size - leaf_cell_size key_b value_one - leaf_cell_size (97 ∷ []) (3 ∷ []))
                  after)))
insert_leaf_cell-IsLeaf_example =
    insert_leaf_cell-IsLeaf one_leaf (page_size - leaf_cell_size key_b value_one)
      ((key_b, value_one) ∷ []) (97 ∷ []) (3 ∷ []) one_leaf-IsLeaf absent_a

delete_leaf_cell-IsLeaf_example :
    ((delete_leaf_cell key_b one_leaf).0 ≡ is_some (search_leaf key_b one_leaf))
    × ((asked : List ℕ)
        → search_leaf asked (delete_leaf_cell key_b one_leaf).1
          ≡ (if key_b == asked then none else search_leaf asked one_leaf))
    × ((rest : List (List ℕ × List ℕ)) × IsLeaf
          (delete_leaf_cell key_b one_leaf).1
          (page_size - leaf_cell_size key_b value_one)
          rest)
delete_leaf_cell-IsLeaf_example =
    delete_leaf_cell-IsLeaf one_leaf (page_size - leaf_cell_size key_b value_one)
      ((key_b, value_one) ∷ []) key_b one_leaf-IsLeaf

one_cell : 0 < cell_count one_leaf
one_cell = omega (arith, cell_count_filled one_leaf-IsLeaf.filled)

abbrev empty_leaf : Page
empty_leaf = new_page 1 page_type_leaf

empty_leaf-IsLeaf : IsLeaf empty_leaf page_size []
empty_leaf-IsLeaf = new_page-IsLeaf 1 page_type_leaf

no_key_b : search_leaf key_b empty_leaf ≡ none
unfolding lookup
no_key_b = search_leaf_lem empty_leaf-IsLeaf key_b

inserted_b : insert_leaf_cell key_b value_one empty_leaf ≡ some one_leaf
inserted_b = insert_leaf_cell_room empty_leaf-IsLeaf key_b value_one (omega arith)

one_leaf-Reached : Reached one_leaf
one_leaf-Reached = inserted key_b value_one one_leaf (fresh 1 page_type_leaf) no_key_b inserted_b

get_leaf_key_value_at_bounds_example :
    (pointer_at 0 + cell_ptr_size ≤ free_space_end one_leaf)
    × (free_space_end one_leaf ≤ get_cell_pointer 0 one_leaf)
    × (get_cell_pointer 0 one_leaf
          + 2
          + get_le 2 (get_cell_pointer 0 one_leaf) one_leaf.bytes
          + 4
          + get_le 4
              (get_cell_pointer 0 one_leaf
                + 2
                + get_le 2 (get_cell_pointer 0 one_leaf) one_leaf.bytes)
              one_leaf.bytes
        ≤ page_size)
    × (length (get_leaf_key_value_at 0 one_leaf).0
        ≡ get_le 2 (get_cell_pointer 0 one_leaf) one_leaf.bytes)
    × (length (get_leaf_key_value_at 0 one_leaf).1
        ≡ get_le 4
            (get_cell_pointer 0 one_leaf
              + 2
              + get_le 2 (get_cell_pointer 0 one_leaf) one_leaf.bytes)
            one_leaf.bytes)
get_leaf_key_value_at_bounds_example =
    get_leaf_key_value_at_bounds one_leaf 0 one_leaf-Reached one_cell

abbrev child_entries : List (List ℕ × ℕ)
child_entries = (key_b, 7) ∷ []

-- An internal page with the keys below "b" on page 7.
abbrev one_internal : Page
one_internal =
    place_cell (lower_bound {V = ℕ} key_b []) 0 (page_size - internal_cell_size key_b)
      (write_internal_cell (page_size - internal_cell_size key_b) 7 key_b
        (new_page 2 page_type_internal)).1

one_internal-IsInternal :
    IsInternal one_internal (page_size - internal_cell_size key_b) child_entries
unfolding lookup lower_bound
one_internal-IsInternal =
    place_cell-IsInternal (new_page-IsInternal 2 page_type_internal) 7 key_b (omega arith) refl
      (omega arith)

absent_child : lookup (97 ∷ []) child_entries ≡ none
unfolding lookup compare_keys
absent_child = refl

insert_internal_cell-IsInternal_example :
    ((free_space one_internal < internal_cell_size (97 ∷ []) + cell_ptr_size)
      × (insert_internal_cell 8 (97 ∷ []) one_internal ≡ none))
    ⊎ ((internal_cell_size (97 ∷ []) + cell_ptr_size ≤ free_space one_internal)
        × ((p' : Page) × (insert_internal_cell 8 (97 ∷ []) one_internal ≡ some p')
            × ((asked : List ℕ)
                → find_child asked p' ≡ (
                    if key_less asked (97 ∷ [])
                      && (upper_bound asked child_entries == lower_bound (97 ∷ []) child_entries)
                    then 8
                    else find_child asked one_internal))
            × IsInternal p'
                (page_size - internal_cell_size key_b - internal_cell_size (97 ∷ []))
                (insert_at (lower_bound (97 ∷ []) child_entries) ((97 ∷ []), 8) child_entries)))
insert_internal_cell-IsInternal_example =
    insert_internal_cell-IsInternal one_internal (page_size - internal_cell_size key_b)
      child_entries 8 (97 ∷ []) one_internal-IsInternal (omega arith) absent_child

read_overflow_page-write_overflow_page_example :
    read_overflow_page (write_overflow_page value_one 9) ≡ (take overflow_data_size value_one, 9)
read_overflow_page-write_overflow_page_example =
    read_overflow_page-write_overflow_page value_one 9 (omega arith)
