-- ===== src/Storage/Page/Leaf/Refinement.antt =====
-- internal/storage/page.go: a leaf page implements a map from keys to values. The entries of the page
-- are kept in order, an insertion and a deletion are those of the map, and a search is its lookup.
use hedgehog_db_opus.Base.{ℕ, ◌+◌, ◌-◌, ◌≤◌, ◌<◌, ◌≡◌, refl, ap, sym, ◌∙◌, arith}
use hedgehog_db_opus.Base.{true, false, Option, none, some, List, [], ltb, if◌then◌else◌}
use hedgehog_db_opus.Base.{length, insert_at, remove_at, get_elem?_inside, get_elem?_outside}
use hedgehog_db_opus.Base.{Bool-cases, inl, inr, ◌⊎◌, nat_keys, ◌==◌}
use hedgehog_db_opus.Base.GoMap.{lookup, is_some}
use hedgehog_db_opus.Storage.FileHeader.{page_size}
use hedgehog_db_opus.Storage.Keys.{key_equal, byte_keys, key_equal_iff}
use hedgehog_db_opus.Storage.Page.{Page, new_page, cell_ptr_size, free_space, free_space_end}
use hedgehog_db_opus.Storage.Page.{pointer_at, place_cell, drop_cell}
use hedgehog_db_opus.Storage.Page.Entries.{lower_bound, lower_bound-le, found, found-lower_bound}
use hedgehog_db_opus.Storage.Page.Entries.{
  insert_at-IsSorted, remove_at-IsSorted, lookup-insert_at, lookup-remove_at,
}
use hedgehog_db_opus.Storage.Page.Contents.{cell_count_filled, free_space_filled}
use hedgehog_db_opus.Storage.Page.Contents.{
  new_page-IsFilled, free_space_end_filled, place_cell-IsFilled, drop_cell-IsFilled,
}
use hedgehog_db_opus.Storage.Page.Leaf.{leaf_cell_size, write_leaf_cell}
use hedgehog_db_opus.Storage.Page.Leaf.{insert_leaf_cell, search_leaf, delete_leaf_cell}
use hedgehog_db_opus.Storage.Page.Leaf.Cells.{
  IsLeaf, entry_cell, length-leaf_cell, write_leaf_cell_lem,
}
use hedgehog_db_opus.Storage.Page.Leaf.Cells.{
  leaf_search_index_lem, get_leaf_key_at_lem, search_leaf_lem,
}

module _ {p : Page} {free_end : ℕ} {es : List (List ℕ × List ℕ)} (w : IsLeaf p free_end es) where
  -- The page that an insertion gives when there is room.
  pub place_cell-IsLeaf :
      (key value : List ℕ)
      → lookup key es ≡ none
      → pointer_at (length es + 1) + leaf_cell_size key value ≤ free_end
      → IsLeaf
          (place_cell
            (lower_bound key es)
            (length es)
            (free_end - leaf_cell_size key value)
            (write_leaf_cell (free_end - leaf_cell_size key value) key value p).1)
          (free_end - leaf_cell_size key value)
          (insert_at (lower_bound key es) (key, value) es)
  place_cell-IsLeaf key value new space =
      let size = length-leaf_cell key value in
      let new_end = free_end - leaf_cell_size key value in
      record {
        filled =
            place_cell-IsFilled w.filled (write_leaf_cell new_end key value p).1
              (lower_bound key es) new_end (key, value) (lower_bound-le key es)
              (write_leaf_cell_lem new_end key value p) (omega (arith, size, space))
              (omega (arith, space));
        sorted = insert_at-IsSorted key value es w.sorted new;
      }

  insert_leaf_cell_full :
      (key value : List ℕ)
      → free_end < pointer_at (length es + 1) + leaf_cell_size key value
      → insert_leaf_cell key value p ≡ none
  unfolding insert_leaf_cell
  insert_leaf_cell_full key value full =
      let small : ltb (free_space p) (leaf_cell_size key value + cell_ptr_size) ≡ true =
        ground (arith, free_space_filled w.filled, full) in
      rw small refl

  pub insert_leaf_cell_room :
      (key value : List ℕ)
      → pointer_at (length es + 1) + leaf_cell_size key value ≤ free_end
      → insert_leaf_cell key value p
        ≡ some (
            place_cell
              (lower_bound key es)
              (length es)
              (free_end - leaf_cell_size key value)
              (write_leaf_cell (free_end - leaf_cell_size key value) key value p).1)
  unfolding insert_leaf_cell
  insert_leaf_cell_room key value room =
      let large : ltb (free_space p) (leaf_cell_size key value + cell_ptr_size) ≡ false =
        ground (arith, free_space_filled w.filled, room) in
      rw
        (
          large,
          leaf_search_index_lem w key,
          cell_count_filled w.filled,
          free_space_end_filled w.filled,
        )
        refl

  delete_leaf_cell_missing :
      (key : List ℕ) → lookup key es ≡ none → delete_leaf_cell key p ≡ (false, p)
  unfolding delete_leaf_cell
  delete_leaf_cell_missing key missing = elim (Bool-cases (ltb (lower_bound key es) (length es))) [
    | inl t ↦
        let (e, at) = get_elem?_inside es (lower_bound key es) (ground arith) in
        let same : found key (some e) ≡ none =
          sym (ap (found key) at) ∙ found-lower_bound key es w.sorted ∙ missing in
        let other : key_equal e.0 key ≡ false = ground (arith, same) in
        rw
          (
            leaf_search_index_lem w key,
            cell_count_filled w.filled,
            t,
            get_leaf_key_at_lem w _ e at,
            other,
          )
          refl
    | inr f ↦ rw (leaf_search_index_lem w key, cell_count_filled w.filled, f) refl
  ]

  delete_leaf_cell_found :
      (key value : List ℕ)
      → lookup key es ≡ some value
      → (lower_bound key es < length es)
        × (delete_leaf_cell key p ≡ (true, drop_cell (lower_bound key es) (length es) p))
  unfolding delete_leaf_cell
  delete_leaf_cell_found key value there =
      elim (Bool-cases (ltb (lower_bound key es) (length es))) [
        | inl t ↦
            let (e, at) = get_elem?_inside es (lower_bound key es) (ground arith) in
            let same : found key (some e) ≡ some value =
              sym (ap (found key) at) ∙ found-lower_bound key es w.sorted ∙ there in
            let equal : key_equal e.0 key ≡ true = ground (arith, same) in
            (
              ground arith,
              rw
                  (
                    leaf_search_index_lem w key,
                    cell_count_filled w.filled,
                    t,
                    get_leaf_key_at_lem w _ e at,
                    equal,
                  )
                  refl,
            )
        | inr f ↦
            let none_there : none ≡ some value =
              sym (ap (found key) (get_elem?_outside es (lower_bound key es) (ground arith)))
              ∙ found-lower_bound key es w.sorted
              ∙ there in
            absurd (cc none_there)
      ]

  -- The entries after a deletion.
  rest_of : (key : List ℕ) (found_value : Option (List ℕ)) → List (List ℕ × List ℕ)
  rest_of key none = es
  rest_of key (some v) = remove_at (lower_bound key es) es

  delete_rest :
      (key : List ℕ) (found_value : Option (List ℕ))
      → lookup key es ≡ found_value
      → IsLeaf (delete_leaf_cell key p).1 free_end (rest_of key found_value)
        × ((delete_leaf_cell key p).0 ≡ is_some found_value)
        × ((asked : List ℕ)
            → lookup asked (rest_of key found_value)
              ≡ (if key == asked then none else lookup asked es))
  unfolding rest_of
  delete_rest key none q =
      let gone = delete_leaf_cell_missing key q in
      rw gone (w, refl, λ asked. ground (arith, key_equal_iff key asked, q))
  delete_rest key (some v) q =
      let (inside, done) = delete_leaf_cell_found key v q in
      rw done (
        record {
          filled = drop_cell-IsFilled w.filled (lower_bound key es) inside;
          sorted = remove_at-IsSorted (lower_bound key es) es w.sorted;
        },
        refl,
        λ asked. lookup-remove_at key asked v es w.sorted q,
      )

-- An insertion of a key that is not in a leaf page either fails with ErrPageFull, when the free space is
-- smaller than the cell with its pointer, or gives a leaf page. There every search finds the value at
-- the key and elsewhere what it found before, and the free space ends at the new cell.
pub insert_leaf_cell-IsLeaf :
    (p : Page) (free_end : ℕ) (es : List (List ℕ × List ℕ)) (key value : List ℕ)
    → IsLeaf p free_end es
    → search_leaf key p ≡ none
    → ((free_space p < leaf_cell_size key value + cell_ptr_size)
        × (insert_leaf_cell key value p ≡ none))
      ⊎ ((leaf_cell_size key value + cell_ptr_size ≤ free_space p)
          × ((p' : Page) × (insert_leaf_cell key value p ≡ some p')
              × ((asked : List ℕ)
                  → search_leaf asked p'
                    ≡ (if key == asked then some value else search_leaf asked p))
              × (free_space_end p' ≡ free_space_end p - leaf_cell_size key value)
              × ((after : List (List ℕ × List ℕ)) × IsLeaf p'
                    (free_end - leaf_cell_size key value)
                    after)))
insert_leaf_cell-IsLeaf p free_end es key value w new =
    let space = free_space_filled w.filled in
    elim (Bool-cases (ltb (free_space p) (leaf_cell_size key value + cell_ptr_size))) [
      | inl t ↦
          let small : free_space p < leaf_cell_size key value + cell_ptr_size = ground arith in
          inl (small, insert_leaf_cell_full w key value (omega (arith, small, space)))
      | inr f ↦
          let large : leaf_cell_size key value + cell_ptr_size ≤ free_space p = ground arith in
          let room : pointer_at (length es + 1) + leaf_cell_size key value ≤ free_end =
            omega (arith, large, space) in
          let leaf = place_cell-IsLeaf w key value (sym (search_leaf_lem w key) ∙ new) room in
          inr (
            large,
            (
              _,
              insert_leaf_cell_room w key value room,
              λ asked.
                  search_leaf_lem leaf asked
                  ∙ lookup-insert_at key asked value es
                  ∙ ap (λ found. if key == asked then some value else found)
                      (sym (search_leaf_lem w asked)),
              free_space_end_filled leaf.filled
                  ∙ ap (λ n. n - leaf_cell_size key value) (sym (free_space_end_filled w.filled)),
              (_, leaf),
            ),
          )
    ]

-- A deletion from a leaf page reports whether a search finds the key, and the page is a leaf page in
-- which a search finds nothing at the key and elsewhere what it found before.
pub delete_leaf_cell-IsLeaf :
    (p : Page) (free_end : ℕ) (es : List (List ℕ × List ℕ)) (key : List ℕ)
    → IsLeaf p free_end es
    → ((delete_leaf_cell key p).0 ≡ is_some (search_leaf key p))
      × ((asked : List ℕ)
          → search_leaf asked (delete_leaf_cell key p).1
            ≡ (if key == asked then none else search_leaf asked p))
      × ((rest : List (List ℕ × List ℕ)) × IsLeaf (delete_leaf_cell key p).1 free_end rest)
delete_leaf_cell-IsLeaf p free_end es key w =
    let (leaf, flag, same) = delete_rest w key (lookup key es) refl in
    (
      flag ∙ ap is_some (sym (search_leaf_lem w key)),
      λ asked.
          search_leaf_lem leaf asked
          ∙ same asked
          ∙ ap (λ found. if key == asked then none else found) (sym (search_leaf_lem w asked)),
      (rest_of w key (lookup key es), leaf),
    )

-- A new page is a leaf page with no entry.
pub new_page-IsLeaf : (id page_type : ℕ) → IsLeaf (new_page id page_type) page_size []
new_page-IsLeaf id page_type = record {
  filled = new_page-IsFilled entry_cell id page_type;
  sorted = tt;
}
