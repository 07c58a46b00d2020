-- ===== src/Storage/Page/Leaf/Reached.antt =====
-- internal/storage/page.go: the leaf pages that `InsertLeafCell` and `DeleteLeafCell` make from a new
-- page, and where the reads of their cells fall.
use hedgehog_db_opus.Base.{ℕ, ◌+◌, ◌≤◌, ◌<◌, ◌≡◌, ap, sym, ◌∙◌, inl, inr, arith}
use hedgehog_db_opus.Base.{none, some, List, get_elem?_inside, length}
use hedgehog_db_opus.Base.Buffer.{get_le}
use hedgehog_db_opus.Storage.FileHeader.{page_size}
use hedgehog_db_opus.Storage.Page.{
  Page, new_page, cell_count, cell_ptr_size, free_space_end, get_cell_pointer, pointer_at,
}
use hedgehog_db_opus.Storage.Page.Contents.{
  cell_at, cell_count_filled, free_space_end_filled, room_filled,
}
use hedgehog_db_opus.Storage.Page.Leaf.{
  insert_leaf_cell, search_leaf, delete_leaf_cell, get_leaf_key_value_at,
}
use hedgehog_db_opus.Storage.Page.Leaf.Cells.{
  IsLeaf, length-leaf_cell, leaf_cell_fields, get_leaf_key_value_at_lem,
}
use hedgehog_db_opus.Storage.Page.Leaf.Refinement.{
  new_page-IsLeaf, insert_leaf_cell-IsLeaf, delete_leaf_cell-IsLeaf,
}
use mathlib.Core.Path.{subst}

-- The pages that insertions of new keys and deletions make from a new page.
pub data Reached : Page → Type 0 where
  fresh : (id page_type : ℕ) → Reached (new_page id page_type)
  inserted :
      {p : Page} (key value : List ℕ) (p' : Page)
      → Reached p
      → search_leaf key p ≡ none
      → insert_leaf_cell key value p ≡ some p'
      → Reached p'
  deleted : {p : Page} (key : List ℕ) → Reached p → Reached (delete_leaf_cell key p).1

SomeLeaf : Page → Type 0
SomeLeaf p = (free_end : ℕ) × (es : List (List ℕ × List ℕ)) × IsLeaf p free_end es

inserted-SomeLeaf :
    (key value : List ℕ) (p p' : Page)
    → SomeLeaf p
    → search_leaf key p ≡ none
    → insert_leaf_cell key value p ≡ some p'
    → SomeLeaf p'
unfolding SomeLeaf
inserted-SomeLeaf key value p p' (free_end, es, w) new done =
    elim (insert_leaf_cell-IsLeaf p free_end es key value w new) [
      | inl (small, full) ↦ cc
      | inr (large, (q, made, found, moved, (after, leaf))) ↦
          let same : q ≡ p' = ground (arith, made, done) in subst SomeLeaf same (_, after, leaf)
    ]

Reached-SomeLeaf : {p : Page} → Reached p → SomeLeaf p
unfolding SomeLeaf
Reached-SomeLeaf (fresh id page_type) = (_, _, new_page-IsLeaf id page_type)
Reached-SomeLeaf (inserted {p = p} key value p' r new done) =
    inserted-SomeLeaf key value p p' (Reached-SomeLeaf r) new done
Reached-SomeLeaf (deleted {p = p} key r) =
    let (free_end, es, w) = Reached-SomeLeaf r in
    let (flag, same, (rest, leaf)) = delete_leaf_cell-IsLeaf p free_end es key w in
    (free_end, rest, leaf)

-- In a page that insertions of new keys and deletions made from a new page, no read of a cell leaves
-- the page, and none meets the free space: the pointer of the cell lies in front of the free space,
-- and the cell, with the lengths of key and value that its bytes give, between the end of the
-- free space and the end of the page. The key and the value that are read have these lengths.
pub get_leaf_key_value_at_bounds :
    (p : Page) (i : ℕ)
    → Reached p
    → i < cell_count p
    → (pointer_at i + cell_ptr_size ≤ free_space_end p)
      × (free_space_end p ≤ get_cell_pointer i p)
      × (get_cell_pointer i p
            + 2
            + get_le 2 (get_cell_pointer i p) p.bytes
            + 4
            + get_le 4 (get_cell_pointer i p + 2 + get_le 2 (get_cell_pointer i p) p.bytes) p.bytes
          ≤ page_size)
      × (length (get_leaf_key_value_at i p).0 ≡ get_le 2 (get_cell_pointer i p) p.bytes)
      × (length (get_leaf_key_value_at i p).1
          ≡ get_le 4 (get_cell_pointer i p + 2 + get_le 2 (get_cell_pointer i p) p.bytes) p.bytes)
unfolding SomeLeaf
get_leaf_key_value_at_bounds p i r h =
    let (free_end, es, w) = Reached-SomeLeaf r in
    let (e, at) = get_elem?_inside es i (omega (arith, h, cell_count_filled w.filled)) in
    let (content, above, inside) = cell_at w.filled i e at in
    let size = length-leaf_cell e.0 e.1 in
    let (klen, vlen, k, v) =
      leaf_cell_fields (get_cell_pointer i p) e.0 e.1 p
        (omega (arith, inside, size), omega (arith, inside, size)) content in
    let end = free_space_end_filled w.filled in
    (
      omega (arith, end, h, cell_count_filled w.filled, room_filled w.filled),
      omega (arith, end, above),
      rw (klen, vlen) (omega (arith, inside, size)),
      ap (λ (x : List ℕ × List ℕ). length x.0) (get_leaf_key_value_at_lem w i e at) ∙ sym klen,
      ap (λ (x : List ℕ × List ℕ). length x.1) (get_leaf_key_value_at_lem w i e at)
          ∙ rw klen (sym vlen),
    )
