-- ===== src/Storage/Page/Leaf/Cells.antt =====
-- internal/storage/page.go: a leaf cell is read back as it was written, and the searches of a leaf page
-- are searches among its entries.
use hedgehog_db_opus.Base.{ℕ, ◌+◌, ◌^◌, ◌<◌, ◌≡◌, refl, ap, sym, ◌∙◌, arith}
use hedgehog_db_opus.Base.{some, List, ◌++◌, ltb}
use hedgehog_db_opus.Base.{
  length, get_elem?, length-append, get_elem?_inside, get_elem?_outside, Bool-cases, inl, inr,
  nat_keys,
}
use hedgehog_db_opus.Base.GoMap.{lookup}
use hedgehog_db_opus.Base.Bytes.{le_bytes, length-le_bytes}
use hedgehog_db_opus.Base.Buffer.{
  copy_at, copy_at-append, read_at, get_le, Holds, Holds-append, get_le-Holds, read_at-Holds,
}
use hedgehog_db_opus.Storage.Keys.{byte_keys}
use hedgehog_db_opus.Storage.Page.{Page, get_cell_pointer}
use hedgehog_db_opus.Storage.Page.Entries.{IsSorted, lower_bound, found, found-lower_bound}
use hedgehog_db_opus.Storage.Page.Contents.{
  IsFilled, cell_at, cell_count_filled, first_true-lower_bound,
}
use hedgehog_db_opus.Storage.Page.Leaf.{
  leaf_cell_size, write_leaf_cell, read_leaf_cell, get_leaf_key_value_at,
}
use hedgehog_db_opus.Storage.Page.Leaf.{get_leaf_key_at, leaf_search_index, search_leaf}

-- The bytes of a cell.
unfoldable pub leaf_cell : List ℕ → List ℕ → List ℕ
leaf_cell key value = le_bytes 2 (length key) ++ (key ++ (le_bytes 4 (length value) ++ value))

abbrev pub IsEntry : List ℕ × List ℕ → Type 0
IsEntry e = (length e.0 < 2 ^ 16) × (length e.1 < 2 ^ 32)

pub length-leaf_cell :
    (key value : List ℕ) → length (leaf_cell key value) ≡ leaf_cell_size key value
unfolding leaf_cell
length-leaf_cell key value = omega (
  arith,
  length-append (le_bytes 2 (length key)) (key ++ (le_bytes 4 (length value) ++ value)),
  length-append key (le_bytes 4 (length value) ++ value),
  length-append (le_bytes 4 (length value)) value,
  length-le_bytes 2 (length key),
  length-le_bytes 4 (length value),
)

-- The four writes of a cell are one.
pub write_leaf_cell_lem :
    (off : ℕ) (key value : List ℕ) (p : Page)
    → (write_leaf_cell off key value p).1.bytes ≡ copy_at off (leaf_cell key value) p.bytes
unfolding write_leaf_cell leaf_cell
write_leaf_cell_lem off key value p =
    let a = le_bytes 2 (length key) in
    let c = le_bytes 4 (length value) in
    sym (
      copy_at-append off a (key ++ (c ++ value)) p.bytes
      ∙ rw (length-le_bytes 2 (length key))
          (copy_at-append (off + 2) key (c ++ value) (copy_at off a p.bytes))
      ∙ (copy_at-append (off + 2 + length key) c value
            (copy_at (off + 2) key (copy_at off a p.bytes))
          ∙ rw (length-le_bytes 4 (length value)) refl))

-- What stands in a cell: the two lengths, the key and the value.
pub leaf_cell_fields :
    (off : ℕ) (key value : List ℕ) (p : Page)
    → IsEntry (key, value)
    → Holds p.bytes off (leaf_cell key value)
    → (get_le 2 off p.bytes ≡ length key)
      × (get_le 4 (off + 2 + length key) p.bytes ≡ length value)
      × (read_at (off + 2) (length key) p.bytes ≡ key)
      × (read_at (off + 2 + length key + 4) (length value) p.bytes ≡ value)
unfolding leaf_cell
leaf_cell_fields off key value p (hk, hv) h =
    let a = le_bytes 2 (length key) in
    let c = le_bytes 4 (length value) in
    let (at_len, rest) = (Holds-append p.bytes off a (key ++ (c ++ value))).0 h in
    let rest2 : Holds p.bytes (off + 2) (key ++ (c ++ value)) =
      rw (length-le_bytes 2 (length key)) at rest in
    let (at_key, rest3) = (Holds-append p.bytes (off + 2) key (c ++ value)).0 rest2 in
    let (at_vlen, rest4) = (Holds-append p.bytes (off + 2 + length key) c value).0 rest3 in
    let at_value : Holds p.bytes (off + 2 + length key + 4) value =
      rw (length-le_bytes 4 (length value)) at rest4 in
    (
      get_le-Holds 2 (length key) off p.bytes hk at_len,
      get_le-Holds 4 (length value) (off + 2 + length key) p.bytes hv at_vlen,
      read_at-Holds p.bytes (off + 2) key at_key,
      read_at-Holds p.bytes (off + 2 + length key + 4) value at_value,
    )

-- A cell is read back.
read_leaf_cell_lem :
    (off : ℕ) (key value : List ℕ) (p : Page)
    → IsEntry (key, value)
    → Holds p.bytes off (leaf_cell key value)
    → read_leaf_cell off p ≡ (key, value)
unfolding read_leaf_cell
read_leaf_cell_lem off key value p h holds =
    let (klen, vlen, k, v) = leaf_cell_fields off key value p h holds in rw (klen, vlen, k, v) refl

abbrev pub entry_cell : List ℕ × List ℕ → List ℕ
entry_cell e = leaf_cell e.0 e.1

-- A leaf page with these entries, in order of their keys.
pub record IsLeaf (p : Page) (free_end : ℕ) (es : List (List ℕ × List ℕ)) : Type 0 where
  pub filled : IsFilled entry_cell p free_end es
  pub sorted : IsSorted es

module _ {p : Page} {free_end : ℕ} {es : List (List ℕ × List ℕ)} (w : IsLeaf p free_end es) where
  pub get_leaf_key_value_at_lem :
      (i : ℕ) (e : List ℕ × List ℕ) → get_elem? es i ≡ some e → get_leaf_key_value_at i p ≡ e
  unfolding get_leaf_key_value_at
  get_leaf_key_value_at_lem i e q =
      let (content, above, inside) = cell_at w.filled i e q in
      let size = length-leaf_cell e.0 e.1 in
      read_leaf_cell_lem (get_cell_pointer i p) e.0 e.1 p
        (omega (arith, inside, size), omega (arith, inside, size)) content

  pub get_leaf_key_at_lem :
      (i : ℕ) (e : List ℕ × List ℕ) → get_elem? es i ≡ some e → get_leaf_key_at i p ≡ e.0
  unfolding get_leaf_key_at
  get_leaf_key_at_lem i e q = ap (λ (x : List ℕ × List ℕ). x.0) (get_leaf_key_value_at_lem i e q)

  pub leaf_search_index_lem : (key : List ℕ) → leaf_search_index key p ≡ lower_bound key es
  unfolding leaf_search_index
  leaf_search_index_lem key =
      rw (cell_count_filled w.filled)
        (first_true-lower_bound (λ i. get_leaf_key_at i p) key es w.sorted get_leaf_key_at_lem)

  pub search_leaf_lem : (key : List ℕ) → search_leaf key p ≡ lookup key es
  unfolding search_leaf
  search_leaf_lem key = elim (Bool-cases (ltb (lower_bound key es) (length es))) [
    | inl t ↦
        let (e, at) = get_elem?_inside es (lower_bound key es) (ground arith) in
        rw
          (
            leaf_search_index_lem key,
            cell_count_filled w.filled,
            t,
            get_leaf_key_value_at_lem _ e at,
          )
          (sym (ap (found key) at) ∙ found-lower_bound key es w.sorted)
    | inr f ↦
        rw (leaf_search_index_lem key, cell_count_filled w.filled, f)
          (sym (ap (found key) (get_elem?_outside es (lower_bound key es) (ground arith)))
            ∙ found-lower_bound key es w.sorted)
  ]
