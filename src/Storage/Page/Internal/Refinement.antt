-- ===== src/Storage/Page/Internal/Refinement.antt =====
-- internal/storage/page.go: an internal page routes a key to a child. Its entries are kept in order by
-- insertions, and `FindChild` takes the child of the first entry whose key is above the one asked for.
use hedgehog_db_opus.Base.{
  ℕ, zero, suc, ◌+◌, ◌-◌, ◌^◌, ◌≤◌, ◌<◌, ◌≡◌, refl, ap, sym, ◌∙◌, arith, ◌⊎◌,
}
use hedgehog_db_opus.Base.{◌&&◌, none, some, List, [], ◌∷◌, ◌++◌, ltb, if◌then◌else◌}
use hedgehog_db_opus.Base.{
  length, get_elem?, insert_at, get_elem?_inside, length-append, drop, drop_at, drop_all, All,
}
use hedgehog_db_opus.Base.{Bool-cases, inl, inr, nat_keys, ◌==◌}
use hedgehog_db_opus.Base.GoMap.{lookup}
use hedgehog_db_opus.Base.Bytes.{le_bytes, length-le_bytes}
use hedgehog_db_opus.Base.Buffer.{
  copy_at, read_at, get_le, Holds, Holds-append, copy_at-append, get_le-Holds, read_at-Holds,
}
use hedgehog_db_opus.Storage.FileHeader.{page_size}
use hedgehog_db_opus.Storage.Keys.{
  key_less, byte_keys, key_less_trans, key_less_flip, key_equal_iff,
}
use hedgehog_db_opus.Storage.Page.{Page, new_page, cell_ptr_size, free_space}
use hedgehog_db_opus.Storage.Page.{get_cell_pointer, pointer_at, place_cell, right_pointer}
use hedgehog_db_opus.Storage.Page.Entries.{
  All_at, All-insert_at, IsSorted, lower_bound, lower_bound-le, insert_at-IsSorted,
}
use hedgehog_db_opus.Storage.Page.Contents.{IsFilled, cell_at, cell_count_filled, free_space_filled}
use hedgehog_db_opus.Storage.Page.Contents.{
  new_page-IsFilled, free_space_end_filled, right_pointer-place_cell, place_cell-IsFilled,
  first_true-lower_bound,
}
use hedgehog_db_opus.Storage.Page.Internal.{
  internal_cell_size, write_internal_cell, read_internal_cell,
}
use hedgehog_db_opus.Storage.Page.Internal.{
  get_internal_cell_at, get_internal_key_at, internal_search_index,
}
use hedgehog_db_opus.Storage.Page.Internal.{insert_internal_cell, find_child_from, find_child}

-- The bytes of a cell.
unfoldable pub internal_cell : List ℕ × ℕ → List ℕ
internal_cell e = le_bytes 4 e.1 ++ (le_bytes 2 (length e.0) ++ e.0)

length-internal_cell : (e : List ℕ × ℕ) → length (internal_cell e) ≡ internal_cell_size e.0
unfolding internal_cell
length-internal_cell (key, child) = omega (
  arith,
  length-append (le_bytes 4 child) (le_bytes 2 (length key) ++ key),
  length-append (le_bytes 2 (length key)) key,
  length-le_bytes 4 child,
  length-le_bytes 2 (length key),
)

write_internal_cell_lem :
    (off child : ℕ) (key : List ℕ) (p : Page)
    → (write_internal_cell off child key p).1.bytes
      ≡ copy_at off (internal_cell (key, child)) p.bytes
unfolding write_internal_cell internal_cell
write_internal_cell_lem off child key p =
    let a = le_bytes 4 child in
    let c = le_bytes 2 (length key) in
    sym (
      copy_at-append off a (c ++ key) p.bytes
      ∙ rw (length-le_bytes 4 child) (
          copy_at-append (off + 4) c key (copy_at off a p.bytes)
          ∙ rw (length-le_bytes 2 (length key)) refl))

read_internal_cell_lem :
    (off child : ℕ) (key : List ℕ) (p : Page)
    → child < 2 ^ 32
    → length key < 2 ^ 16
    → Holds p.bytes off (internal_cell (key, child))
    → read_internal_cell off p ≡ (child, key)
unfolding read_internal_cell internal_cell
read_internal_cell_lem off child key p hc hk h =
    let a = le_bytes 4 child in
    let c = le_bytes 2 (length key) in
    let (at_child, rest) = (Holds-append p.bytes off a (c ++ key)).0 h in
    let rest2 : Holds p.bytes (off + 4) (c ++ key) = rw (length-le_bytes 4 child) at rest in
    let (at_len, rest3) = (Holds-append p.bytes (off + 4) c key).0 rest2 in
    let at_key : Holds p.bytes (off + 4 + 2) key = rw (length-le_bytes 2 (length key)) at rest3 in
    let child_read : get_le 4 off p.bytes ≡ child = get_le-Holds 4 child off p.bytes hc at_child in
    let len_read : get_le 2 (off + 4) p.bytes ≡ length key =
      get_le-Holds 2 (length key) (off + 4) p.bytes hk at_len in
    let key_read : read_at (off + 4 + 2) (length key) p.bytes ≡ key =
      read_at-Holds p.bytes (off + 4 + 2) key at_key in
    rw (child_read, len_read, key_read) refl

-- An internal page with these entries, each a key and a child, in order of the keys.
pub record IsInternal (p : Page) (free_end : ℕ) (es : List (List ℕ × ℕ)) : Type 0 where
  pub filled : IsFilled internal_cell p free_end es
  pub sorted : IsSorted es
  pub children : All (λ (e : List ℕ × ℕ). e.1 < 2 ^ 32) es

-- The child of the first entry whose key is above the key, or the rightmost one.
unfoldable pub route : List ℕ → List (List ℕ × ℕ) → ℕ → ℕ
route key [] right = right
route key ((k, child) ∷ es) right =
    let rest = route key es right in if key_less key k then child else rest

module _ {p : Page} {free_end : ℕ} {es : List (List ℕ × ℕ)} (w : IsInternal p free_end es) where
  get_internal_cell_at_lem :
      (i : ℕ) (e : List ℕ × ℕ) → get_elem? es i ≡ some e → get_internal_cell_at i p ≡ (e.1, e.0)
  unfolding get_internal_cell_at
  get_internal_cell_at_lem i e q =
      let (content, above, inside) = cell_at w.filled i e q in
      read_internal_cell_lem (get_cell_pointer i p) e.1 e.0 p
        (All_at (λ e. e.1 < 2 ^ 32) es i e w.children q)
        (omega (arith, inside, length-internal_cell e)) content

  get_internal_key_at_lem :
      (i : ℕ) (e : List ℕ × ℕ) → get_elem? es i ≡ some e → get_internal_key_at i p ≡ e.0
  unfolding get_internal_key_at
  get_internal_key_at_lem i e q = ap (λ (x : ℕ × List ℕ). x.1) (get_internal_cell_at_lem i e q)

  internal_search_index_lem : (key : List ℕ) → internal_search_index key p ≡ lower_bound key es
  unfolding internal_search_index
  internal_search_index_lem key = rw (cell_count_filled w.filled) (
      first_true-lower_bound (λ i. get_internal_key_at i p) key es w.sorted get_internal_key_at_lem)

  find_child_from_lem :
      (rounds i : ℕ) (key : List ℕ)
      → rounds + i ≡ length es
      → find_child_from rounds i key p ≡ route key (drop i es) (right_pointer p)
  unfolding find_child_from route
  find_child_from_lem zero i key q = rw (drop_all i es (omega (arith, q))) refl
  find_child_from_lem (suc rounds) i key q =
      let (e, at) = get_elem?_inside es i (omega (arith, q)) in
      rw
        (
          drop_at es i e at,
          get_internal_cell_at_lem i e at,
          find_child_from_lem rounds (i + 1) key (omega (arith, q)),
        )
        refl

  find_child-route : (key : List ℕ) → find_child key p ≡ route key es (right_pointer p)
  unfolding find_child
  find_child-route key =
      rw (cell_count_filled w.filled) (find_child_from_lem (length es) 0 key (omega arith))

-- The page that an insertion gives when there is room.
module _ {p : Page} {free_end : ℕ} {es : List (List ℕ × ℕ)} (w : IsInternal p free_end es) where
  pub place_cell-IsInternal :
      (child : ℕ) (key : List ℕ)
      → child < 2 ^ 32
      → lookup key es ≡ none
      → pointer_at (length es + 1) + internal_cell_size key ≤ free_end
      → IsInternal
          (place_cell
            (lower_bound key es)
            (length es)
            (free_end - internal_cell_size key)
            (write_internal_cell (free_end - internal_cell_size key) child key p).1)
          (free_end - internal_cell_size key)
          (insert_at (lower_bound key es) (key, child) es)
  place_cell-IsInternal child key small new space =
      let size = length-internal_cell (key, child) in
      let new_end = free_end - internal_cell_size key in
      record {
        filled =
            place_cell-IsFilled w.filled (write_internal_cell new_end child key p).1
              (lower_bound key es) new_end (key, child) (lower_bound-le key es)
              (write_internal_cell_lem new_end child key p) (omega (arith, size, space))
              (omega (arith, space));
        sorted = insert_at-IsSorted key child es w.sorted new;
        children =
            All-insert_at (λ e. e.1 < 2 ^ 32) (lower_bound key es) (key, child) es small w.children;
      }

-- How many entries have a key that is not above the key: the place of the child of the key.
unfoldable pub upper_bound : List ℕ → List (List ℕ × ℕ) → ℕ
upper_bound key [] = 0
upper_bound key ((k, child) ∷ es) =
    let rest = upper_bound key es in if key_less key k then 0 else suc rest

-- A new entry takes over the keys that are below it and were in the child at its place.
route-insert_at :
    (key asked : List ℕ) (child right : ℕ) (es : List (List ℕ × ℕ))
    → IsSorted es
    → route asked (insert_at (lower_bound key es) (key, child) es) right ≡ (
        if key_less asked key && (upper_bound asked es == lower_bound key es)
        then child
        else route asked es right)
unfolding route upper_bound lower_bound
route-insert_at key asked child right [] s = ground arith
route-insert_at key asked child right ((k, c) ∷ es) (a, s) = ground (
  arith,
  route-insert_at key asked child right es s,
  key_less_trans k key asked,
  key_less_trans asked key k,
  key_less_trans asked k key,
  key_less_flip k key,
  key_less_flip asked key,
  key_equal_iff k key,
)

-- An insertion of a new key into an internal page either fails with ErrPageFull, when the free space is
-- smaller than the cell with its pointer, or gives an internal page. There the new child is found
-- exactly for the keys below the new key that went to the child at its place, and all other keys go
-- where they went before.
pub insert_internal_cell-IsInternal :
    (p : Page) (free_end : ℕ) (es : List (List ℕ × ℕ)) (child : ℕ) (key : List ℕ)
    → IsInternal p free_end es
    → child < 2 ^ 32
    → lookup key es ≡ none
    → ((free_space p < internal_cell_size key + cell_ptr_size)
        × (insert_internal_cell child key p ≡ none))
      ⊎ ((internal_cell_size key + cell_ptr_size ≤ free_space p)
          × ((p' : Page) × (insert_internal_cell child key p ≡ some p')
              × ((asked : List ℕ)
                  → find_child asked p' ≡ (
                      if key_less asked key && (upper_bound asked es == lower_bound key es)
                      then child
                      else find_child asked p))
              × IsInternal p'
                  (free_end - internal_cell_size key)
                  (insert_at (lower_bound key es) (key, child) es)))
unfolding insert_internal_cell
insert_internal_cell-IsInternal p free_end es child key w small_child new =
    let space = free_space_filled w.filled in
    let new_end = free_end - internal_cell_size key in
    elim (Bool-cases (ltb (free_space p) (internal_cell_size key + cell_ptr_size))) [
      | inl t ↦ inl (ground arith, rw t refl)
      | inr f ↦
          let large : internal_cell_size key + cell_ptr_size ≤ free_space p = ground arith in
          let room : pointer_at (length es + 1) + internal_cell_size key ≤ free_end =
            omega (arith, large, space) in
          let leaf = place_cell-IsInternal w child key small_child new room in
          inr (
            large,
            (
              _,
              rw
                  (
                    f,
                    internal_search_index_lem w key,
                    cell_count_filled w.filled,
                    free_space_end_filled w.filled,
                  )
                  refl,
              λ asked.
                  find_child-route leaf asked
                  ∙ rw
                      (right_pointer-place_cell w.filled (write_internal_cell new_end child key p).1
                        (lower_bound key es) new_end (internal_cell (key, child))
                        (lower_bound-le key es) (write_internal_cell_lem new_end child key p)
                        (omega (arith, room)))
                      (route-insert_at key asked child (right_pointer p) es w.sorted)
                  ∙ ap
                      (λ other.
                        if key_less asked key && (upper_bound asked es == lower_bound key es)
                        then child
                        else other)
                      (sym (find_child-route w asked)),
              leaf,
            ),
          )
    ]

-- A new page is an internal page with no entry.
pub new_page-IsInternal : (id page_type : ℕ) → IsInternal (new_page id page_type) page_size []
new_page-IsInternal id page_type = record {
  filled = new_page-IsFilled internal_cell id page_type;
  sorted = tt;
  children = tt;
}
