-- ===== src/Storage/Page/Contents.antt =====
-- internal/storage/page.go: a page that holds a list of entries, one cell for each, in order. An
-- insertion puts an entry into the list, a deletion takes one out, and a search among the keys finds
-- the place of a key in the list.
use hedgehog_db_opus.Base.{ℕ, zero, suc, ◌+◌, ◌-◌, ◌≤◌, ◌<◌, ◌≡◌, refl, ap, sym, ◌∙◌, arith}
use hedgehog_db_opus.Base.{not, some, List, [], ◌∷◌, map, nat_keys}
use hedgehog_db_opus.Base.{
  inl, inr, length-take, length-drop, replicate, length-replicate, length, get_elem?, insert_at,
  remove_at, drop, get_elem?_inside, get_elem?_bound,
}
use hedgehog_db_opus.Base.Search.{first_true, IsMonotone, first_true-IsFirst, IsFirst-unique}
use hedgehog_db_opus.Base.Buffer.{
  read_at, get_le-kept, Holds-read_at, Holds-keep, copy_at, put_le, Holds, Holds-put_le,
  Holds-keep_put, length-copy_at,
}
use hedgehog_db_opus.Base.Bytes.{le_bytes, length-le_bytes}
use hedgehog_db_opus.Storage.FileHeader.{page_size}
use hedgehog_db_opus.Storage.Keys.{key_less}
use hedgehog_db_opus.Storage.Page.{
  Page, right_pointer, new_page, page_header_size, pointer_at, cell_count, free_space,
  free_space_end,
}
use hedgehog_db_opus.Storage.Page.{get_cell_pointer, place_cell, drop_cell}
use hedgehog_db_opus.Storage.Page.Slots.{
  Slot, IsSlotted, cell_count_lem, free_space_lem, free_space_end_lem,
}
use hedgehog_db_opus.Storage.Page.Slots.{get_cell_pointer_lem}
use hedgehog_db_opus.Storage.Page.Insertion.{place_cell_rest, place_cell-IsSlotted}
use hedgehog_db_opus.Storage.Page.Deletion.{drop_cell-IsSlotted}
use hedgehog_db_opus.Storage.Page.Entries.{
  IsSorted, lower_bound, at_least, at_least-IsMonotone, lower_bound-IsFirst,
}

module _ {A B C : Type 0} (f : A → C) (g : B → C) where
  map-length : (xs : List A) (ys : List B) → map f xs ≡ map g ys → length xs ≡ length ys
  map-length [] [] e = refl
  map-length [] (y ∷ ys) e = cc
  map-length (x ∷ xs) [] e = cc
  map-length (x ∷ xs) (y ∷ ys) e = ap suc (map-length xs ys (ap (drop 1) e))

  map_at :
      (xs : List A) (ys : List B) (i : ℕ) (x : A) (y : B)
      → map f xs ≡ map g ys
      → get_elem? xs i ≡ some x
      → get_elem? ys i ≡ some y
      → f x ≡ g y
  map_at [] ys i x y e p q = cc
  map_at (a ∷ xs) [] i x y e p q = cc
  map_at (a ∷ xs) (b ∷ ys) zero x y e p q = cc
  map_at (a ∷ xs) (b ∷ ys) (suc i) x y e p q = map_at xs ys i x y (ap (drop 1) e) p q

  map-insert_at :
      (xs : List A) (ys : List B) (i : ℕ) (x : A) (y : B)
      → map f xs ≡ map g ys
      → f x ≡ g y
      → map f (insert_at i x xs) ≡ map g (insert_at i y ys)
  map-insert_at xs ys zero x y e p = cc
  map-insert_at [] [] (suc i) x y e p = cc
  map-insert_at [] (b ∷ ys) (suc i) x y e p = cc
  map-insert_at (a ∷ xs) [] (suc i) x y e p = cc
  map-insert_at (a ∷ xs) (b ∷ ys) (suc i) x y e p = cc (map-insert_at xs ys i x y (ap (drop 1) e) p)

  map-remove_at :
      (xs : List A) (ys : List B) (i : ℕ)
      → map f xs ≡ map g ys
      → map f (remove_at i xs) ≡ map g (remove_at i ys)
  map-remove_at [] [] i e = refl
  map-remove_at [] (b ∷ ys) i e = cc
  map-remove_at (a ∷ xs) [] i e = cc
  map-remove_at (a ∷ xs) (b ∷ ys) zero e = ap (drop 1) e
  map-remove_at (a ∷ xs) (b ∷ ys) (suc i) e = cc (map-remove_at xs ys i (ap (drop 1) e))

-- The page is laid out with one slot for each entry, whose cell is the entry's.
pub record IsFilled {A : Type 0} (cell_of : A → List ℕ) (p : Page) (free_end : ℕ) (es : List A)
    : Type 0 where
  pub slots : List Slot
  pub slotted : IsSlotted p free_end slots
  pub same : map (λ (s : Slot). s.cell) slots ≡ map cell_of es

module _ {A : Type 0} {cell_of : A → List ℕ} {p : Page} {free_end : ℕ} {es : List A}
    (w : IsFilled cell_of p free_end es) where
  slots_length : length w.slots ≡ length es
  slots_length = map-length (λ (s : Slot). s.cell) cell_of w.slots es w.same

  pub cell_count_filled : cell_count p ≡ length es
  cell_count_filled = cell_count_lem w.slotted ∙ slots_length

  pub free_space_filled : free_space p ≡ free_end - pointer_at (length es)
  free_space_filled = free_space_lem w.slotted ∙ ap (λ n. free_end - pointer_at n) slots_length

  pub free_space_end_filled : free_space_end p ≡ free_end
  free_space_end_filled = free_space_end_lem w.slotted

  pub room_filled : pointer_at (length es) ≤ free_end
  room_filled = omega (arith, w.slotted.room, slots_length)

  -- The pointer of an entry leads to its cell, which lies in the page behind the free space.
  pub cell_at :
      (i : ℕ) (e : A)
      → get_elem? es i ≡ some e
      → Holds p.bytes (get_cell_pointer i p) (cell_of e)
        × (free_end ≤ get_cell_pointer i p)
        × (get_cell_pointer i p + length (cell_of e) ≤ page_size)
  cell_at i e q =
      let (s, at) =
        get_elem?_inside w.slots i (omega (arith, slots_length, get_elem?_bound es i e q)) in
      let h = w.slotted.slot_at i s at in
      let cell : s.cell ≡ cell_of e =
        map_at (λ (s : Slot). s.cell) cell_of w.slots es i s e w.same at q in
      let place : get_cell_pointer i p ≡ s.offset = get_cell_pointer_lem w.slotted i s at in
      rw (place, ← cell) (h.content, h.above, h.inside)

  pub place_cell-IsFilled :
      (p' : Page) (idx new_end : ℕ) (e : A)
      → idx ≤ length es
      → p'.bytes ≡ copy_at new_end (cell_of e) p.bytes
      → new_end + length (cell_of e) ≡ free_end
      → pointer_at (length es + 1) ≤ new_end
      → IsFilled cell_of (place_cell idx (length es) new_end p') new_end (insert_at idx e es)
  place_cell-IsFilled p' idx new_end e small written fits space = record {
    slots = insert_at idx (record { offset = new_end; cell = cell_of e }) w.slots;
    slotted = rw slots_length at (
        place_cell-IsSlotted w.slotted p' idx new_end (cell_of e)
          (omega (arith, small, slots_length)) written fits (omega (arith, space, slots_length)));
    same = map-insert_at (λ (s : Slot). s.cell) cell_of w.slots es idx _ e w.same refl;
  }

  -- The right pointer is kept.
  pub right_pointer-place_cell :
      (p' : Page) (idx new_end : ℕ) (cell : List ℕ)
      → idx ≤ length es
      → p'.bytes ≡ copy_at new_end cell p.bytes
      → pointer_at 0 ≤ new_end
      → right_pointer (place_cell idx (length es) new_end p') ≡ right_pointer p
  right_pointer-place_cell p' idx new_end cell small written high =
      let long = w.slotted.long in
      let size : length (read_at 12 4 p.bytes) ≡ 4 =
        omega (arith, long, length-take 4 (drop 12 p.bytes), length-drop 12 p.bytes) in
      get_le-kept 4 12 p.bytes (place_cell idx (length es) new_end p').bytes (omega (arith, long)) (
        place_cell_rest idx (length es) new_end p' small 12 (read_at 12 4 p.bytes) (omega arith)
          (omega (arith, size))
          (rw written (
            Holds-keep 12 (read_at 12 4 p.bytes) new_end cell p.bytes
              (inl (omega (arith, size, high))) (Holds-read_at p.bytes 12 4))))

  pub drop_cell-IsFilled :
      (idx : ℕ)
      → idx < length es
      → IsFilled cell_of (drop_cell idx (length es) p) free_end (remove_at idx es)
  drop_cell-IsFilled idx small = record {
    slots = remove_at idx w.slots;
    slotted =
        rw slots_length at (drop_cell-IsSlotted w.slotted idx (omega (arith, small, slots_length)));
    same = map-remove_at (λ (s : Slot). s.cell) cell_of w.slots es idx w.same;
  }

-- A new page has no cell, and its free space ends at its end.
pub new_page-IsFilled :
    {A : Type 0}
    → (cell_of : A → List ℕ) (id page_type : ℕ)
    → IsFilled cell_of (new_page id page_type) page_size []
unfolding new_page le_bytes
new_page-IsFilled cell_of id page_type =
    let zero_byte : ℕ = 0 in
    let empty = replicate page_size zero_byte in
    let d1 = put_le 1 0 page_type empty in
    let d2 = put_le 2 4 page_header_size d1 in
    let l0 : length empty ≡ page_size = length-replicate page_size zero_byte in
    let l1 : length d1 ≡ page_size = length-copy_at 0 (le_bytes 1 page_type) empty ∙ l0 in
    let l2 : length d2 ≡ page_size = length-copy_at 4 (le_bytes 2 page_header_size) d1 ∙ l1 in
    let count0 : Holds empty 2 (le_bytes 2 0) = (refl, (refl, tt)) in
    let start : Holds d2 4 (le_bytes 2 page_header_size) =
      Holds-put_le 2 4 page_header_size d1 (omega (arith, l1)) in
    record {
      slots = [];
      slotted = record {
        long = length-copy_at 6 (le_bytes 2 page_size) d2 ∙ l2;
        counted =
            Holds-keep_put 2 (le_bytes 2 0) 2 6 page_size d2
              (inl (omega (arith, length-le_bytes 2 0, length-le_bytes 2 page_header_size)))
              (Holds-keep_put 2 (le_bytes 2 0) 2 4 page_header_size d1
                (inl (omega (arith, length-le_bytes 2 0)))
                (Holds-keep_put 2 (le_bytes 2 0) 1 0 page_type empty (inr (omega arith)) count0));
        started =
            Holds-keep_put 4 (le_bytes 2 page_header_size) 2 6 page_size d2
              (inl (omega (arith, length-le_bytes 2 0, length-le_bytes 2 page_header_size))) start;
        ended = Holds-put_le 2 6 page_size d2 (omega (arith, l2));
        room = omega arith;
        inside = omega arith;
        slot_at = λ j s e. cc e;
      };
      same = refl;
    }

module _ {V : Type 0} (read : ℕ → List ℕ) (key : List ℕ) (es : List (List ℕ × V)) (s : IsSorted es)
    (agree : (i : ℕ) (e : List ℕ × V) → get_elem? es i ≡ some e → read i ≡ e.0) where
  test_at_least : (i : ℕ) → i < length es → not (key_less (read i) key) ≡ at_least key es i
  unfolding at_least
  test_at_least i h = let (e, at) = get_elem?_inside es i h in rw (agree i e at, at_least, at) refl

  -- A binary search for the first key that is not below `key`, where the keys read are the entries'.
  pub first_true-lower_bound :
      first_true (length es) (λ mid. not (key_less (read mid) key)) ≡ lower_bound key es
  first_true-lower_bound =
      let first = lower_bound-IsFirst key es s in
      let mono : IsMonotone (length es) (λ mid. not (key_less (read mid) key)) = λ i j le h t.
        test_at_least j h
        ∙ at_least-IsMonotone key es s i j le h
            (sym (test_at_least i (omega (arith, le, h))) ∙ t) in
      IsFirst-unique (length es) (λ mid. not (key_less (read mid) key)) _ (lower_bound key es)
        (first_true-IsFirst (length es) (λ mid. not (key_less (read mid) key)) mono)
        (record {
          bounded = first.bounded;
          below = λ j h. test_at_least j (omega (arith, h, first.bounded)) ∙ first.below j h;
          holds = λ h. test_at_least (lower_bound key es) h ∙ first.holds h;
        })
