-- ===== src/Storage/Page/Insertion.antt =====
-- internal/storage/page.go: the insertion of a cell keeps the layout of a page.
use hedgehog_db_opus.Base.{ℕ, ◌+◌, ◌-◌, ◌^◌, ◌≤◌, ◌<◌, ◌≡◌, ◌∙◌, inl, inr}
use hedgehog_db_opus.Base.{List, length, arith, nat_keys, ◌==◌, Bool-cases, ltb, ap, sym}
use hedgehog_db_opus.Base.{some, get_elem?, insert_at, length-insert_at}
use hedgehog_db_opus.Base.{get_elem?-insert_at, get_elem?_bound}
use hedgehog_db_opus.Base.Bytes.{le_bytes, length-le_bytes}
use hedgehog_db_opus.Base.Buffer.{copy_at, Holds, Apart, Holds-keep_put, Holds-put_le}
use hedgehog_db_opus.Base.Buffer.{length-copy_at}
use hedgehog_db_opus.Storage.FileHeader.{page_size}
use hedgehog_db_opus.Storage.Page.{Page, pointer_at}
use hedgehog_db_opus.Storage.Page.{set_free_space_start, set_cell_count, set_free_space_end}
use hedgehog_db_opus.Storage.Page.{set_cell_pointer, shift_up, place_cell}
use hedgehog_db_opus.Storage.Page.Slots.{Slot, IsSlot, IsSlotted}
use mathlib.Core.Path.{subst}
use hedgehog_db_opus.Base.GoMap.{value_or}
use hedgehog_db_opus.Base.Buffer.{Holds-keep, Holds-copy_at}
use hedgehog_db_opus.Storage.Page.Pointers.{
  IsPointer, length-shift_up, shift_up_keep, shift_up_moves,
}

-- Where the steps of an insertion keep what is there.
module _ (idx count new_end : ℕ) (p : Page) (small : idx ≤ count) where
  length-place_cell : length (place_cell idx count new_end p).bytes ≡ length p.bytes
  unfolding place_cell
  length-place_cell =
      length-copy_at 4 (le_bytes 2 (pointer_at (count + 1))) _
      ∙ length-copy_at 2 (le_bytes 2 (count + 1)) _
      ∙ length-copy_at (pointer_at idx) (le_bytes 2 new_end) _
      ∙ length-shift_up (count - idx) count (set_free_space_end new_end p)
      ∙ length-copy_at 6 (le_bytes 2 new_end) p.bytes

  -- After the shift of the pointers only one pointer and the header are written.
  after_shift :
      (q : Page) (o : ℕ) (cs : List ℕ)
      → 8 ≤ o
      → Apart o (length cs) (pointer_at idx) 2
      → Holds q.bytes o cs
      → Holds
          (set_free_space_start
            (pointer_at (count + 1))
            (set_cell_count (count + 1) (set_cell_pointer idx new_end q))).bytes
          o
          cs
  after_shift q o cs low a h =
      Holds-keep_put o cs 2 4 (pointer_at (count + 1)) _ (inr (omega (arith, low))) (
        Holds-keep_put o cs 2 2 (count + 1) _ (inr (omega (arith, low)))
          (Holds-keep_put o cs 2 (pointer_at idx) new_end q.bytes a h))

  place_cell_content :
      (o : ℕ) (cs : List ℕ)
      → pointer_at (count + 1) ≤ o
      → Holds p.bytes o cs
      → Holds (place_cell idx count new_end p).bytes o cs
  unfolding place_cell
  place_cell_content o cs high h =
      after_shift (shift_up (count - idx) count (set_free_space_end new_end p)) o cs
        (omega (arith, high)) (inr (omega (arith, high, small)))
        (shift_up_keep (count - idx) count (set_free_space_end new_end p) o cs
          (omega (arith, small)) (inr (omega (arith, high, small)))
          (Holds-keep_put o cs 2 6 new_end p.bytes (inr (omega (arith, high))) h))

  -- The rest of the header is kept.
  pub place_cell_rest :
      (o : ℕ) (cs : List ℕ)
      → 8 ≤ o
      → o + length cs ≤ pointer_at 0
      → Holds p.bytes o cs
      → Holds (place_cell idx count new_end p).bytes o cs
  unfolding place_cell
  place_cell_rest o cs low high h =
      after_shift (shift_up (count - idx) count (set_free_space_end new_end p)) o cs low
        (inl (omega (arith, high)))
        (shift_up_keep (count - idx) count (set_free_space_end new_end p) o cs
          (omega (arith, small)) (inl (omega (arith, high)))
          (Holds-keep_put o cs 2 6 new_end p.bytes (inr (omega (arith, low))) h))

  place_cell_below :
      (j o : ℕ) → j < idx → IsPointer p j o → IsPointer (place_cell idx count new_end p) j o
  unfolding place_cell
  place_cell_below j o less h =
      after_shift (shift_up (count - idx) count (set_free_space_end new_end p)) (pointer_at j)
        (le_bytes 2 o) (omega arith) (inl (omega (arith, less, length-le_bytes 2 o)))
        (shift_up_keep (count - idx) count (set_free_space_end new_end p) (pointer_at j)
          (le_bytes 2 o) (omega (arith, small))
          (inl (omega (arith, less, small, length-le_bytes 2 o)))
          (Holds-keep_put (pointer_at j) (le_bytes 2 o) 2 6 new_end p.bytes (inr (omega arith)) h))

  place_cell_above :
      (j o : ℕ)
      → pointer_at (count + 1) ≤ length p.bytes
      → idx ≤ j
      → j < count
      → o < 256 ^ 2
      → IsPointer p j o
      → IsPointer (place_cell idx count new_end p) (j + 1) o
  unfolding place_cell
  place_cell_above j o long low high fits h =
      after_shift (shift_up (count - idx) count (set_free_space_end new_end p)) (pointer_at (j + 1))
        (le_bytes 2 o) (omega arith) (inr (omega (arith, low)))
        (shift_up_moves (count - idx) count (set_free_space_end new_end p) j o
          (omega (arith, small))
          (omega (arith, long, length-copy_at 6 (le_bytes 2 new_end) p.bytes))
          (omega (arith, low, small)) high fits
          (Holds-keep_put (pointer_at j) (le_bytes 2 o) 2 6 new_end p.bytes (inr (omega arith)) h))

  place_cell_here :
      pointer_at (count + 1) ≤ length p.bytes
      → IsPointer (place_cell idx count new_end p) idx new_end
  unfolding place_cell
  place_cell_here long =
      let q = shift_up (count - idx) count (set_free_space_end new_end p) in
      let same : length q.bytes ≡ length p.bytes =
        length-shift_up (count - idx) count (set_free_space_end new_end p)
        ∙ length-copy_at 6 (le_bytes 2 new_end) p.bytes in
      Holds-keep_put (pointer_at idx) (le_bytes 2 new_end) 2 4 (pointer_at (count + 1)) _
        (inr (omega arith))
        (Holds-keep_put (pointer_at idx) (le_bytes 2 new_end) 2 2 (count + 1) _ (inr (omega arith))
          (Holds-put_le 2 (pointer_at idx) new_end q.bytes (omega (arith, same, long, small))))

  place_cell_header :
      pointer_at (count + 1) ≤ length p.bytes
      → Holds (place_cell idx count new_end p).bytes 2 (le_bytes 2 (count + 1))
        × Holds (place_cell idx count new_end p).bytes 4 (le_bytes 2 (pointer_at (count + 1)))
        × Holds (place_cell idx count new_end p).bytes 6 (le_bytes 2 new_end)
  unfolding place_cell
  place_cell_header long =
      let p1 = set_free_space_end new_end p in
      let p2 = shift_up (count - idx) count p1 in
      let p3 = set_cell_pointer idx new_end p2 in
      let l1 : length p1.bytes ≡ length p.bytes = length-copy_at 6 (le_bytes 2 new_end) p.bytes in
      let l2 : length p2.bytes ≡ length p1.bytes = length-shift_up (count - idx) count p1 in
      let l3 : length p3.bytes ≡ length p2.bytes =
        length-copy_at (pointer_at idx) (le_bytes 2 new_end) p2.bytes in
      let l4 : length (set_cell_count (count + 1) p3).bytes ≡ length p3.bytes =
        length-copy_at 2 (le_bytes 2 (count + 1)) p3.bytes in
      let c = le_bytes 2 (count + 1) in
      let e = le_bytes 2 new_end in
      let two : length c ≡ 2 = length-le_bytes 2 (count + 1) in
      let two' : length e ≡ 2 = length-le_bytes 2 new_end in
      (
        Holds-keep_put 2 c 2 4 (pointer_at (count + 1)) _ (inl (omega (arith, two)))
            (Holds-put_le 2 2 (count + 1) p3.bytes (omega (arith, l1, l2, l3, long))),
        Holds-put_le 2 4 (pointer_at (count + 1)) (set_cell_count (count + 1) p3).bytes
            (omega (arith, l1, l2, l3, l4, long)),
        Holds-keep_put 6 e 2 4 (pointer_at (count + 1)) _ (inr (omega arith)) (
            Holds-keep_put 6 e 2 2 (count + 1) _ (inr (omega arith)) (
              Holds-keep_put 6 e 2 (pointer_at idx) new_end p2.bytes (inl (omega (arith, two'))) (
                shift_up_keep (count - idx) count p1 6 e (omega (arith, small))
                  (inl (omega (arith, two')))
                  (Holds-put_le 2 6 new_end p.bytes (omega (arith, long)))))),
      )

module _ {p : Page} {free_end : ℕ} {slots : List Slot} (w : IsSlotted p free_end slots) (p' : Page)
    (idx new_end : ℕ) (cell : List ℕ) (small : idx ≤ length slots)
    (written : p'.bytes ≡ copy_at new_end cell p.bytes) (fits : new_end + length cell ≡ free_end)
    (space : pointer_at (length slots + 1) ≤ new_end) where
  kept :
      (o : ℕ) (cs : List ℕ)
      → Apart o (length cs) new_end (length cell)
      → Holds p.bytes o cs
      → Holds p'.bytes o cs
  kept o cs a h = rw written (Holds-keep o cs new_end cell p.bytes a h)

  long' : length p'.bytes ≡ page_size
  long' = ap (λ (b : List ℕ). length b) written ∙ length-copy_at new_end cell p.bytes ∙ w.long

  wide : pointer_at (length slots + 1) ≤ length p'.bytes
  wide = omega (arith, long', space, fits, w.inside)

  old_content :
      (s : Slot) (j : ℕ)
      → IsSlot p free_end j s
      → Holds (place_cell idx (length slots) new_end p').bytes s.offset s.cell
  old_content s j at =
      place_cell_content idx (length slots) new_end p' small s.offset s.cell
        (omega (arith, at.above, space, fits))
        (kept s.offset s.cell (inr (omega (arith, at.above, fits))) at.content)

  old-IsPointer : (j : ℕ) (s : Slot) → get_elem? slots j ≡ some s → IsPointer p' j s.offset
  old-IsPointer j s e =
      kept (pointer_at j) (le_bytes 2 s.offset)
        (inl (omega (arith, length-le_bytes 2 s.offset, space, get_elem?_bound slots j s e)))
        (w.slot_at j s e).pointer

  new-IsSlot :
      IsSlot
        (place_cell idx (length slots) new_end p')
        new_end
        idx
        (record { offset = new_end; cell = cell })
  new-IsSlot = record {
    pointer = place_cell_here idx (length slots) new_end p' small wide;
    above = omega arith;
    inside = omega (arith, fits, w.inside);
    content =
        place_cell_content idx (length slots) new_end p' small new_end cell space
          (rw written (Holds-copy_at new_end cell p.bytes (omega (arith, fits, w.inside, w.long))));
  }

  new_slots : List Slot
  new_slots = insert_at idx (record { offset = new_end; cell = cell }) slots

  placed_slot :
      (j : ℕ) (s : Slot)
      → get_elem? new_slots j ≡ some s
      → IsSlot (place_cell idx (length slots) new_end p') new_end j s
  unfolding new_slots
  placed_slot j s e =
      let at = get_elem?-insert_at idx (record { offset = new_end; cell = cell }) slots j small in
      elim (Bool-cases (ltb j idx)) [
        | inl t ↦
            let old : get_elem? slots j ≡ some s = ground (arith, at, e) in
            let h = w.slot_at j s old in
            record {
              pointer =
                  place_cell_below idx (length slots) new_end p' small j s.offset (ground arith)
                    (old-IsPointer j s old);
              above = omega (arith, h.above, fits);
              inside = h.inside;
              content = old_content s j h;
            }
        | inr f ↦ elim (Bool-cases (j == idx)) [
          | inl t ↦
              let is_new : some (record { offset = new_end; cell = cell }) ≡ some s =
                ground (arith, at, e) in
              let here : idx ≡ j = ground arith in
              subst (λ i. IsSlot (place_cell idx (length slots) new_end p') new_end i s) here
                (subst
                  (λ o.
                    IsSlot (place_cell idx (length slots) new_end p') new_end idx (value_or s o))
                  is_new new-IsSlot)
          | inr g ↦
              let old : get_elem? slots (j - 1) ≡ some s = ground (arith, at, e) in
              let h = w.slot_at (j - 1) s old in
              let back : j - 1 + 1 ≡ j = ground arith in
              record {
                pointer =
                    subst (λ i. IsPointer (place_cell idx (length slots) new_end p') i s.offset)
                      back
                      (place_cell_above idx (length slots) new_end p' small (j - 1) s.offset wide
                        (ground arith) (get_elem?_bound slots (j - 1) s old)
                        (omega (arith, h.inside)) (old-IsPointer (j - 1) s old));
                above = omega (arith, h.above, fits);
                inside = h.inside;
                content = old_content s (j - 1) h;
              }
        ]
      ]

  -- The page has the new slot at its index and the others in order.
  pub place_cell-IsSlotted :
      IsSlotted
        (place_cell idx (length slots) new_end p')
        new_end
        (insert_at idx (record { offset = new_end; cell = cell }) slots)
  unfolding new_slots
  place_cell-IsSlotted =
      let grown : length slots + 1
          ≡ length (insert_at idx (record { offset = new_end; cell = cell }) slots) =
        sym (length-insert_at idx (record { offset = new_end; cell = cell }) slots) in
      let (counted, started, ended) = place_cell_header idx (length slots) new_end p' small wide in
      record {
        long = length-place_cell idx (length slots) new_end p' small ∙ long';
        counted = rw (← grown) counted;
        started = rw (← grown) started;
        ended = ended;
        room = omega (arith, space, grown);
        inside = omega (arith, fits, w.inside);
        slot_at = placed_slot;
      }
