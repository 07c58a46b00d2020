-- ===== src/Storage/Page/Deletion.antt =====
-- internal/storage/page.go: the deletion of a cell pointer keeps the layout of a page.
use hedgehog_db_opus.Base.{ℕ, ◌+◌, ◌-◌, ◌*◌, ◌^◌, ◌≤◌, ◌<◌, ◌≡◌, ◌∙◌, inl, inr}
use hedgehog_db_opus.Base.{List, length, arith, nat_keys, Bool-cases, ltb}
use hedgehog_db_opus.Base.{some, get_elem?, remove_at, length-remove_at}
use hedgehog_db_opus.Base.{get_elem?-remove_at, get_elem?_bound}
use hedgehog_db_opus.Base.Bytes.{le_bytes, length-le_bytes}
use hedgehog_db_opus.Base.Buffer.{Holds, Apart, Holds-keep_put, Holds-put_le}
use hedgehog_db_opus.Base.Buffer.{length-copy_at}
use hedgehog_db_opus.Storage.Page.{Page, pointer_at}
use hedgehog_db_opus.Storage.Page.{set_cell_count}
use hedgehog_db_opus.Storage.Page.{shift_down, drop_cell}
use hedgehog_db_opus.Storage.Page.Slots.{Slot, IsSlot, IsSlotted}
use hedgehog_db_opus.Storage.Page.Pointers.{IsPointer}
use hedgehog_db_opus.Storage.Page.Pointers.{length-shift_down, shift_down_keep, shift_down_moves}

module _ {p : Page} {free_end : ℕ} {slots : List Slot} (w : IsSlotted p free_end slots) (idx : ℕ)
    (small : idx < length slots) where
  shifted : Page
  shifted = shift_down (length slots - 1 - idx) idx p

  shifted_length : length shifted.bytes ≡ length p.bytes
  unfolding shifted
  shifted_length = length-shift_down (length slots - 1 - idx) idx p

  -- After the shift only the header is written.
  after_shift :
      (o : ℕ) (cs : List ℕ)
      → 6 ≤ o
      → Apart o (length cs) (pointer_at idx) ((length slots - 1 - idx) * 2)
      → Holds p.bytes o cs
      → Holds (drop_cell idx (length slots) p).bytes o cs
  unfolding drop_cell
  after_shift o cs low a h =
      Holds-keep_put o cs 2 4 (pointer_at (length slots - 1)) _ (inr (omega (arith, low))) (
        Holds-keep_put o cs 2 2 (length slots - 1) _ (inr (omega (arith, low)))
          (shift_down_keep (length slots - 1 - idx) idx p o cs a h))

  drop_cell_header :
      Holds (drop_cell idx (length slots) p).bytes 2 (le_bytes 2 (length slots - 1))
      × Holds (drop_cell idx (length slots) p).bytes 4 (le_bytes 2 (pointer_at (length slots - 1)))
  unfolding drop_cell shifted
  drop_cell_header =
      let c = le_bytes 2 (length slots - 1) in
      let long : 8 ≤ length shifted.bytes = omega (arith, shifted_length, w.long) in
      let same : length (set_cell_count (length slots - 1) shifted).bytes ≡ length shifted.bytes =
        length-copy_at 2 c shifted.bytes in
      (
        Holds-keep_put 2 c 2 4 (pointer_at (length slots - 1)) _
            (inl (omega (arith, length-le_bytes 2 (length slots - 1))))
            (Holds-put_le 2 2 (length slots - 1) shifted.bytes (omega (arith, long))),
        Holds-put_le 2 4 (pointer_at (length slots - 1))
            (set_cell_count (length slots - 1) shifted).bytes (omega (arith, same, long)),
      )

  length-drop_cell : length (drop_cell idx (length slots) p).bytes ≡ length p.bytes
  unfolding drop_cell shifted
  length-drop_cell =
      length-copy_at 4 (le_bytes 2 (pointer_at (length slots - 1))) _
      ∙ length-copy_at 2 (le_bytes 2 (length slots - 1)) _
      ∙ shifted_length

  old_content :
      (s : Slot) (j : ℕ)
      → IsSlot p free_end j s
      → Holds (drop_cell idx (length slots) p).bytes s.offset s.cell
  old_content s j at =
      after_shift s.offset s.cell (omega (arith, at.above, w.room))
        (inr (omega (arith, at.above, w.room, small))) at.content

  IsPointer-above :
      (j o : ℕ)
      → idx ≤ j
      → j + 1 < length slots
      → o < 256 ^ 2
      → IsPointer p (j + 1) o
      → IsPointer (drop_cell idx (length slots) p) j o
  unfolding drop_cell
  IsPointer-above j o low high fits h =
      Holds-keep_put (pointer_at j) (le_bytes 2 o) 2 4 (pointer_at (length slots - 1)) _
        (inr (omega arith))
        (Holds-keep_put (pointer_at j) (le_bytes 2 o) 2 2 (length slots - 1) _ (inr (omega arith)) (
          shift_down_moves (length slots - 1 - idx) idx p j o
            (omega (arith, w.room, w.inside, w.long, small)) low (omega (arith, low, high)) fits h))

  remaining_slot :
      (j : ℕ) (s : Slot)
      → get_elem? (remove_at idx slots) j ≡ some s
      → IsSlot (drop_cell idx (length slots) p) free_end j s
  remaining_slot j s e =
      let at = get_elem?-remove_at idx slots j in
      elim (Bool-cases (ltb j idx)) [
        | inl t ↦
            let less : j < idx = ground arith in
            let old : get_elem? slots j ≡ some s = ground (arith, at, e) in
            let h = w.slot_at j s old in
            record {
              pointer =
                  after_shift (pointer_at j) (le_bytes 2 s.offset) (omega arith)
                    (inl (omega (arith, less, length-le_bytes 2 s.offset))) h.pointer;
              above = h.above;
              inside = h.inside;
              content = old_content s j h;
            }
        | inr f ↦
            let low : idx ≤ j = ground arith in
            let old : get_elem? slots (j + 1) ≡ some s = ground (arith, at, e) in
            let h = w.slot_at (j + 1) s old in
            record {
              pointer =
                  IsPointer-above j s.offset low (get_elem?_bound slots (j + 1) s old)
                    (omega (arith, h.inside)) h.pointer;
              above = h.above;
              inside = h.inside;
              content = old_content s (j + 1) h;
            }
      ]

  -- The page has lost the slot at the index and keeps the others in order.
  pub drop_cell-IsSlotted :
      IsSlotted (drop_cell idx (length slots) p) free_end (remove_at idx slots)
  drop_cell-IsSlotted =
      let fewer : length slots - 1 ≡ length (remove_at idx slots) =
        omega (arith, length-remove_at idx slots small) in
      let (counted, started) = drop_cell_header in
      record {
        long = length-drop_cell ∙ w.long;
        counted = rw (← fewer) counted;
        started = rw (← fewer) started;
        ended =
            after_shift 6 (le_bytes 2 free_end) (omega arith)
              (inl (omega (arith, length-le_bytes 2 free_end))) w.ended;
        room = omega (arith, w.room, fewer);
        inside = w.inside;
        slot_at = remaining_slot;
      }
