-- ===== src/Storage/Page/Slots.antt =====
-- internal/storage/page.go: the layout of a page with cells. The pointers stand after the header, in
-- order, and the cells lie behind the free space; no two that are written meet.
use hedgehog_db_opus.Base.{ℕ, ◌+◌, ◌-◌, ◌≤◌, ◌≡◌}
use hedgehog_db_opus.Base.{List, length, arith, nat_keys}
use hedgehog_db_opus.Base.{some, get_elem?}
use hedgehog_db_opus.Base.Bytes.{le_bytes}
use hedgehog_db_opus.Base.Buffer.{Holds}
use hedgehog_db_opus.Base.Buffer.{get_le-Holds}
use hedgehog_db_opus.Storage.FileHeader.{page_size}
use hedgehog_db_opus.Storage.Page.{Page, pointer_at, cell_count, free_space_start, free_space_end}
use hedgehog_db_opus.Storage.Page.{free_space}
use hedgehog_db_opus.Storage.Page.{get_cell_pointer}
use hedgehog_db_opus.Storage.Page.Pointers.{IsPointer}

-- A pointer with the bytes of its cell.
pub record Slot : Type 0 where
  pub offset : ℕ
  pub cell : List ℕ

pub record IsSlot (p : Page) (free_end j : ℕ) (s : Slot) : Type 0 where
  pub pointer : IsPointer p j s.offset
  pub above : free_end ≤ s.offset
  pub inside : s.offset + length s.cell ≤ page_size
  pub content : Holds p.bytes s.offset s.cell

pub record IsSlotted (p : Page) (free_end : ℕ) (slots : List Slot) : Type 0 where
  pub long : length p.bytes ≡ page_size
  pub counted : Holds p.bytes 2 (le_bytes 2 (length slots))
  pub started : Holds p.bytes 4 (le_bytes 2 (pointer_at (length slots)))
  pub ended : Holds p.bytes 6 (le_bytes 2 free_end)
  pub room : pointer_at (length slots) ≤ free_end
  pub inside : free_end ≤ page_size
  pub slot_at : (j : ℕ) (s : Slot) → get_elem? slots j ≡ some s → IsSlot p free_end j s

module _ {p : Page} {free_end : ℕ} {slots : List Slot} (w : IsSlotted p free_end slots) where
  pub cell_count_lem : cell_count p ≡ length slots
  cell_count_lem =
      get_le-Holds 2 (length slots) 2 p.bytes (omega (arith, w.room, w.inside)) w.counted

  pub free_space_end_lem : free_space_end p ≡ free_end
  free_space_end_lem = get_le-Holds 2 free_end 6 p.bytes (omega (arith, w.inside)) w.ended

  pub free_space_lem : free_space p ≡ free_end - pointer_at (length slots)
  free_space_lem =
      let start : free_space_start p ≡ pointer_at (length slots) =
        get_le-Holds 2 (pointer_at (length slots)) 4 p.bytes (omega (arith, w.room, w.inside))
          w.started in
      omega (arith, start, free_space_end_lem)

  pub get_cell_pointer_lem :
      (j : ℕ) (s : Slot) → get_elem? slots j ≡ some s → get_cell_pointer j p ≡ s.offset
  get_cell_pointer_lem j s e =
      let at = w.slot_at j s e in
      get_le-Holds 2 s.offset (pointer_at j) p.bytes (omega (arith, at.inside)) at.pointer
