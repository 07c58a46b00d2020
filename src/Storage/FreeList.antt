-- ===== src/Storage/FreeList.antt =====
-- internal/storage/freelist.go, `FreeList`: the pages that were freed, kept in pages of the file that
-- form a list. Its state is all in the pager. `none` stands for an error of the pager.
pub mod Reuse
use hedgehog_db_opus.Base.{ℕ, ◌+◌, ◌-◌, ◌*◌, ◌/◌, Bool, true, false, Option, none, some, List}
use hedgehog_db_opus.Base.{nat_keys, ltb, ◌==◌, if◌then◌else◌}
use hedgehog_db_opus.Base.Buffer.{get_le, put_le}
use hedgehog_db_opus.Storage.FileHeader.{page_size}
use hedgehog_db_opus.Storage.Page.{Page, new_page, page_type_free_list}
use hedgehog_db_opus.Storage.Pager.{Pager, read_page, write_page, allocate_page, set_free_list_head}
use hedgehog_db_opus.Storage.Wal.{Crc}

abbrev pub free_list_header_size : ℕ
free_list_header_size = 7

abbrev pub free_list_entry_size : ℕ
free_list_entry_size = 4

-- The quotient (PageSize - FreeListHeaderSize) / FreeListEntrySize.
abbrev pub max_free_list_entries : ℕ
max_free_list_entries = 1022

-- The count of a page of the list, the next page, and the place of an entry.
abbrev pub entry_count : List ℕ → ℕ
entry_count bytes = get_le 2 1 bytes

abbrev pub next_list_page : List ℕ → ℕ
next_list_page bytes = get_le 4 3 bytes

abbrev pub entry_offset : ℕ → ℕ
entry_offset i = free_list_header_size + i * free_list_entry_size

-- The bytes of a page of the list with one entry more, and with one less.
unfoldable pub push_entry : ℕ → List ℕ → List ℕ
push_entry page_id bytes =
    put_le 2 1 (entry_count bytes + 1) (put_le 4 (entry_offset (entry_count bytes)) page_id bytes)

unfoldable pub pop_entry : List ℕ → List ℕ
pop_entry bytes = put_le 2 1 (entry_count bytes - 1) bytes

abbrev pub dirty_page : ℕ → List ℕ → Page
dirty_page id bytes = record { id = id; bytes = bytes; dirty = true }

-- The page that `FreePage` makes for its first entry.
unfoldable pub first_list_page : ℕ → ℕ → ℕ → Page
first_list_page new_id head page_id = record {
  id = new_id;
  bytes = put_le 4 free_list_header_size page_id (
      put_le 4 3 head (
        put_le 2 1 1 (put_le 1 0 page_type_free_list (new_page new_id page_type_free_list).bytes)));
  dirty = false;
}

-- The pager after a write.
abbrev pub written_pager : Option (Page × Pager) → Option Pager
written_pager none = none
written_pager (some (page, p)) = some p

module _ (crc : Crc) where
  -- `AllocatePage`, where the list has a head page with these bytes.
  unfoldable pub allocate_from : ℕ → Page → Pager → Option (ℕ × Pager)
  allocate_from head page p =
      if entry_count page.bytes == 0
      then some (head, set_free_list_head crc (next_list_page page.bytes) p)
      else elim (written_pager (write_page (dirty_page page.id (pop_entry page.bytes)) p)) [
        | none ↦ none
        | some p' ↦ some (get_le 4 (entry_offset (entry_count page.bytes - 1)) page.bytes, p')
      ]

  unfoldable pub allocate_free_page : Pager → Option (ℕ × Pager)
  allocate_free_page p =
      let head = p.header.free_list_head in
      if head == 0
      then some (allocate_page crc p)
      else elim (read_page head p) [ none ↦ none | some page ↦ allocate_from head page p ]

  -- The end of `FreePage`, with a new page of the list.
  unfoldable pub free_into_new : ℕ → Pager → Option Pager
  free_into_new page_id p =
      let (new_id, extended) = allocate_page crc p in
      elim (written_pager
        (write_page (first_list_page new_id p.header.free_list_head page_id) extended)) [
          | none ↦ none
          | some p' ↦ some (set_free_list_head crc new_id p')
        ]

  unfoldable pub free_page : ℕ → Pager → Option Pager
  free_page page_id p =
      let head = p.header.free_list_head in
      if head == 0 then free_into_new page_id p else elim (read_page head p) [
        | none ↦ none
        | some page ↦
            if ltb (entry_count page.bytes) max_free_list_entries
            then written_pager (write_page (dirty_page page.id (push_entry page_id page.bytes)) p)
            else free_into_new page_id p
      ]
