-- ===== src/Storage/Pager.antt =====
-- internal/storage/pager.go, `Pager`: the database file with its header. The file is its bytes; its
-- reads and writes are those of Base/File, and no write fails. Every method takes the lock of the
-- pager for all it does, so its calls come one after another.
pub mod Stored
pub mod Pages
use hedgehog_db_opus.Base.{ℕ, zero, suc, ◌+◌, ◌*◌, ◌^◌, ◌%◌, Bool, true, false, Option, none, some}
use hedgehog_db_opus.Base.{List, [], ◌∷◌, length, replicate, nat_keys, ◌==◌, if◌then◌else◌}
use hedgehog_db_opus.Base.File.{write_file_at, read_file_at}
use hedgehog_db_opus.Storage.FileHeader.{page_size, FileHeader, new_file_header, HeaderResult}
use hedgehog_db_opus.Storage.FileHeader.{serialize_header, deserialize_header}
use hedgehog_db_opus.Storage.FileHeader.HeaderResult.{ok, invalid_page, corrupt_page}
use hedgehog_db_opus.Storage.Page.{Page}
use hedgehog_db_opus.Storage.Wal.{Crc}

pub record Pager : Type 0 where
  pub file : List ℕ
  pub header : FileHeader

-- The errors of `readHeaderPage` with its result.
pub data Opened : Type 0 where
  opened : Pager → Opened
  short_read invalid_header corrupt_header : Opened

-- `Page{ID: id, Data: bytes}`
abbrev pub clean_page : ℕ → List ℕ → Page
clean_page id bytes = record { id = id; bytes = bytes; dirty = false }

-- `ReadPage`, with an error for page 0 and where the file is too short.
unfoldable pub read_page : ℕ → Pager → Option Page
read_page page_id p =
    if page_id == 0 then none else elim (read_file_at (page_id * page_size) page_size p.file) [
      | none ↦ none
      | some bytes ↦ some (clean_page page_id bytes)
    ]

-- `WritePage`, with an error for page 0. The page is no longer dirty.
unfoldable pub write_page : Page → Pager → Option (Page × Pager)
write_page page p =
    if page.id == 0
    then none
    else some (
      clean_page page.id page.bytes,
      record { file = write_file_at (page.id * page_size) page.bytes p.file; header = p.header },
    )

abbrev pub total_pages : Pager → ℕ
total_pages p = p.header.total_pages

module _ (crc : Crc) where
  unfoldable pub write_header_page : Pager → Pager
  write_header_page p = record {
    file = write_file_at 0 (serialize_header crc p.header) p.file;
    header = p.header;
  }

  unfoldable pub parse_header : List ℕ → HeaderResult → Opened
  parse_header file (ok h) = opened (record { file = file; header = h })
  parse_header file invalid_page = invalid_header
  parse_header file corrupt_page = corrupt_header

  unfoldable pub read_header_page : List ℕ → Opened
  read_header_page file = elim (read_file_at 0 page_size file) [
    | none ↦ short_read
    | some bytes ↦ parse_header file (deserialize_header crc bytes)
  ]

  -- `OpenPager`, on the bytes of the file.
  unfoldable pub open_pager : List ℕ → Opened
  open_pager file =
      if length file == 0
      then opened (write_header_page (record { file = file; header = new_file_header }))
      else read_header_page file

  -- `AllocatePage`: the new page with zeros, then the header. The number wraps at 32 bits.
  unfoldable pub allocate_page : Pager → ℕ × Pager
  allocate_page p =
      let page_id = p.header.total_pages in
      let header : FileHeader = record {
        version = p.header.version;
        root_page_id = p.header.root_page_id;
        total_pages = (page_id + 1) % 2 ^ 32;
        free_list_head = p.header.free_list_head;
        wal_lsn = p.header.wal_lsn;
      } in
      (
        page_id,
        write_header_page (record {
          file = write_file_at (page_id * page_size) (replicate page_size 0) p.file;
          header = header;
        }),
      )

  unfoldable pub set_root_page_id : ℕ → Pager → Pager
  set_root_page_id id p = write_header_page (record {
    file = p.file;
    header = record {
      version = p.header.version;
      root_page_id = id;
      total_pages = p.header.total_pages;
      free_list_head = p.header.free_list_head;
      wal_lsn = p.header.wal_lsn;
    };
  })

  unfoldable pub set_free_list_head : ℕ → Pager → Pager
  set_free_list_head id p = write_header_page (record {
    file = p.file;
    header = record {
      version = p.header.version;
      root_page_id = p.header.root_page_id;
      total_pages = p.header.total_pages;
      free_list_head = id;
      wal_lsn = p.header.wal_lsn;
    };
  })

  unfoldable pub update_wal_lsn : ℕ → Pager → Pager
  update_wal_lsn lsn p = write_header_page (record {
    file = p.file;
    header = record {
      version = p.header.version;
      root_page_id = p.header.root_page_id;
      total_pages = p.header.total_pages;
      free_list_head = p.header.free_list_head;
      wal_lsn = lsn;
    };
  })
