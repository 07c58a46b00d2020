-- ===== src/Storage/Pager/Pages.antt =====
-- internal/storage/pager.go: the file of a pager holds its header and its pages. What was written is
-- read, also after the file is opened again, and an operation on one page keeps the others.
use hedgehog_db_opus.Base.{ℕ, ◌+◌, ◌-◌, ◌*◌, ◌^◌, ◌%◌, ◌≤◌, ◌<◌, ◌≡◌, ◌≢◌, refl, arith, inl, inr}
use hedgehog_db_opus.Base.{false, some, List, [], ◌++◌}
use hedgehog_db_opus.Base.{length, replicate, length-replicate, length-append, nat_keys, ◌==◌}
use hedgehog_db_opus.Base.Bytes.{le_bytes, length-le_bytes}
use hedgehog_db_opus.Base.Buffer.{Holds}
use hedgehog_db_opus.Base.File.{
  write_file_at, read_file_at, length-write_file_at, Holds-write_file_at,
}
use hedgehog_db_opus.Base.File.{Holds-keep_write, read_file_at-Holds}
use hedgehog_db_opus.Storage.FileHeader.{
  page_size, FileHeader, new_file_header, covered, serialize_header,
}
use hedgehog_db_opus.Storage.FileHeader.{IsHeader, deserialize_header-serialize_header}
use hedgehog_db_opus.Storage.Page.{Page}
use hedgehog_db_opus.Storage.Wal.{Crc}
use hedgehog_db_opus.Storage.Pager.{Pager, clean_page, read_page, write_page, write_header_page}
use hedgehog_db_opus.Storage.Pager.{parse_header, read_header_page, open_pager, allocate_page}
use hedgehog_db_opus.Storage.Pager.{set_root_page_id, set_free_list_head, update_wal_lsn}
use hedgehog_db_opus.Storage.Pager.Opened.{opened}
use hedgehog_db_opus.Storage.Pager.Stored.{
  read_page-HasPage, HasPage-read_page, keep_page, Apart-pages,
}
use hedgehog_db_opus.Storage.Pager.Stored.{length-covered}

module _ (crc : Crc) where
  length-serialize_header : (h : FileHeader) → length (serialize_header crc h) ≡ page_size
  unfolding serialize_header
  length-serialize_header h =
      let zero_byte : ℕ = 0 in
      let c = covered h in
      let sum = le_bytes 4 (crc.update 0 c) in
      omega (
        arith,
        length-append c (sum ++ replicate (page_size - 36) zero_byte),
        length-append sum (replicate (page_size - 36) zero_byte),
        length-replicate (page_size - 36) zero_byte,
        length-le_bytes 4 (crc.update 0 c),
        length-covered h,
      )

  -- The file starts with the header, whose fields fit, and is long enough for all its pages.
  pub record IsPager (p : Pager) : Type 0 where
    pub stored : Holds p.file 0 (serialize_header crc p.header)
    pub fits : IsHeader crc p.header
    pub whole : p.header.total_pages * page_size ≤ length p.file
    pub started : 0 < p.header.total_pages

  fits_all :
      (n : ℕ) (bs file : List ℕ) (off : ℕ)
      → 0 < length bs
      → n ≤ length file
      → n ≤ length (write_file_at off bs file)
  fits_all n bs file off some_bytes h =
      ground (arith, length-write_file_at off bs file some_bytes, h)

  reaches :
      (off : ℕ) (bs file : List ℕ)
      → 0 < length bs
      → off + length bs ≤ length (write_file_at off bs file)
  reaches off bs file some_bytes = ground (arith, length-write_file_at off bs file some_bytes)

  -- A header that fits is stored, and the pages are kept.
  write_header_page-IsPager :
      (file : List ℕ) (h : FileHeader)
      → IsHeader crc h
      → h.total_pages * page_size ≤ length file
      → 0 < h.total_pages
      → IsPager (write_header_page crc (record { file = file; header = h }))
  unfolding write_header_page
  write_header_page-IsPager file h fits whole started =
      let long = length-serialize_header h in
      record {
        stored = Holds-write_file_at 0 (serialize_header crc h) file;
        fits = fits;
        whole =
            fits_all (h.total_pages * page_size) (serialize_header crc h) file 0
              (omega (arith, long)) whole;
        started = started;
      }

  read_page-write_header_page :
      (p : Pager) (h : FileHeader) (id : ℕ) (page : Page)
      → read_page id p ≡ some page
      → read_page id (write_header_page crc (record { file = p.file; header = h })) ≡ some page
  unfolding write_header_page
  read_page-write_header_page p h id page q =
      let (pos, rest, same) = HasPage-read_page p id page q in
      keep_page p (write_header_page crc (record { file = p.file; header = h })) id 0
        (serialize_header crc h) refl (inr (omega (arith, pos, length-serialize_header h))) page q

  read_header_page-IsPager : (p : Pager) → IsPager p → read_header_page crc p.file ≡ opened p
  unfolding read_header_page parse_header
  read_header_page-IsPager p w =
      let long = length-serialize_header p.header in
      let read : read_file_at 0 page_size p.file ≡ some (serialize_header crc p.header) =
        rw long at (
          read_file_at-Holds 0 (serialize_header crc p.header) p.file (omega (arith, long))
            w.stored) in
      rw (read_header_page, read, deserialize_header-serialize_header crc p.header w.fits) refl

  -- A file that a pager has left opens as that pager: with its header and its pages.
  open_pager-IsPager : (p : Pager) → IsPager p → open_pager crc p.file ≡ opened p
  unfolding open_pager
  open_pager-IsPager p w =
      let used : (length p.file == 0) ≡ false = ground (arith, w.whole, w.started) in
      rw (used, read_header_page-IsPager p w) refl

  pub empty_file-IsPager :
      IsPager (write_header_page crc (record { file = []; header = new_file_header }))
  unfolding write_header_page new_file_header
  empty_file-IsPager =
      let h = new_file_header in
      let long = length-serialize_header h in
      record {
        stored = Holds-write_file_at 0 (serialize_header crc h) [];
        fits = (omega arith, omega arith, omega arith, omega arith, omega arith);
        whole =
            ground (
              arith,
              length-write_file_at 0 (serialize_header crc h) [] (omega (arith, long)),
              long,
            );
        started = omega arith;
      }

  -- A page that is written is read back, and all other pages are kept.
  pub read_page-write_page :
      (p : Pager) (page : Page)
      → IsPager p
      → 0 < page.id
      → length page.bytes ≡ page_size
      → (p' : Pager) × (write_page page p ≡ some (clean_page page.id page.bytes, p'))
        × IsPager p'
        × (p'.header ≡ p.header)
        × (read_page page.id p' ≡ some (clean_page page.id page.bytes))
        × ((id : ℕ) (other : Page)
            → id ≢ page.id
            → read_page id p ≡ some other
            → read_page id p' ≡ some other)
  unfolding write_page
  read_page-write_page p page w pos size =
      let p' : Pager = record {
        file = write_file_at (page.id * page_size) page.bytes p.file;
        header = p.header;
      } in
      let data_page : (page.id == 0) ≡ false = ground (arith, pos) in
      (
        p',
        rw data_page refl,
        record {
          stored =
              Holds-keep_write 0 (serialize_header crc p.header) (page.id * page_size) page.bytes
                p.file (inl (omega (arith, pos, length-serialize_header p.header))) w.stored;
          fits = w.fits;
          whole =
              fits_all (p.header.total_pages * page_size) page.bytes p.file (page.id * page_size)
                (omega (arith, size)) w.whole;
          started = w.started;
        },
        refl,
        read_page-HasPage p' page.id page.bytes pos
            (Holds-write_file_at (page.id * page_size) page.bytes p.file, size),
        λ id other distinct q.
            keep_page p p' id (page.id * page_size) page.bytes refl
              (rw size (Apart-pages id page.id distinct)) other q,
      )

  -- A new page gets the number that the header counts to, and its zeros are read. All other pages are
  -- kept, and the header counts one page more. The file must hold fewer than 2^32 - 1 pages.
  pub read_page-allocate_page :
      (p : Pager)
      → IsPager p
      → p.header.total_pages + 1 < 2 ^ 32
      → ((allocate_page crc p).0 ≡ p.header.total_pages)
        × IsPager (allocate_page crc p).1
        × ((allocate_page crc p).1.header.total_pages ≡ p.header.total_pages + 1)
        × ((allocate_page crc p).1.header.free_list_head ≡ p.header.free_list_head)
        × (read_page p.header.total_pages (allocate_page crc p).1
            ≡ some (clean_page p.header.total_pages (replicate page_size 0)))
        × ((id : ℕ) (other : Page)
            → id ≢ p.header.total_pages
            → read_page id p ≡ some other
            → read_page id (allocate_page crc p).1 ≡ some other)
  unfolding allocate_page write_header_page
  read_page-allocate_page p w room =
      let zero_byte : ℕ = 0 in
      let zeros = replicate page_size zero_byte in
      let n = p.header.total_pages in
      let long : length zeros ≡ page_size = length-replicate page_size zero_byte in
      let extended : Pager = record {
        file = write_file_at (n * page_size) zeros p.file;
        header = p.header;
      } in
      let no_wrap : (n + 1) % 2 ^ 32 ≡ n + 1 = omega (arith, room) in
      let here : read_page n extended ≡ some (clean_page n zeros) =
        read_page-HasPage extended n zeros w.started
          (Holds-write_file_at (n * page_size) zeros p.file, long) in
      (
        refl,
        write_header_page-IsPager extended.file _
            (let (hv, hr, ht, hf, hw) = w.fits in (hv, hr, omega (arith, room), hf, hw))
            (omega
              (arith, no_wrap, long, reaches (n * page_size) zeros p.file (omega (arith, long))))
            (omega (arith, no_wrap)),
        no_wrap,
        refl,
        read_page-write_header_page extended _ n (clean_page n zeros) here,
        λ id other distinct q. read_page-write_header_page extended _ id other (
            keep_page p extended id (n * page_size) zeros refl (rw long (Apart-pages id n distinct))
              other q),
      )

  -- What a change of the header keeps, where the count of the pages stays.
  header_change :
      (p : Pager) (h : FileHeader)
      → IsPager p
      → IsHeader crc h
      → h.total_pages ≡ p.header.total_pages
      → IsPager (write_header_page crc (record { file = p.file; header = h }))
        × ((id : ℕ) (page : Page)
            → read_page id p ≡ some page
            → read_page id (write_header_page crc (record { file = p.file; header = h }))
              ≡ some page)
  header_change p h w fits same = (
    write_header_page-IsPager p.file h fits (omega (arith, same, w.whole))
        (omega (arith, same, w.started)),
    λ id page q. read_page-write_header_page p h id page q,
  )

  -- Setting the head of the free list stores it, counts no page and keeps all pages.
  pub set_free_list_head-IsPager :
      (id : ℕ) (p : Pager)
      → IsPager p
      → id < 2 ^ 32
      → IsPager (set_free_list_head crc id p)
        × ((set_free_list_head crc id p).header.free_list_head ≡ id)
        × ((set_free_list_head crc id p).header.total_pages ≡ p.header.total_pages)
        × ((other : ℕ) (page : Page)
            → read_page other p ≡ some page
            → read_page other (set_free_list_head crc id p) ≡ some page)
  unfolding set_free_list_head write_header_page
  set_free_list_head-IsPager id p w small =
      let (hv, hr, ht, hf, hw) = w.fits in
      let (inv, kept) = header_change p _ w (hv, hr, ht, small, hw) refl in (inv, refl, refl, kept)

  -- A root page that is set is the root page of the file when it is opened again, and all pages are
  -- kept.
  pub open_pager-set_root_page_id :
      (id : ℕ) (p : Pager)
      → IsPager p
      → id < 2 ^ 32
      → (open_pager crc (set_root_page_id crc id p).file ≡ opened (set_root_page_id crc id p))
        × ((set_root_page_id crc id p).header.root_page_id ≡ id)
        × ((other : ℕ) (page : Page)
            → read_page other p ≡ some page
            → read_page other (set_root_page_id crc id p) ≡ some page)
  unfolding set_root_page_id write_header_page
  open_pager-set_root_page_id id p w small =
      let (hv, hr, ht, hf, hw) = w.fits in
      let (inv, kept) = header_change p _ w (hv, small, ht, hf, hw) refl in
      (open_pager-IsPager _ inv, refl, kept)

  -- The same of the LSN of the log.
  open_pager-update_wal_lsn :
      (lsn : ℕ) (p : Pager)
      → IsPager p
      → lsn < 2 ^ 64
      → (open_pager crc (update_wal_lsn crc lsn p).file ≡ opened (update_wal_lsn crc lsn p))
        × ((update_wal_lsn crc lsn p).header.wal_lsn ≡ lsn)
        × ((other : ℕ) (page : Page)
            → read_page other p ≡ some page
            → read_page other (update_wal_lsn crc lsn p) ≡ some page)
  unfolding update_wal_lsn write_header_page
  open_pager-update_wal_lsn lsn p w small =
      let (hv, hr, ht, hf, hw) = w.fits in
      let (inv, kept) = header_change p _ w (hv, hr, ht, hf, small) refl in
      (open_pager-IsPager _ inv, refl, kept)
