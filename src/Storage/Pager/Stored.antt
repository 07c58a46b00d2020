-- ===== src/Storage/Pager/Stored.antt =====
-- internal/storage/pager.go: the pages in the bytes of a file. A page is read as it stands there, and a
-- write that does not meet a page keeps it.
use hedgehog_db_opus.Base.{ℕ, ◌*◌, ◌<◌, ◌≡◌, ◌≢◌, refl, ap, sym, ◌∙◌, arith, inl, inr}
use hedgehog_db_opus.Base.{false, Option, none, some, List, Bool-cases, ltb}
use hedgehog_db_opus.Base.{length, nat_keys, ◌==◌}
use hedgehog_db_opus.Base.Bytes.{length-le_bytes}
use hedgehog_db_opus.Base.Buffer.{Holds, Apart}
use hedgehog_db_opus.Base.File.{write_file_at, read_file_at}
use hedgehog_db_opus.Base.File.{Holds-keep_write, read_file_at-Holds, Holds-read_file_at}
use hedgehog_db_opus.Base.GoMap.{value_or}
use mathlib.Core.Path.{subst}
use hedgehog_db_opus.Storage.FileHeader.{page_size, FileHeader, covered}
use hedgehog_db_opus.Storage.Page.{Page}
use hedgehog_db_opus.Storage.Pager.{Pager, clean_page, read_page}

-- The bytes of a page are read at its place.
abbrev pub HasPage : List ℕ → ℕ → List ℕ → Type 0
HasPage file id bytes = Holds file (id * page_size) bytes × (length bytes ≡ page_size)

pub read_page-HasPage :
    (p : Pager) (id : ℕ) (bytes : List ℕ)
    → 0 < id
    → HasPage p.file id bytes
    → read_page id p ≡ some (clean_page id bytes)
unfolding read_page
read_page-HasPage p id bytes pos (h, size) =
    let other : (id == 0) ≡ false = ground (arith, pos) in
    let read : read_file_at (id * page_size) page_size p.file ≡ some bytes =
      rw size at (read_file_at-Holds (id * page_size) bytes p.file (omega (arith, size)) h) in
    rw (other, read) refl

HasPage-bytes :
    (p : Pager) (id : ℕ) (page : Page) (read : Option (List ℕ))
    → read_file_at (id * page_size) page_size p.file ≡ read
    → read_page id p ≡ some page
    → (0 < id) × HasPage p.file id page.bytes × (page ≡ clean_page id page.bytes)
unfolding read_page
HasPage-bytes p id page none r q = elim (Bool-cases (id == 0)) [
  | inl t ↦ let bad : none ≡ some page = rw t at q in absurd (cc bad)
  | inr f ↦ let bad : none ≡ some page = rw (f, r) at q in absurd (cc bad)
]
HasPage-bytes p id page (some bytes) r q = elim (Bool-cases (id == 0)) [
  | inl t ↦ let bad : none ≡ some page = rw t at q in absurd (cc bad)
  | inr f ↦
      let is_page : some (clean_page id bytes) ≡ some page = rw (f, r) at q in
      let same : clean_page id bytes ≡ page = ap (value_or page) is_page in
      subst (λ (o : Page). (0 < id) × HasPage p.file id o.bytes × (o ≡ clean_page id o.bytes)) same
        (ground arith, Holds-read_file_at (id * page_size) page_size bytes p.file r, refl)
]

pub HasPage-read_page :
    (p : Pager) (id : ℕ) (page : Page)
    → read_page id p ≡ some page
    → (0 < id) × HasPage p.file id page.bytes × (page ≡ clean_page id page.bytes)
HasPage-read_page p id page q =
    HasPage-bytes p id page (read_file_at (id * page_size) page_size p.file) refl q

-- Writes that do not meet the page keep it.
pub keep_page :
    (p p' : Pager) (id off : ℕ) (bs : List ℕ)
    → p'.file ≡ write_file_at off bs p.file
    → Apart (id * page_size) page_size off (length bs)
    → (page : Page) → read_page id p ≡ some page
    → read_page id p' ≡ some page
keep_page p p' id off bs written apart page q =
    let (pos, (h, size), same) = HasPage-read_page p id page q in
    let kept : Holds p'.file (id * page_size) page.bytes =
      rw written (Holds-keep_write (id * page_size) page.bytes off bs p.file (rw size apart) h) in
    read_page-HasPage p' id page.bytes pos (kept, size) ∙ ap some (sym same)

pub Apart-pages : (a b : ℕ) → a ≢ b → Apart (a * page_size) page_size (b * page_size) page_size
Apart-pages a b other = elim (Bool-cases (ltb a b)) [
  | inl t ↦ let less : a < b = ground arith in inl (omega (arith, less))
  | inr f ↦ let less : b < a = ground arith in inr (omega (arith, less))
]

pub length-covered : (h : FileHeader) → length (covered h) ≡ 32
unfolding covered
length-covered h = omega (
  arith,
  length-le_bytes 4 h.version,
  length-le_bytes 4 h.root_page_id,
  length-le_bytes 4 h.total_pages,
  length-le_bytes 4 h.free_list_head,
  length-le_bytes 8 h.wal_lsn,
)
