-- ===== src/Storage/FreeList/Reuse.antt =====
-- internal/storage/freelist.go: a page that is freed is the next to be allocated.
use hedgehog_db_opus.Base.{ℕ, ◌+◌, ◌-◌, ◌^◌, ◌<◌, ◌≡◌, refl, ap, sym, ◌∙◌, arith, inl, inr, ◌⊎◌}
use hedgehog_db_opus.Base.{true, false, some, List, length, Bool-cases, ltb, nat_keys, ◌==◌}
use hedgehog_db_opus.Base.Bytes.{le_bytes, length-le_bytes}
use hedgehog_db_opus.Base.Buffer.{
  get_le, put_le, Holds-put_le, Holds-keep_put, get_le-Holds, length-copy_at,
}
use hedgehog_db_opus.Storage.FileHeader.{page_size, FileHeader}
use mathlib.Core.Path.{subst}
use hedgehog_db_opus.Storage.Page.Contents.{new_page-IsFilled}
use hedgehog_db_opus.Storage.Page.{Page, new_page, page_type_free_list}
use hedgehog_db_opus.Storage.Wal.{Crc}
use hedgehog_db_opus.Storage.Pager.{
  Pager, clean_page, read_page, write_page, allocate_page, set_free_list_head,
}
use hedgehog_db_opus.Storage.Pager.Stored.{HasPage-read_page}
use hedgehog_db_opus.Storage.Pager.Pages.{IsPager, read_page-write_page, read_page-allocate_page}
use hedgehog_db_opus.Storage.Pager.Pages.{set_free_list_head-IsPager}
use hedgehog_db_opus.Storage.FreeList.{max_free_list_entries, entry_count, entry_offset}
use hedgehog_db_opus.Storage.FreeList.{push_entry, pop_entry, dirty_page, first_list_page}
use hedgehog_db_opus.Storage.FreeList.{allocate_from, allocate_free_page, free_into_new, free_page}

length-push_entry :
    (page_id : ℕ) (bytes : List ℕ) → length (push_entry page_id bytes) ≡ length bytes
unfolding push_entry
length-push_entry page_id bytes =
    length-copy_at 1 (le_bytes 2 (entry_count bytes + 1)) _
    ∙ length-copy_at (entry_offset (entry_count bytes)) (le_bytes 4 page_id) bytes

-- The entry that was added is the last, and the count is one more.
push_entry_lem :
    (page_id : ℕ) (bytes : List ℕ)
    → length bytes ≡ page_size
    → entry_count bytes < max_free_list_entries
    → page_id < 2 ^ 32
    → (entry_count (push_entry page_id bytes) ≡ entry_count bytes + 1)
      × (get_le 4 (entry_offset (entry_count bytes)) (push_entry page_id bytes) ≡ page_id)
unfolding push_entry
push_entry_lem page_id bytes long room small =
    let n = entry_count bytes in
    let d = put_le 4 (entry_offset n) page_id bytes in
    let l : length d ≡ page_size =
      length-copy_at (entry_offset n) (le_bytes 4 page_id) bytes ∙ long in
    (
      get_le-Holds 2 (n + 1) 1 _ (omega (arith, room))
          (Holds-put_le 2 1 (n + 1) d (omega (arith, l))),
      get_le-Holds 4 page_id (entry_offset n) _ small (
          Holds-keep_put (entry_offset n) (le_bytes 4 page_id) 2 1 (n + 1) d (inr (omega arith))
            (Holds-put_le 4 (entry_offset n) page_id bytes (omega (arith, long, room)))),
    )

first_list_page_lem :
    (new_id head page_id : ℕ)
    → page_id < 2 ^ 32
    → (length (first_list_page new_id head page_id).bytes ≡ page_size)
      × (entry_count (first_list_page new_id head page_id).bytes ≡ 1)
      × (get_le 4 (entry_offset 0) (first_list_page new_id head page_id).bytes ≡ page_id)
unfolding first_list_page
first_list_page_lem new_id head page_id small =
    let d0 = (new_page new_id page_type_free_list).bytes in
    let d1 = put_le 1 0 page_type_free_list d0 in
    let d2 = put_le 2 1 1 d1 in
    let d3 = put_le 4 3 head d2 in
    let l2 : length d2 ≡ page_size =
      length-copy_at 1 (le_bytes 2 1) d1
      ∙ length-copy_at 0 (le_bytes 1 page_type_free_list) d0
      ∙ (new_page-IsFilled (λ (e : List ℕ). e) new_id page_type_free_list).slotted.long in
    let l1 : length d1 ≡ page_size = sym (length-copy_at 1 (le_bytes 2 1) d1) ∙ l2 in
    let l3 : length d3 ≡ page_size = length-copy_at 3 (le_bytes 4 head) d2 ∙ l2 in
    let b2 = length-le_bytes 2 1 in
    (
      length-copy_at 7 (le_bytes 4 page_id) d3 ∙ l3,
      get_le-Holds 2 1 1 _ (omega arith) (
          Holds-keep_put 1 (le_bytes 2 1) 4 7 page_id d3 (inl (omega (arith, b2))) (
            Holds-keep_put 1 (le_bytes 2 1) 4 3 head d2 (inl (omega (arith, b2)))
              (Holds-put_le 2 1 1 d1 (omega (arith, l1))))),
      get_le-Holds 4 page_id 7 _ small (Holds-put_le 4 7 page_id d3 (omega (arith, l3))),
    )

length-pop_entry : (bytes : List ℕ) → length (pop_entry bytes) ≡ length bytes
unfolding pop_entry
length-pop_entry bytes = length-copy_at 1 (le_bytes 2 (entry_count bytes - 1)) bytes

module _ (crc : Crc) where
  -- The page is freed, and then allocated.
  abbrev pub Reuses : Pager → ℕ → Type 0
  Reuses p page_id =
      (p' p'' : Pager) × (free_page crc page_id p ≡ some p')
      × IsPager crc p'
      × (allocate_free_page crc p' ≡ some (page_id, p''))
      × IsPager crc p''

  -- An allocation takes the last entry of the head page.
  allocate_head :
      (p : Pager) (n : ℕ) (bytes : List ℕ)
      → IsPager crc p
      → 0 < p.header.free_list_head
      → read_page p.header.free_list_head p ≡ some (clean_page p.header.free_list_head bytes)
      → length bytes ≡ page_size
      → entry_count bytes ≡ n + 1
      → (p' : Pager) × (allocate_free_page crc p ≡ some (get_le 4 (entry_offset n) bytes, p'))
        × IsPager crc p'
  unfolding allocate_free_page allocate_from
  allocate_head p n bytes w pos read long count =
      let size : length (pop_entry bytes) ≡ page_size = length-pop_entry bytes ∙ long in
      let (p', done, inv, same, back, rest) =
        read_page-write_page crc p (dirty_page p.header.free_list_head (pop_entry bytes)) w pos
          size in
      let listed : (p.header.free_list_head == 0) ≡ false = ground (arith, pos) in
      let more : (entry_count bytes == 0) ≡ false = ground (arith, count) in
      let last : entry_count bytes - 1 ≡ n = omega (arith, count) in
      (p', rw (listed, read, more, done, last) refl, inv)

  allocate_top :
      (p : Pager) (head n : ℕ) (bytes : List ℕ)
      → IsPager crc p
      → p.header.free_list_head ≡ head
      → 0 < head
      → read_page head p ≡ some (clean_page head bytes)
      → length bytes ≡ page_size
      → entry_count bytes ≡ n + 1
      → (p' : Pager) × (allocate_free_page crc p ≡ some (get_le 4 (entry_offset n) bytes, p'))
        × IsPager crc p'
  allocate_top p head n bytes w at pos read long count =
      allocate_head p n bytes w (omega (arith, at, pos))
        (subst (λ h. read_page h p ≡ some (clean_page h bytes)) (sym at) read) long count

  -- A page that is freed into the head page.
  reuse_entry :
      (p : Pager) (page_id : ℕ) (bytes : List ℕ)
      → IsPager crc p
      → page_id < 2 ^ 32
      → 0 < p.header.free_list_head
      → read_page p.header.free_list_head p ≡ some (clean_page p.header.free_list_head bytes)
      → length bytes ≡ page_size
      → entry_count bytes < max_free_list_entries
      → Reuses p page_id
  unfolding free_page
  reuse_entry p page_id bytes w small pos read long room =
      let head = p.header.free_list_head in
      let size = length-push_entry page_id bytes ∙ long in
      let (count, entry) = push_entry_lem page_id bytes long room small in
      let (p', done, inv, same, back, rest) =
        read_page-write_page crc p (dirty_page head (push_entry page_id bytes)) w pos size in
      let (p'', got, inv') =
        allocate_top p' head (entry_count bytes) (push_entry page_id bytes) inv
          (ap (λ (h : FileHeader). h.free_list_head) same) pos back size count in
      let listed : (head == 0) ≡ false = ground (arith, pos) in
      let space : ltb (entry_count bytes) max_free_list_entries ≡ true = ground (arith, room) in
      (
        p',
        p'',
        rw (listed, read, space, done) refl,
        inv,
        got ∙ ap (λ id. some (id, p'')) entry,
        inv',
      )

  free_into_new_lem :
      (p p1 : Pager) (page_id n : ℕ) (page : Page)
      → (allocate_page crc p).0 ≡ n
      → write_page (first_list_page n p.header.free_list_head page_id) (allocate_page crc p).1
        ≡ some (page, p1)
      → free_into_new crc page_id p ≡ some (set_free_list_head crc n p1)
  unfolding free_into_new
  free_into_new_lem p p1 page_id n page e done =
      rw (free_into_new, e, done) (ap (λ i. some (set_free_list_head crc i p1)) e)

  -- A page that is freed into a new page of the list.
  reuse_new :
      (p : Pager) (page_id : ℕ)
      → IsPager crc p
      → page_id < 2 ^ 32
      → p.header.total_pages + 1 < 2 ^ 32
      → (p' p'' : Pager) × (free_into_new crc page_id p ≡ some p')
        × IsPager crc p'
        × (allocate_free_page crc p' ≡ some (page_id, p''))
        × IsPager crc p''
  unfolding first_list_page
  reuse_new p page_id w small room =
      let n = p.header.total_pages in
      let (id_lem, inv1, more, head1, zeros, kept) = read_page-allocate_page crc p w room in
      let extended = (allocate_page crc p).1 in
      let first = first_list_page n p.header.free_list_head page_id in
      let (size, count, entry) = first_list_page_lem n p.header.free_list_head page_id small in
      let (p1, done, inv2, same, back, rest) =
        read_page-write_page crc extended first inv1 w.started size in
      let (inv3, head3, total3, kept3) =
        set_free_list_head-IsPager crc n p1 inv2 (omega (arith, room)) in
      let p' = set_free_list_head crc n p1 in
      let (p'', got, inv4) =
        allocate_top p' n 0 first.bytes inv3 head3 w.started (kept3 n _ back) size count in
      (
        p',
        p'',
        free_into_new_lem p p1 page_id n _ id_lem done,
        inv3,
        got ∙ ap (λ id. some (id, p'')) entry,
        inv4,
      )

  -- A page that is freed is the next to be allocated, and the file is that of a pager after both. The
  -- head page of the list must be readable, and the file hold fewer than 2^32 - 1 pages.
  pub allocate_free_page-free_page :
      (p : Pager) (page_id : ℕ)
      → IsPager crc p
      → page_id < 2 ^ 32
      → p.header.total_pages + 1 < 2 ^ 32
      → (p.header.free_list_head ≡ 0)
        ⊎ ((page : Page) × (read_page p.header.free_list_head p ≡ some page))
      → Reuses p page_id
  unfolding free_page
  allocate_free_page-free_page p page_id w small room (inl empty) =
      let (p', p'', freed, inv, got, inv') = reuse_new p page_id w small room in
      let unlisted : (p.header.free_list_head == 0) ≡ true = ground (arith, empty) in
      (p', p'', rw unlisted freed, inv, got, inv')
  allocate_free_page-free_page p page_id w small room (inr (page, read)) =
      let (pos, (h, long), same) = HasPage-read_page p p.header.free_list_head page read in
      elim (Bool-cases (ltb (entry_count page.bytes) max_free_list_entries)) [
        | inl t ↦
            reuse_entry p page_id page.bytes w small pos (read ∙ ap some same) long (ground arith)
        | inr f ↦
            let (p', p'', freed, inv, got, inv') = reuse_new p page_id w small room in
            let listed : (p.header.free_list_head == 0) ≡ false = ground (arith, pos) in
            (p', p'', rw (listed, read, f) freed, inv, got, inv')
      ]
