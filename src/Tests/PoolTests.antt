-- ===== src/Tests/PoolTests.antt =====
-- internal/storage/pager.go, freelist.go and bufferpool.go: a new file, and a shard with one dirty page.
use hedgehog_db_opus.Base.{ℕ, ◌+◌, ◌<◌, ◌≡◌, ◌≢◌, refl, arith, inl, length-replicate}
use hedgehog_db_opus.Base.{true, some, List, [], ◌∷◌, replicate, length, All, nat_keys}
use hedgehog_db_opus.Base.GoMap.{lookup}
use hedgehog_db_opus.Storage.FileHeader.{page_size, new_file_header}
use hedgehog_db_opus.Storage.Page.{Page}
use hedgehog_db_opus.Storage.Pager.{Pager, clean_page, read_page, write_header_page}
use hedgehog_db_opus.Storage.Pager.{open_pager, allocate_page, set_root_page_id}
use hedgehog_db_opus.Storage.Pager.Opened.{opened}
use hedgehog_db_opus.Storage.Pager.Pages.{IsPager, empty_file-IsPager, open_pager-set_root_page_id}
use hedgehog_db_opus.Storage.Pager.Pages.{read_page-allocate_page}
use hedgehog_db_opus.Storage.FreeList.Reuse.{Reuses, allocate_free_page-free_page}
use hedgehog_db_opus.Storage.BufferPool.{Shard, evict, fetch_page, make_room, flush_entries}
use hedgehog_db_opus.Storage.BufferPool.{flush_page, unpin, add_new_page, new_buffer_pool}
use hedgehog_db_opus.Storage.BufferPool.Eviction.{
  IsCoherent, Evicted, evict-IsCoherent, disk, view, page_of,
}
use hedgehog_db_opus.Storage.BufferPool.Eviction.{dirty-IsCoherent, view-cached}
use hedgehog_db_opus.Storage.BufferPool.Fetch.{FetchResult, fetch_page-IsStep}
use hedgehog_db_opus.Storage.BufferPool.Flush.{flush_entries-disk, flush_page-add_new_page}
use hedgehog_db_opus.Storage.BufferPool.Capacity.{total_cap, new_buffer_pool-total_cap}
use hedgehog_db_opus.Tests.Fixtures.{sum_crc}

abbrev new_pager : Pager
new_pager = write_header_page sum_crc (record { file = []; header = new_file_header })

new_pager_pages : new_pager.header.total_pages ≡ 1
unfolding write_header_page new_file_header
new_pager_pages = refl

new_pager_list : new_pager.header.free_list_head ≡ 0
unfolding write_header_page new_file_header
new_pager_list = refl

abbrev sevens : List ℕ
sevens = replicate page_size 7

open_pager-set_root_page_id_example :
    (open_pager sum_crc (set_root_page_id sum_crc 5 new_pager).file
      ≡ opened (set_root_page_id sum_crc 5 new_pager))
    × ((set_root_page_id sum_crc 5 new_pager).header.root_page_id ≡ 5)
    × ((other : ℕ) (page : Page)
        → read_page other new_pager ≡ some page
        → read_page other (set_root_page_id sum_crc 5 new_pager) ≡ some page)
open_pager-set_root_page_id_example =
    open_pager-set_root_page_id sum_crc 5 new_pager (empty_file-IsPager sum_crc) (omega arith)

read_page-allocate_page_example :
    ((allocate_page sum_crc new_pager).0 ≡ new_pager.header.total_pages)
    × IsPager sum_crc (allocate_page sum_crc new_pager).1
    × ((allocate_page sum_crc new_pager).1.header.total_pages ≡ new_pager.header.total_pages + 1)
    × ((allocate_page sum_crc new_pager).1.header.free_list_head ≡ new_pager.header.free_list_head)
    × (read_page new_pager.header.total_pages (allocate_page sum_crc new_pager).1
        ≡ some (clean_page new_pager.header.total_pages (replicate page_size 0)))
    × ((id : ℕ) (other : Page)
        → id ≢ new_pager.header.total_pages
        → read_page id new_pager ≡ some other
        → read_page id (allocate_page sum_crc new_pager).1 ≡ some other)
read_page-allocate_page_example =
    read_page-allocate_page sum_crc new_pager (empty_file-IsPager sum_crc)
      (omega (arith, new_pager_pages))

allocate_free_page-free_page_example : Reuses sum_crc new_pager 4
allocate_free_page-free_page_example =
    allocate_free_page-free_page sum_crc new_pager 4 (empty_file-IsPager sum_crc) (omega arith)
      (omega (arith, new_pager_pages)) (inl new_pager_list)

-- A full shard with a dirty page that is not pinned.
abbrev one_dirty : Shard
one_dirty = record {
  entries = (3, record { page = page_of 3 sevens true; pin_count = 0 }) ∷ [];
  cap = 1;
}

one_dirty-IsCoherent : IsCoherent sum_crc one_dirty new_pager
one_dirty-IsCoherent =
    dirty-IsCoherent sum_crc new_pager 3 0 1 sevens (empty_file-IsPager sum_crc) (omega arith)
      (omega arith) (length-replicate {A = ℕ} page_size 7)

evict-IsCoherent_example : Evicted sum_crc one_dirty new_pager (evict one_dirty new_pager)
evict-IsCoherent_example = evict-IsCoherent sum_crc one_dirty new_pager one_dirty-IsCoherent

cached_three :
    lookup 3 one_dirty.entries ≡ some (record { page = page_of 3 sevens true; pin_count = 0 })
unfolding lookup
cached_three = refl

shown_three : view 3 one_dirty new_pager ≡ some sevens
shown_three = view-cached sum_crc 3 one_dirty new_pager _ cached_three

fetch_page-IsStep_example :
    FetchResult sum_crc 3 sevens one_dirty new_pager (fetch_page 3 one_dirty new_pager)
fetch_page-IsStep_example =
    fetch_page-IsStep sum_crc one_dirty new_pager 3 sevens one_dirty-IsCoherent (omega arith)
      shown_three

flush_entries-disk_example :
    ((flush_entries one_dirty.entries new_pager).0 ≡ true)
    × IsPager sum_crc (flush_entries one_dirty.entries new_pager).1.1
    × ((id : ℕ) (bytes : List ℕ)
        → view id one_dirty new_pager ≡ some bytes
        → disk id (flush_entries one_dirty.entries new_pager).1.1 ≡ some bytes)
flush_entries-disk_example = flush_entries-disk sum_crc one_dirty new_pager one_dirty-IsCoherent

abbrev empty_shard : Shard
empty_shard = record { entries = []; cap = 1 }

empty_shard_room : (make_room empty_shard new_pager).0 ≡ true
unfolding make_room
empty_shard_room = refl

flush_page-add_new_page_example :
    (flush_page 1
      (unpin 1 (add_new_page 1 2 empty_shard new_pager).1.0)
      (add_new_page 1 2 empty_shard new_pager).1.1).1.1
    ≡ (make_room empty_shard new_pager).1.1
flush_page-add_new_page_example = flush_page-add_new_page 1 2 empty_shard new_pager empty_shard_room

new_buffer_pool-total_cap_example :
    (total_cap (new_buffer_pool 100) ≡ 100)
    × (length (new_buffer_pool 100) ≡ 16)
    × All (λ (s : Shard). 0 < s.cap) (new_buffer_pool 100)
new_buffer_pool-total_cap_example = new_buffer_pool-total_cap 100
