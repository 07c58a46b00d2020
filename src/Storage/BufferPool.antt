-- ===== src/Storage/BufferPool.antt =====
-- internal/storage/bufferpool.go: the page cache. A shard keeps its pages in one list, the most
-- recently used first, which is both its map and its doubly linked list: the two have the same
-- entries. A page is shared with the callers that hold it pinned; a write of theirs is `update_page`.
-- Calls come one after another. In the source FlushPage, FlushAll, flushDirtyPages and FreePage give up
-- the lock of the shard before they write to the file or free the page; here the look-up and the write
-- are one step, so that what another goroutine does between the two is not modelled.
pub mod Eviction
pub mod Room
pub mod Fetch
pub mod Flush
pub mod Capacity
use hedgehog_db_opus.Base.{
  ℕ, zero, suc, ◌+◌, ◌-◌, ◌*◌, ◌/◌, ◌%◌, Bool, true, false, not, ◌&&◌, Option, none, some,
}
use hedgehog_db_opus.Base.{List, [], ◌∷◌, length, nat_keys, ltb, leb, ◌==◌, if◌then◌else◌}
use hedgehog_db_opus.Base.GoMap.{GoMap, lookup, delete, insert}
use hedgehog_db_opus.Storage.FileHeader.{page_size}
use hedgehog_db_opus.Storage.Page.{Page, new_page}
use hedgehog_db_opus.Storage.Pager.{Pager, read_page, write_page}
use hedgehog_db_opus.Storage.FreeList.{allocate_free_page, dirty_page}
use hedgehog_db_opus.Storage.Wal.{Crc}

-- `bufferEntry`, less its links.
pub record BufferEntry : Type 0 where
  pub page : Page
  pub pin_count : ℕ

-- `bufferShard`
pub record Shard : Type 0 where
  pub entries : GoMap ℕ BufferEntry
  pub cap : ℕ

-- The entry that the loop of `evict` stops at, from the least recently used one on.
unfoldable pub victim : GoMap ℕ BufferEntry → Option (ℕ × BufferEntry)
victim [] = none
victim ((id, e) ∷ rest) = elim (victim rest) [
  | some found ↦ some found
  | none ↦ if e.pin_count == 0 then some (id, e) else none
]

-- The page is written if it is dirty. `none` is an error of the pager.
unfoldable pub flush_if_dirty : Page → Pager → Option (Page × Pager)
flush_if_dirty page p = if page.dirty then write_page page p else some (page, p)

-- Whether there is no error, with the shard and the pager.
unfoldable pub evict : Shard → Pager → Bool × (Shard × Pager)
evict s p = elim (victim s.entries) [
  | none ↦ (false, (s, p))
  | some found ↦ elim (flush_if_dirty found.1.page p) [
    | none ↦ (false, (s, p))
    | some written ↦ (true, (record { entries = delete found.0 s.entries; cap = s.cap }, written.1))
  ]
]

-- The eviction before a page is added, where the shard is full.
unfoldable pub make_room : Shard → Pager → Bool × (Shard × Pager)
make_room s p = if leb s.cap (length s.entries) then evict s p else (true, (s, p))

abbrev pub pin : BufferEntry → BufferEntry
pin e = record { page = e.page; pin_count = e.pin_count + 1 }

-- `pushFront` of an entry that is also put into the map.
abbrev pub push_front : ℕ → BufferEntry → Shard → Shard
push_front id e s = record { entries = (id, e) ∷ s.entries; cap = s.cap }

-- `FetchPage`, in the shard of the page.
unfoldable pub fetch_page : ℕ → Shard → Pager → Option Page × (Shard × Pager)
fetch_page id s p = elim (lookup id s.entries) [
  | some e ↦ (some e.page, (record { entries = (id, pin e) ∷ delete id s.entries; cap = s.cap }, p))
  | none ↦
      let (room, (s', p')) = make_room s p in
      if not room then (none, (s', p')) else elim (read_page id p') [
        | none ↦ (none, (s', p'))
        | some page ↦ (some page, (push_front id (record { page = page; pin_count = 1 }) s', p'))
      ]
]

-- The rest of `NewPage`, for the page that the free list gave.
unfoldable pub add_new_page : ℕ → ℕ → Shard → Pager → Option Page × (Shard × Pager)
add_new_page id page_type s p =
    let (room, (s', p')) = make_room s p in
    if not room then (none, (s', p')) else (
      some (new_page id page_type),
      (push_front id (record { page = new_page id page_type; pin_count = 1 }) s', p'),
    )

-- An entry is changed in its place.
abbrev pub change_entry : ℕ → (BufferEntry → BufferEntry) → Shard → Shard
change_entry id f s = elim (lookup id s.entries) [
  | none ↦ s
  | some e ↦ record { entries = insert id (f e) s.entries; cap = s.cap }
]

unfoldable pub unpin : ℕ → Shard → Shard
unpin id s = change_entry id (λ e. record { page = e.page; pin_count = e.pin_count - 1 }) s

unfoldable pub mark_dirty : ℕ → Shard → Shard
mark_dirty id s =
    change_entry id
      (λ e. record { page = dirty_page e.page.id e.page.bytes; pin_count = e.pin_count }) s

-- A caller that holds the page changes its bytes, by methods of `Page` that mark it dirty.
unfoldable pub update_page : ℕ → List ℕ → Shard → Shard
update_page id bytes s =
    change_entry id (λ e. record { page = dirty_page e.page.id bytes; pin_count = e.pin_count }) s

-- `FlushPage`: whether there is no error, with the shard and the pager.
unfoldable pub flush_page : ℕ → Shard → Pager → Bool × (Shard × Pager)
flush_page id s p = elim (lookup id s.entries) [
  | none ↦ (true, (s, p))
  | some e ↦ elim (flush_if_dirty e.page p) [
    | none ↦ (false, (s, p))
    | some written ↦ (
      true,
      (
        record {
          entries = insert id (record { page = written.0; pin_count = e.pin_count }) s.entries;
          cap = s.cap;
        },
        written.1,
      ),
    )
  ]
]

-- The part of `FlushAll` in a shard, in any order of its map. The first error ends it.
unfoldable pub flush_entries : GoMap ℕ BufferEntry → Pager → Bool × (GoMap ℕ BufferEntry × Pager)
flush_entries [] p = (true, ([], p))
flush_entries ((id, e) ∷ rest) p = elim (flush_if_dirty e.page p) [
  | none ↦ (false, ((id, e) ∷ rest, p))
  | some written ↦
      let (done, (rest', p')) = flush_entries rest written.1 in
      (done, ((id, record { page = written.0; pin_count = e.pin_count }) ∷ rest', p'))
]

-- `flushDirtyPages` in a shard: pinned pages are left, and errors are passed over.
unfoldable pub flush_dirty_entries : GoMap ℕ BufferEntry → Pager → GoMap ℕ BufferEntry × Pager
flush_dirty_entries [] p = ([], p)
flush_dirty_entries ((id, e) ∷ rest) p =
    elim (if e.pin_count == 0 then flush_if_dirty e.page p else none) [
      | none ↦ let (rest', p') = flush_dirty_entries rest p in ((id, e) ∷ rest', p')
      | some written ↦
          let (rest', p') = flush_dirty_entries rest written.1 in
          ((id, record { page = written.0; pin_count = e.pin_count }) ∷ rest', p')
    ]

unfoldable pub get_cached_page_data : ℕ → Shard → Option (List ℕ)
get_cached_page_data id s = elim (lookup id s.entries) [ none ↦ none | some e ↦ some e.page.bytes ]

-- The part of `FreePage` in the cache, before the page goes to the free list.
unfoldable pub drop_page : ℕ → Shard → Shard
drop_page id s = record { entries = delete id s.entries; cap = s.cap }

abbrev pub default_buffer_pool_size : ℕ
default_buffer_pool_size = 1024

abbrev pub default_shard_count : ℕ
default_shard_count = 16

-- `NewBufferPool`: the shards from the i-th on, `count` of them.
unfoldable pub new_shards : ℕ → ℕ → ℕ → ℕ → List Shard
new_shards per_shard remainder zero i = []
new_shards per_shard remainder (suc count) i =
    record { entries = []; cap = if ltb i remainder then per_shard + 1 else per_shard }
    ∷ new_shards per_shard remainder count (i + 1)

-- A capacity that is not positive, an int in Go, is 0 here.
unfoldable pub new_buffer_pool : ℕ → List Shard
new_buffer_pool capacity =
    let c = if capacity == 0 then default_buffer_pool_size else capacity in
    let n = if ltb c default_shard_count then c else default_shard_count in
    new_shards (c / n) (c % n) n 0
