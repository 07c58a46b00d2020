-- ===== src/Storage/BufferPool/Fetch.antt =====
-- internal/storage/bufferpool.go: a page that is fetched has the bytes that the cache shows.
use hedgehog_db_opus.Base.{ℕ, ◌≤◌, ◌<◌, ◌≡◌, ◌≢◌, refl, ap, sym, ◌∙◌, arith, inl, inr, ◌⊎◌}
use hedgehog_db_opus.Base.{Option, none, some, List, ◌∷◌, length, Bool-cases}
use hedgehog_db_opus.Base.{nat_keys}
use hedgehog_db_opus.Base.GoMap.{GoMap, lookup, delete, value_or}
use hedgehog_db_opus.Base.GoMap.Entries.{delete-Distinct}
use hedgehog_db_opus.Base.GoMap.Entries.{length-delete}
use hedgehog_db_opus.Storage.Page.{Page}
use hedgehog_db_opus.Storage.Wal.{Crc}
use hedgehog_db_opus.Storage.Pager.{Pager, clean_page, read_page}
use hedgehog_db_opus.Storage.Pager.Stored.{HasPage-read_page}
use hedgehog_db_opus.Storage.BufferPool.{BufferEntry, Shard, make_room, pin, fetch_page}
use hedgehog_db_opus.Storage.BufferPool.Eviction.{disk, view, IsCached, IsCoherent}
use hedgehog_db_opus.Storage.BufferPool.Eviction.{view-cached, view-disk, lookup-delete_other}
use hedgehog_db_opus.Storage.BufferPool.Eviction.{lookup-delete_self, disk-read_page}
use hedgehog_db_opus.Storage.BufferPool.Room.{IsStep, IsRoom, AllPinned, make_room-IsRoom, front}
use hedgehog_db_opus.Storage.BufferPool.Room.{front-IsCoherent, front_shows}

pub lookup_front :
    (id : ℕ) (e : BufferEntry) (m : GoMap ℕ BufferEntry) → lookup id ((id, e) ∷ m) ≡ some e
unfolding lookup
lookup_front id e m = ground arith

module _ (crc : Crc) where
  -- The page is given with these bytes, and pinned in the cache.
  abbrev pub Fetched : ℕ → List ℕ → Option Page × (Shard × Pager) → Type 0
  Fetched id bytes (result, (s', p')) =
      (page : Page) × (result ≡ some page)
      × (page.bytes ≡ bytes)
      × ((e : BufferEntry) × (lookup id s'.entries ≡ some e) × (e.page ≡ page) × (0 < e.pin_count))

  abbrev pub FetchResult : ℕ → List ℕ → Shard → Pager → Option Page × (Shard × Pager) → Type 0
  FetchResult id bytes s p (result, (s', p')) =
      IsStep crc s p s' p'
      × (Fetched id bytes (result, (s', p'))
          ⊎ ((result ≡ none) × (s.cap ≤ length s.entries) × AllPinned crc s))

  fetch_hit :
      (s : Shard) (p : Pager) (id : ℕ) (bytes : List ℕ) (e : BufferEntry)
      → IsCoherent crc s p
      → view id s p ≡ some bytes
      → lookup id s.entries ≡ some e
      → FetchResult id bytes s p (fetch_page id s p)
  unfolding fetch_page front
  fetch_hit s p id bytes e w shown there =
      let m = delete id s.entries in
      let gone = lookup-delete_self crc id s.entries in
      let distinct = delete-Distinct id s.entries w.distinct in
      let others : (other : ℕ) → other ≢ id → lookup other m ≡ lookup other s.entries =
        λ other n. lookup-delete_other crc id other s.entries n in
      let c = w.cached id e there in
      let cached : IsCached p id (pin e) = record {
        own = c.own;
        positive = c.positive;
        size = c.size;
        clean = c.clean;
      } in
      let same : (b : List ℕ) → view id s p ≡ some b → e.page.bytes ≡ b =
        λ b h. ap (value_or b) (sym (view-cached crc id s p e there) ∙ h) in
      let less = length-delete id e s.entries there in
      rw (fetch_page, there)
        (
          record {
            coherent =
                front-IsCoherent crc s p id (pin e) m w gone distinct others cached
                  (omega (arith, less, w.sized)) same;
            shows =
                front_shows crc s p id (pin e) m w gone distinct others cached
                  (omega (arith, less, w.sized)) same;
            same_cap = refl;
          },
          inl (
            e.page,
            refl,
            same bytes shown,
            (pin e, lookup_front id (pin e) m, refl, omega arith),
          ),
        )

  fetch_miss :
      (s : Shard) (p : Pager) (id : ℕ) (bytes : List ℕ)
      → 0 < s.cap
      → view id s p ≡ some bytes
      → lookup id s.entries ≡ none
      → IsRoom crc s p (make_room s p)
      → FetchResult id bytes s p (fetch_page id s p)
  unfolding fetch_page front
  fetch_miss s p id bytes positive shown missing r =
      let s' = (make_room s p).1.0 in
      let p' = (make_room s p).1.1 in
      let w = r.step.coherent in
      let gone : lookup id s'.entries ≡ none = r.absent id missing in
      let shown' : view id s' p' ≡ some bytes = r.step.shows id bytes shown in
      let on_disk : disk id p' ≡ some bytes = sym (view-disk crc id s' p' gone) ∙ shown' in
      let read : read_page id p' ≡ some (clean_page id bytes) =
        disk-read_page id p' bytes on_disk in
      let (pos, (h, size), same_page) = HasPage-read_page p' id (clean_page id bytes) read in
      let e : BufferEntry = record { page = clean_page id bytes; pin_count = 1 } in
      let cached : IsCached p' id e = record {
        own = refl;
        positive = pos;
        size = size;
        clean = λ t. on_disk;
      } in
      let same : (b : List ℕ) → view id s' p' ≡ some b → bytes ≡ b =
        λ b v. ap (value_or b) (sym shown' ∙ v) in
      let inv = λ (small : length s'.entries < s'.cap).
        front-IsCoherent crc s' p' id e s'.entries w gone w.distinct (λ other n. refl) cached small
          same in
      let shows = λ (small : length s'.entries < s'.cap).
        front_shows crc s' p' id e s'.entries w gone w.distinct (λ other n. refl) cached small
          same in
      elim (Bool-cases ((make_room s p).0)) [
        | inl t ↦
            rw (fetch_page, missing, t, read)
              (
                record {
                  coherent = inv (omega (arith, r.room t positive, r.step.same_cap));
                  shows = λ other b v.
                      shows (omega (arith, r.room t positive, r.step.same_cap)) other b
                        (r.step.shows other b v);
                  same_cap = r.step.same_cap;
                },
                inl (
                  clean_page id bytes,
                  refl,
                  refl,
                  (e, lookup_front id e s'.entries, refl, omega arith),
                ),
              )
        | inr f ↦
            let (full, pinned) = r.full f in
            rw (fetch_page, missing, f) (r.step, inr (refl, full, pinned))
      ]

  -- A page that the cache shows is fetched with the bytes shown, and is then pinned, unless the shard is
  -- full of pinned pages. In both cases every page shows what it showed, the cache and the disk are
  -- coherent, and the shard is within its capacity.
  pub fetch_page-IsStep :
      (s : Shard) (p : Pager) (id : ℕ) (bytes : List ℕ)
      → IsCoherent crc s p
      → 0 < s.cap
      → view id s p ≡ some bytes
      → FetchResult id bytes s p (fetch_page id s p)
  fetch_page-IsStep s p id bytes w positive shown =
      fetch_case s p id bytes (lookup id s.entries) w positive shown refl
    where
      fetch_case :
          (s : Shard) (p : Pager) (id : ℕ) (bytes : List ℕ) (o : Option BufferEntry)
          → IsCoherent crc s p
          → 0 < s.cap
          → view id s p ≡ some bytes
          → lookup id s.entries ≡ o
          → FetchResult id bytes s p (fetch_page id s p)
      fetch_case s p id bytes none w positive shown q =
          fetch_miss s p id bytes positive shown q (make_room-IsRoom crc s p w)
      fetch_case s p id bytes (some e) w positive shown q = fetch_hit s p id bytes e w shown q
