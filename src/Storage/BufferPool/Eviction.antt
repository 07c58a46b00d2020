-- ===== src/Storage/BufferPool/Eviction.antt =====
-- internal/storage/bufferpool.go: the cache shows the same pages whatever is cached, written or
-- evicted. What a page shows is its cached bytes, or else those on the disk.
use hedgehog_db_opus.Base.{ℕ, ◌≤◌, ◌<◌, ◌≡◌, ◌≢◌, refl, ap, sym, ◌∙◌, arith, inl, inr, ◌⊎◌}
use hedgehog_db_opus.Base.{Bool, true, false, Option, none, some, List, [], ◌∷◌, length, Bool-cases}
use hedgehog_db_opus.Base.{nat_keys, ◌==◌, if◌then◌else◌}
use hedgehog_db_opus.Base.GoMap.{GoMap, lookup, delete, Distinct, value_or, lookup-delete}
use hedgehog_db_opus.Base.GoMap.Entries.{length-delete, lookup-absent, delete-Distinct}
use mathlib.Core.Path.{subst}
use hedgehog_db_opus.Storage.FileHeader.{page_size}
use hedgehog_db_opus.Storage.Page.{Page}
use hedgehog_db_opus.Storage.Wal.{Crc}
use hedgehog_db_opus.Storage.Pager.{Pager, clean_page, read_page, write_page}
use hedgehog_db_opus.Storage.Pager.Stored.{HasPage-read_page}
use hedgehog_db_opus.Storage.Pager.Pages.{IsPager, read_page-write_page}
use hedgehog_db_opus.Storage.BufferPool.{BufferEntry, Shard, victim, flush_if_dirty, evict}

-- The bytes of a page on the disk.
unfoldable pub disk : ℕ → Pager → Option (List ℕ)
disk id p = elim (read_page id p) [ none ↦ none | some page ↦ some page.bytes ]

-- The bytes that the cache shows of a page.
unfoldable pub view : ℕ → Shard → Pager → Option (List ℕ)
view id s p = elim (lookup id s.entries) [ none ↦ disk id p | some e ↦ some e.page.bytes ]

-- All pages but one are kept on the disk.
abbrev pub Keeps : ℕ → Pager → Pager → Type 0
Keeps id p p' =
    (other : ℕ) (bytes : List ℕ)
    → other ≢ id
    → disk other p ≡ some bytes
    → disk other p' ≡ some bytes

pub record IsCached (p : Pager) (id : ℕ) (e : BufferEntry) : Type 0 where
  pub own : e.page.id ≡ id
  pub positive : 0 < id
  pub size : length e.page.bytes ≡ page_size
  pub clean : e.page.dirty ≡ false → disk id p ≡ some e.page.bytes

disk_case :
    (id : ℕ) (p : Pager) (bytes : List ℕ) (o : Option Page)
    → read_page id p ≡ o
    → disk id p ≡ some bytes
    → read_page id p ≡ some (clean_page id bytes)
unfolding disk
disk_case id p bytes none r h = let bad : none ≡ some bytes = rw (disk, r) at h in absurd (cc bad)
disk_case id p bytes (some page) r h =
    let is_bytes : some page.bytes ≡ some bytes = rw (disk, r) at h in
    let same : page.bytes ≡ bytes = ap (value_or bytes) is_bytes in
    let (pos, rest, eq) = HasPage-read_page p id page r in
    r ∙ ap some (eq ∙ ap (λ b. clean_page id b) same)

pub disk-read_page :
    (id : ℕ) (p : Pager) (bytes : List ℕ)
    → disk id p ≡ some bytes
    → read_page id p ≡ some (clean_page id bytes)
disk-read_page id p bytes h = disk_case id p bytes (read_page id p) refl h

read_page-disk :
    (id : ℕ) (p : Pager) (page : Page) → read_page id p ≡ some page → disk id p ≡ some page.bytes
unfolding disk
read_page-disk id p page h = rw (disk, h) refl

IsVictim : GoMap ℕ BufferEntry → Option (ℕ × BufferEntry) → Type 0
IsVictim es none = (id : ℕ) (e : BufferEntry) → lookup id es ≡ some e → 0 < e.pin_count
IsVictim es (some found) = (lookup found.0 es ≡ some found.1) × (found.1.pin_count ≡ 0)

victim_cons :
    (k : ℕ) (e : BufferEntry) (rest : GoMap ℕ BufferEntry) (r : Option (ℕ × BufferEntry))
    → Distinct ((k, e) ∷ rest)
    → victim rest ≡ r
    → IsVictim rest r
    → IsVictim ((k, e) ∷ rest) (victim ((k, e) ∷ rest))
unfolding victim lookup IsVictim
victim_cons k e rest (some (j, f)) d q (there, unpinned) =
    let absent = lookup-absent rest k d.0 in rw q (ground (arith, there, absent), unpinned)
victim_cons k e rest none d q ih = elim (Bool-cases (e.pin_count == 0)) [
  | inl t ↦ rw (q, t) (ground arith, ground arith)
  | inr f ↦
      rw (q, f)
        (λ id g h. elim (Bool-cases (k == id)) [
          | inl s ↦
              let is_e : some e ≡ some g = rw s at h in
              subst (λ (x : BufferEntry). 0 < x.pin_count) (ap (value_or g) is_e) (ground arith)
          | inr n ↦ ih id g (rw n at h)
        ])
]

-- The victim is the last unpinned entry, and there is none when all entries are pinned.
victim-IsVictim : (es : GoMap ℕ BufferEntry) → Distinct es → IsVictim es (victim es)
unfolding victim IsVictim lookup
victim-IsVictim [] d = λ id e h. cc h
victim-IsVictim ((k, e) ∷ rest) d =
    victim_cons k e rest (victim rest) d refl (victim-IsVictim rest d.1)

abbrev pub page_of : ℕ → List ℕ → Bool → Page
page_of id bytes dirty = record { id = id; bytes = bytes; dirty = dirty }

pub flush_if_dirty_case :
    (page : Page) (p : Pager) (dirty : Bool)
    → page.dirty ≡ dirty
    → flush_if_dirty page p ≡ (if dirty then write_page page p else some (page, p))
unfolding flush_if_dirty
flush_if_dirty_case page p dirty h = ap (λ b. if b then write_page page p else some (page, p)) h

module _ (crc : Crc) where
  -- A cached page that is written if it is dirty is then on the disk.
  pub flush_if_dirty_lem :
      (p : Pager) (id : ℕ) (e : BufferEntry)
      → IsPager crc p
      → IsCached p id e
      → (page : Page) × (p' : Pager) × (flush_if_dirty e.page p ≡ some (page, p'))
        × (page ≡ clean_page id e.page.bytes)
        × IsPager crc p'
        × (disk id p' ≡ some e.page.bytes)
        × Keeps id p p'
  flush_if_dirty_lem p id e w c = elim (Bool-cases e.page.dirty) [
    | inl t ↦
        let pos : 0 < e.page.id = omega (arith, c.own, c.positive) in
        let (p', done, inv, same, back, rest) = read_page-write_page crc p e.page w pos c.size in
        (
          clean_page e.page.id e.page.bytes,
          p',
          flush_if_dirty_case e.page p true t ∙ done,
          ap (λ i. clean_page i e.page.bytes) c.own,
          inv,
          subst (λ i. disk i p' ≡ some e.page.bytes) c.own (read_page-disk e.page.id p' _ back),
          λ other bytes distinct h. read_page-disk other p' (clean_page other bytes) (
              rest other (clean_page other bytes) (λ q. distinct (q ∙ c.own))
                (disk-read_page other p bytes h)),
        )
    | inr f ↦ (
      e.page,
      p,
      flush_if_dirty_case e.page p false f,
      ap (page_of e.page.id e.page.bytes) f ∙ ap (λ i. clean_page i e.page.bytes) c.own,
      w,
      c.clean f,
      λ other bytes distinct h. h,
    )
  ]

  pub record IsCoherent (s : Shard) (p : Pager) : Type 0 where
    pub pager : IsPager crc p
    pub distinct : Distinct s.entries
    pub sized : length s.entries ≤ s.cap
    pub cached : (id : ℕ) (e : BufferEntry) → lookup id s.entries ≡ some e → IsCached p id e

  -- One page that is to be written, over any file.
  pub dirty-IsCoherent :
      (p : Pager) (id pins size : ℕ) (bytes : List ℕ)
      → IsPager crc p
      → 0 < id
      → 0 < size
      → length bytes ≡ page_size
      → IsCoherent
          (record {
            entries = (id, record { page = page_of id bytes true; pin_count = pins }) ∷ [];
            cap = size;
          })
          p
  unfolding lookup
  dirty-IsCoherent p id pins size bytes w positive room long = record {
    pager = w;
    distinct = (tt, tt);
    sized = omega (arith, room);
    cached = λ other e h. elim (Bool-cases (id == other)) [
      | inl t ↦
          let here : id ≡ other = ground arith in
          let entry : BufferEntry = record { page = page_of id bytes true; pin_count = pins } in
          let is_e : some entry ≡ some e = rw t at h in
          subst (λ i. IsCached p i e) here
            (subst (λ (x : BufferEntry). IsCached p id x) (ap (value_or e) is_e)
              (record { own = refl; positive = positive; size = long; clean = λ c. cc c }))
      | inr n ↦ ground (arith, h)
    ];
  }

  pub view-cached :
      (id : ℕ) (s : Shard) (p : Pager) (e : BufferEntry)
      → lookup id s.entries ≡ some e
      → view id s p ≡ some e.page.bytes
  unfolding view
  view-cached id s p e h = rw (view, h) refl

  pub view-disk :
      (id : ℕ) (s : Shard) (p : Pager) → lookup id s.entries ≡ none → view id s p ≡ disk id p
  unfolding view
  view-disk id s p h = rw (view, h) refl

  -- The disk under the other pages stays, and an entry whose page is kept on the disk stays cached.
  pub IsCached-keep :
      (p p' : Pager) (id other : ℕ) (e : BufferEntry)
      → other ≢ id
      → Keeps id p p'
      → IsCached p other e
      → IsCached p' other e
  IsCached-keep p p' id other e distinct keeps c = record {
    own = c.own;
    positive = c.positive;
    size = c.size;
    clean = λ f. keeps other e.page.bytes distinct (c.clean f);
  }

  -- A page with one entry in both caches, whose page is kept on the disk, shows the same.
  pub view_kept :
      (s s' : Shard) (p p' : Pager) (id : ℕ) (bytes : List ℕ) (o : Option BufferEntry)
      → lookup id s.entries ≡ o
      → lookup id s'.entries ≡ o
      → (disk id p ≡ some bytes → disk id p' ≡ some bytes)
      → view id s p ≡ some bytes
      → view id s' p' ≡ some bytes
  view_kept s s' p p' id bytes none a b keep h =
      view-disk id s' p' b ∙ keep (sym (view-disk id s p a) ∙ h)
  view_kept s s' p p' id bytes (some e) a b keep h =
      view-cached id s' p' e b ∙ sym (view-cached id s p e a) ∙ h

  pub lookup-delete_other :
      (id other : ℕ) (m : GoMap ℕ BufferEntry)
      → other ≢ id
      → lookup other (delete id m) ≡ lookup other m
  lookup-delete_other id other m distinct = ground (arith, lookup-delete id other m)

  pub lookup-delete_self : (id : ℕ) (m : GoMap ℕ BufferEntry) → lookup id (delete id m) ≡ none
  lookup-delete_self id m = ground (arith, lookup-delete id id m)

  -- The result of an eviction from the shard.
  abbrev pub Evicted : (s : Shard) (p : Pager) (result : Bool × (Shard × Pager)) → Type 0
  Evicted s p result =
      ((result ≡ (false, (s, p)))
        × ((id : ℕ) (e : BufferEntry) → lookup id s.entries ≡ some e → 0 < e.pin_count))
      ⊎ ((id : ℕ) × (s' : Shard) × (p' : Pager) × (result ≡ (true, (s', p')))
          × ((e : BufferEntry) × (lookup id s.entries ≡ some e) × (e.pin_count ≡ 0))
          × (s'.entries ≡ delete id s.entries)
          × (s'.cap ≡ s.cap)
          × IsCoherent s' p'
          × ((other : ℕ) (bytes : List ℕ)
              → view other s p ≡ some bytes
              → view other s' p' ≡ some bytes))

  evict_case :
      (s : Shard) (p : Pager) (r : Option (ℕ × BufferEntry))
      → IsCoherent s p
      → victim s.entries ≡ r
      → IsVictim s.entries r
      → Evicted s p (evict s p)
  unfolding evict IsVictim
  evict_case s p none w q pinned = inl (rw (evict, q) refl, pinned)
  evict_case s p (some (id, e)) w q (there, unpinned) =
      let (page, p', done, eq, inv, on_disk, keeps) =
        flush_if_dirty_lem p id e w.pager (w.cached id e there) in
      let s' : Shard = record { entries = delete id s.entries; cap = s.cap } in
      inr (
        id,
        s',
        p',
        rw (evict, q, done) refl,
        (e, there, unpinned),
        refl,
        refl,
        record {
          pager = inv;
          distinct = delete-Distinct id s.entries w.distinct;
          sized = omega (arith, w.sized, length-delete id e s.entries there);
          cached = λ other f h. elim (Bool-cases (id == other)) [
            | inl t ↦ ground (arith, lookup-delete id other s.entries, h)
            | inr n ↦
                let distinct : other ≢ id = λ q. ground arith in
                IsCached-keep p p' id other f distinct keeps
                  (w.cached other f (sym (lookup-delete_other id other s.entries distinct) ∙ h))
          ];
        },
        λ other bytes h. elim (Bool-cases (id == other)) [
          | inl t ↦
              let same : id ≡ other = ground arith in
              let shown : view id s p ≡ some bytes =
                subst (λ i. view i s p ≡ some bytes) (sym same) h in
              subst (λ i. view i s' p' ≡ some bytes) same
                (view-disk id s' p' (lookup-delete_self id s.entries)
                  ∙ on_disk
                  ∙ sym (view-cached id s p e there)
                  ∙ shown)
          | inr n ↦
              let distinct : other ≢ id = λ q. ground arith in
              view_kept s s' p p' other bytes (lookup other s.entries) refl
                (lookup-delete_other id other s.entries distinct) (keeps other bytes distinct) h
        ],
      )

  -- An eviction fails when all pages of the shard are pinned, and then changes nothing. Otherwise it
  -- takes out a page that is not pinned, keeps the others in the cache, and keeps what every page
  -- shows, and the cache and the disk coherent.
  pub evict-IsCoherent : (s : Shard) (p : Pager) → IsCoherent s p → Evicted s p (evict s p)
  evict-IsCoherent s p w =
      evict_case s p (victim s.entries) w refl (victim-IsVictim s.entries w.distinct)
