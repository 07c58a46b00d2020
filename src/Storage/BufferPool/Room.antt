-- ===== src/Storage/BufferPool/Room.antt =====
-- internal/storage/bufferpool.go: room for one page more in a shard, and a page at the front of its list.
use hedgehog_db_opus.Base.{ℕ, ◌≤◌, ◌<◌, ◌≡◌, ◌≢◌, refl, ap, sym, ◌∙◌, arith, inl, inr}
use hedgehog_db_opus.Base.{Bool, true, false, none, some, List, ◌∷◌, length, Bool-cases}
use hedgehog_db_opus.Base.{nat_keys, leb, ◌==◌}
use hedgehog_db_opus.Base.GoMap.{GoMap, lookup, delete, Distinct, value_or, lookup-delete}
use hedgehog_db_opus.Base.GoMap.Entries.{All-lookup-none}
use hedgehog_db_opus.Base.GoMap.Entries.{length-delete}
use mathlib.Core.Path.{subst}
use hedgehog_db_opus.Storage.Wal.{Crc}
use hedgehog_db_opus.Storage.Pager.{Pager}
use hedgehog_db_opus.Storage.BufferPool.{BufferEntry, Shard, evict, make_room}
use hedgehog_db_opus.Storage.BufferPool.Eviction.{
  view, IsCached, IsCoherent, Evicted, evict-IsCoherent,
}
use hedgehog_db_opus.Storage.BufferPool.Eviction.{view-cached, view_kept}

module _ (crc : Crc) where
  -- What a step of the cache keeps: the cache and the disk are coherent, every page shows what it
  -- showed, and the capacity is the same.
  pub record IsStep (s : Shard) (p : Pager) (s' : Shard) (p' : Pager) : Type 0 where
    pub coherent : IsCoherent crc s' p'
    pub shows : (id : ℕ) (bytes : List ℕ) → view id s p ≡ some bytes → view id s' p' ≡ some bytes
    pub same_cap : s'.cap ≡ s.cap

  -- All pages of the shard are pinned.
  abbrev pub AllPinned : Shard → Type 0
  AllPinned s = (id : ℕ) (e : BufferEntry) → lookup id s.entries ≡ some e → 0 < e.pin_count

  -- Room for one page more, or an error where the shard is full of pinned pages. No page comes.
  pub record IsRoom (s : Shard) (p : Pager) (result : Bool × (Shard × Pager)) : Type 0 where
    pub step : IsStep s p result.1.0 result.1.1
    pub absent : (id : ℕ) → lookup id s.entries ≡ none → lookup id result.1.0.entries ≡ none
    pub room : result.0 ≡ true → 0 < s.cap → length result.1.0.entries < s.cap
    pub full : result.0 ≡ false → (s.cap ≤ length s.entries) × AllPinned s

  stay : (s : Shard) (p : Pager) → IsCoherent crc s p → IsStep s p s p
  stay s p w = record { coherent = w; shows = λ id bytes h. h; same_cap = refl }

  shorter :
      (s s' : Shard) (id : ℕ) (e : BufferEntry)
      → s'.entries ≡ delete id s.entries
      → lookup id s.entries ≡ some e
      → length s'.entries < length s.entries
  shorter s s' id e rest there = rw rest (length-delete id e s.entries there)

  evict-IsRoom :
      (s : Shard) (p : Pager) (result : Bool × (Shard × Pager))
      → IsCoherent crc s p
      → s.cap ≤ length s.entries
      → Evicted crc s p result
      → IsRoom s p result
  evict-IsRoom s p result w full (inl (failed, pinned)) = subst (IsRoom s p) (sym failed) (record {
    step = stay s p w;
    absent = λ id h. h;
    room = λ t pos. cc t;
    full = λ t. (full, pinned);
  })
  evict-IsRoom s p result w full
        (inr (id, s', p', done, (e, there, unpinned), rest, same_cap, inv, shows)) =
      let less = shorter s s' id e rest there in
      subst (IsRoom s p) (sym done) (record {
        step = record { coherent = inv; shows = shows; same_cap = same_cap };
        absent = λ other h. rw rest (ground (arith, lookup-delete id other s.entries, h));
        room = λ t pos. omega (arith, w.sized, less);
        full = λ t. cc t;
      })

  pub make_room-IsRoom : (s : Shard) (p : Pager) → IsCoherent crc s p → IsRoom s p (make_room s p)
  unfolding make_room
  make_room-IsRoom s p w = elim (Bool-cases (leb s.cap (length s.entries))) [
    | inl t ↦ rw t (evict-IsRoom s p (evict s p) w (ground arith) (evict-IsCoherent crc s p w))
    | inr f ↦ rw f (record {
      step = stay s p w;
      absent = λ id h. h;
      room = λ t pos. ground arith;
      full = λ t. cc t;
    })
  ]

  -- An entry at the front, over a list that has the other entries of a shard.
  module _ (s : Shard) (p : Pager) (id : ℕ) (e : BufferEntry) (m : GoMap ℕ BufferEntry)
      (w : IsCoherent crc s p) (gone : lookup id m ≡ none) (distinct : Distinct m)
      (others : (other : ℕ) → other ≢ id → lookup other m ≡ lookup other s.entries)
      (cached : IsCached p id e) (small : length m < s.cap)
      (same : (bytes : List ℕ) → view id s p ≡ some bytes → e.page.bytes ≡ bytes) where
    unfoldable pub front : Shard
    front = record { entries = (id, e) ∷ m; cap = s.cap }

    front_other : (other : ℕ) → other ≢ id → lookup other front.entries ≡ lookup other s.entries
    unfolding lookup front
    front_other other n = ground (arith, others other n)

    front_self : lookup id front.entries ≡ some e
    unfolding lookup front
    front_self = ground arith

    pub front-IsCoherent : IsCoherent crc front p
    unfolding front
    front-IsCoherent = record {
      pager = w.pager;
      distinct = (All-lookup-none m id gone, distinct);
      sized = omega (arith, small);
      cached = λ other f h. elim (Bool-cases (id == other)) [
        | inl t ↦
            let here : id ≡ other = ground arith in
            let is_e : some e ≡ some f =
              sym front_self ∙ subst (λ i. lookup i ((id, e) ∷ m) ≡ some f) (sym here) h in
            subst (λ i. IsCached p i f) here
              (subst (λ (x : BufferEntry). IsCached p id x) (ap (value_or e) is_e) cached)
        | inr n ↦
            let other_id : other ≢ id = λ q. ground arith in
            w.cached other f (sym (front_other other other_id) ∙ h)
      ];
    }

    pub front_shows :
        (other : ℕ) (bytes : List ℕ) → view other s p ≡ some bytes → view other front p ≡ some bytes
    front_shows other bytes h = elim (Bool-cases (id == other)) [
      | inl t ↦
          let here : id ≡ other = ground arith in
          let shown : view id s p ≡ some bytes =
            subst (λ i. view i s p ≡ some bytes) (sym here) h in
          subst (λ i. view i front p ≡ some bytes) here
            (view-cached crc id front p e front_self ∙ ap some (same bytes shown))
      | inr n ↦
          let other_id : other ≢ id = λ q. ground arith in
          view_kept crc s front p p other bytes (lookup other s.entries) refl
            (front_other other other_id) (λ d. d) h
    ]
