-- ===== src/Storage/BufferPool/Flush.antt =====
-- internal/storage/bufferpool.go, `FlushAll`: afterwards the disk has every page as the cache shows it.
-- A new page is not dirty, so that a flush does not write it.
use hedgehog_db_opus.Base.{ℕ, ◌-◌, ◌≡◌, ◌≢◌, refl, ap, sym, ◌∙◌, arith, inl, inr}
use hedgehog_db_opus.Base.{
  Bool, true, false, Option, none, some, List, [], ◌∷◌, Bool-cases, nat_keys, ◌==◌,
}
use hedgehog_db_opus.Base.GoMap.{GoMap, insert, lookup, lookup-insert, Distinct, value_or}
use hedgehog_db_opus.Base.GoMap.Entries.{lookup-absent}
use mathlib.Core.Path.{subst}
use hedgehog_db_opus.Storage.Page.{new_page}
use hedgehog_db_opus.Storage.Wal.{Crc}
use hedgehog_db_opus.Storage.Pager.{Pager}
use hedgehog_db_opus.Storage.Pager.Pages.{IsPager}
use hedgehog_db_opus.Storage.BufferPool.{
  BufferEntry, Shard, flush_if_dirty, flush_entries, flush_page, make_room, unpin, change_entry,
}
use hedgehog_db_opus.Storage.BufferPool.{add_new_page}
use hedgehog_db_opus.Storage.BufferPool.Eviction.{
  disk, view, IsCached, IsCoherent, flush_if_dirty_case, flush_if_dirty_lem, IsCached-keep,
}
use hedgehog_db_opus.Storage.BufferPool.Eviction.{view-cached, view-disk}
use hedgehog_db_opus.Storage.BufferPool.Fetch.{lookup_front}

lookup_tail :
    (id j : ℕ) (e f : BufferEntry) (m : GoMap ℕ BufferEntry)
    → lookup id m ≡ none
    → lookup j m ≡ some f
    → (j ≢ id) × (lookup j ((id, e) ∷ m) ≡ some f)
unfolding lookup
lookup_tail id j e f m gone there =
    let other : j ≢ id = λ q.
      let bad : lookup id m ≡ some f = subst (λ i. lookup i m ≡ some f) q there in
      absurd (cc (gone, bad)) in
    (other, ground (arith, other, there))

module _ (crc : Crc) where
  -- The result of a flush of these entries.
  record IsFlushed (es : GoMap ℕ BufferEntry) (p : Pager)
      (result : Bool × (GoMap ℕ BufferEntry × Pager)) : Type 0 where
    ok : result.0 ≡ true
    pager : IsPager crc result.1.1
    written :
        (id : ℕ) (e : BufferEntry) → lookup id es ≡ some e → disk id result.1.1 ≡ some e.page.bytes
    kept :
        (id : ℕ) (bytes : List ℕ)
        → lookup id es ≡ none
        → disk id p ≡ some bytes
        → disk id result.1.1 ≡ some bytes

  flush_entries-IsFlushed :
      (es : GoMap ℕ BufferEntry) (p : Pager)
      → IsPager crc p
      → Distinct es
      → ((id : ℕ) (e : BufferEntry) → lookup id es ≡ some e → IsCached p id e)
      → IsFlushed es p (flush_entries es p)
  unfolding flush_entries lookup
  flush_entries-IsFlushed [] p w d c = record {
    ok = refl;
    pager = w;
    written = λ id e h. cc h;
    kept = λ id bytes h q. q;
  }
  flush_entries-IsFlushed ((id, e) ∷ rest) p w d c =
      let gone = lookup-absent rest id d.0 in
      let (page, p1, done, eq, inv, on_disk, keeps) =
        flush_if_dirty_lem crc p id e w (c id e (lookup_front id e rest)) in
      let ih = flush_entries-IsFlushed rest p1 inv d.1 (λ j f h.
        let (other, there) = lookup_tail id j e f rest gone h in
        IsCached-keep crc p p1 id j f other keeps (c j f there)) in
      rw (flush_entries, done)
        (record {
          ok = ih.ok;
          pager = ih.pager;
          written = λ j f h. elim (Bool-cases (id == j)) [
            | inl t ↦
                let here : id ≡ j = ground arith in
                let is_e : some e ≡ some f =
                  sym (lookup_front id e rest)
                  ∙ subst (λ i. lookup i ((id, e) ∷ rest) ≡ some f) (sym here) h in
                subst (λ i. disk i (flush_entries rest p1).1.1 ≡ some f.page.bytes) here
                  (ih.kept id f.page.bytes gone
                    (on_disk ∙ ap (λ (x : BufferEntry). some x.page.bytes) (ap (value_or e) is_e)))
            | inr n ↦ ih.written j f (rw n at h)
          ];
          kept = λ j bytes h q. elim (Bool-cases (id == j)) [
            | inl t ↦ ground (arith, h)
            | inr n ↦ ih.kept j bytes (rw n at h) (keeps j bytes (λ r. ground arith) q)
          ];
        })

  -- When all dirty pages of a shard are flushed, in any order of its map, there is no error and the
  -- disk has every page as the cache shows it.
  pub flush_entries-disk :
      (s : Shard) (p : Pager)
      → IsCoherent crc s p
      → ((flush_entries s.entries p).0 ≡ true)
        × IsPager crc (flush_entries s.entries p).1.1
        × ((id : ℕ) (bytes : List ℕ)
            → view id s p ≡ some bytes
            → disk id (flush_entries s.entries p).1.1 ≡ some bytes)
  flush_entries-disk s p w =
      let flushed = flush_entries-IsFlushed s.entries p w.pager w.distinct w.cached in
      (
        flushed.ok,
        flushed.pager,
        λ id bytes h. flushed_view s p flushed id bytes (lookup id s.entries) refl h,
      )
    where
      flushed_view :
          (s : Shard) (p : Pager)
          → IsFlushed s.entries p (flush_entries s.entries p)
          → (id : ℕ) (bytes : List ℕ) (o : Option BufferEntry) → lookup id s.entries ≡ o
          → view id s p ≡ some bytes
          → disk id (flush_entries s.entries p).1.1 ≡ some bytes
      flushed_view s p flushed id bytes none q h =
          flushed.kept id bytes q (sym (view-disk crc id s p q) ∙ h)
      flushed_view s p flushed id bytes (some e) q h =
          flushed.written id e q ∙ sym (view-cached crc id s p e q) ∙ h

flush_page_clean :
    (id : ℕ) (e : BufferEntry) (s : Shard) (p : Pager)
    → lookup id s.entries ≡ some e
    → e.page.dirty ≡ false
    → (flush_page id s p).1.1 ≡ p
unfolding flush_page
flush_page_clean id e s p there clean =
    let nothing : flush_if_dirty e.page p ≡ some (e.page, p) =
      flush_if_dirty_case e.page p false clean in
    rw (flush_page, there, nothing) refl

unpin_lem :
    (id : ℕ) (e : BufferEntry) (s : Shard)
    → lookup id s.entries ≡ some e
    → unpin id s ≡ record {
      entries = insert id (record { page = e.page; pin_count = e.pin_count - 1 }) s.entries;
      cap = s.cap;
    }
unfolding unpin
unpin_lem id e s there = rw (unpin, change_entry, there) refl

lookup-unpin :
    (id : ℕ) (e : BufferEntry) (s : Shard)
    → lookup id s.entries ≡ some e
    → lookup id (unpin id s).entries ≡ some (record { page = e.page; pin_count = e.pin_count - 1 })
lookup-unpin id e s there =
    let changed : BufferEntry = record { page = e.page; pin_count = e.pin_count - 1 } in
    ap (λ (t : Shard). lookup id t.entries) (unpin_lem id e s there)
    ∙ ground (arith, lookup-insert id id changed s.entries)

add_new_page_room :
    (id page_type : ℕ) (s : Shard) (p : Pager)
    → (make_room s p).0 ≡ true
    → (lookup id (add_new_page id page_type s p).1.0.entries
        ≡ some (record { page = new_page id page_type; pin_count = 1 }))
      × ((add_new_page id page_type s p).1.1 ≡ (make_room s p).1.1)
unfolding add_new_page
add_new_page_room id page_type s p room = rw room (
  lookup_front id (record { page = new_page id page_type; pin_count = 1 })
      (make_room s p).1.0.entries,
  refl,
)

-- A new page that is unpinned and flushed before it is changed is not written: the file is as it was
-- when the page came.
pub flush_page-add_new_page :
    (id page_type : ℕ) (s : Shard) (p : Pager)
    → (make_room s p).0 ≡ true
    → (flush_page id
        (unpin id (add_new_page id page_type s p).1.0)
        (add_new_page id page_type s p).1.1).1.1
      ≡ (make_room s p).1.1
unfolding new_page
flush_page-add_new_page id page_type s p room =
    let (there, same) = add_new_page_room id page_type s p room in
    flush_page_clean id (record { page = new_page id page_type; pin_count = 0 })
      (unpin id (add_new_page id page_type s p).1.0) (add_new_page id page_type s p).1.1
      (lookup-unpin id (record { page = new_page id page_type; pin_count = 1 })
        (add_new_page id page_type s p).1.0 there)
      refl
    ∙ same
