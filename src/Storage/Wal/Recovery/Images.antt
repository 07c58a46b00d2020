-- ===== src/Storage/Wal/Recovery/Images.antt =====
-- internal/storage/wal.go: what `Recover` returns, against a reading of the log that has no maps.
use hedgehog_db_opus.Base.{ℕ, Bool, true, false, Option, none, some, nat_keys, ◌==◌, ◌≡◌, refl}
use hedgehog_db_opus.Base.{
  List, [], ◌∷◌, ◌++◌, if◌then◌else◌, arith, All, Bool-cases, inl, inr, ◌≢◌, ◌||◌, sym, ap, ◌∙◌,
}
use hedgehog_db_opus.Base.GoMap.{GoMap, Distinct, lookup, insert, read, value_or, lookup-insert}
use hedgehog_db_opus.Base.GoMap.Entries.{lookup-absent, All-of_lookup}
use hedgehog_db_opus.Storage.Wal.{Crc, WalRecord, type_page_write, type_commit, type_checkpoint}
use hedgehog_db_opus.Storage.Wal.{read_all}
use hedgehog_db_opus.Storage.Wal.Recovery.{PageWrite, Collected, nothing_collected, collect_record}
use hedgehog_db_opus.Storage.Wal.Recovery.{collect, apply_writes, apply_committed, IsWalk, recover}
use mathlib.Core.List.{append_assoc, append-nil}

abbrev pub or_else : Option (List ℕ) → Option (List ℕ) → Option (List ℕ)
or_else none o = o
or_else (some x) o = some x

-- The image that the last of the writes to page `p` gives.
unfoldable last_image : ℕ → List PageWrite → Option (List ℕ)
last_image p [] = none
last_image p (w ∷ ws) = or_else (last_image p ws) (if w.page_id == p then some w.bytes else none)

or_else_assoc : (a b c : Option (List ℕ)) → or_else (or_else a b) c ≡ or_else a (or_else b c)
or_else_assoc none b c = refl
or_else_assoc (some x) b c = refl

lookup-apply_writes :
    (p : ℕ) (ws : List PageWrite) (result : GoMap ℕ (List ℕ))
    → lookup p (apply_writes result ws) ≡ or_else (last_image p ws) (lookup p result)
unfolding apply_writes last_image
lookup-apply_writes p [] result = refl
lookup-apply_writes p (w ∷ ws) result =
    lookup-apply_writes p ws (insert w.page_id w.bytes result)
    ∙ ap (or_else (last_image p ws)) (lookup-insert w.page_id p w.bytes result ∙ split)
    ∙ sym (or_else_assoc (last_image p ws) _ (lookup p result))
  where
    split :
        (if w.page_id == p then some w.bytes else lookup p result)
        ≡ or_else (if w.page_id == p then some w.bytes else none) (lookup p result)
    split = ground arith

-- At most transaction `t` has committed writes of page `p` among the entries.
abbrev OnlyFrom : GoMap ℕ Bool → ℕ → ℕ → GoMap ℕ (List PageWrite) → Type 0
OnlyFrom committed t p walk =
    All (λ x. x.0 ≢ t → read false x.0 committed ≡ true → last_image p x.1 ≡ none) walk

abbrev image_of : GoMap ℕ Bool → ℕ → ℕ → GoMap ℕ (List PageWrite) → Option (List ℕ)
image_of committed t p walk = if read false t committed then last_image p (read [] t walk) else none

lookup-apply_committed :
    (committed : GoMap ℕ Bool) (t p : ℕ) (walk : GoMap ℕ (List PageWrite))
    (result : GoMap ℕ (List ℕ))
    → Distinct walk
    → OnlyFrom committed t p walk
    → lookup p (apply_committed committed result walk)
      ≡ or_else (image_of committed t p walk) (lookup p result)
unfolding apply_committed lookup last_image
lookup-apply_committed committed t p [] result d h = ground arith
lookup-apply_committed committed t p ((s, ws) ∷ walk) result (dn, d) (hw, h) =
    let written : lookup p (apply_writes result ws) ≡ or_else (last_image p ws) (lookup p result) =
      lookup-apply_writes p ws result in
    let absent : s ≡ t → lookup t walk ≡ none = λ e. lookup-absent walk t (rw e at dn) in
    ground (
      arith,
      written,
      absent,
      hw,
      lookup-apply_committed committed t p walk result d h,
      lookup-apply_committed committed t p walk (apply_writes result ws) d h,
    )

-- The log after its last checkpoint record, the commits in a log and the last image of page `p` that
-- transaction `t` wrote in it.
unfoldable pub has_checkpoint : List WalRecord → Bool
has_checkpoint [] = false
has_checkpoint (r ∷ rs) = if r.typ == type_checkpoint then true else has_checkpoint rs

unfoldable pub since_checkpoint : List WalRecord → List WalRecord
unfolding has_checkpoint
since_checkpoint [] = []
since_checkpoint (r ∷ rs) =
    let later = since_checkpoint rs in
    if has_checkpoint rs then later else if r.typ == type_checkpoint then rs else r ∷ rs

unfoldable pub committed_in : ℕ → List WalRecord → Bool
committed_in t [] = false
committed_in t (r ∷ rs) =
    if r.typ == type_commit
    then (if r.tx_id == t then true else committed_in t rs)
    else committed_in t rs

unfoldable pub last_write : ℕ → ℕ → List WalRecord → Option (List ℕ)
last_write t p [] = none
last_write t p (r ∷ rs) = or_else (last_write t p rs) (
    if r.typ == type_page_write
    then (if r.tx_id == t then (if r.page_id == p then some r.bytes else none) else none)
    else none)

unfoldable writes_of : ℕ → List WalRecord → List PageWrite
writes_of t [] = []
writes_of t (r ∷ rs) =
    let later = writes_of t rs in
    if r.typ == type_page_write
    then (if r.tx_id == t
        then record { page_id = r.page_id; bytes = r.bytes; lsn = r.lsn } ∷ later
        else later)
    else later

last_image-writes_of :
    (t p : ℕ) (rs : List WalRecord) → last_image p (writes_of t rs) ≡ last_write t p rs
unfolding writes_of last_image last_write
last_image-writes_of t p [] = refl
last_image-writes_of t p (r ∷ rs) = ground (arith, last_image-writes_of t p rs)

lookup_writes :
    (t : ℕ) (c : Collected) (r : WalRecord)
    → (r.typ == type_checkpoint) ≡ false
    → read [] t (collect_record c r).tx_writes ≡ read [] t c.tx_writes ++ writes_of t (r ∷ [])
unfolding collect_record writes_of
lookup_writes t c r n =
    let write : PageWrite = record { page_id = r.page_id; bytes = r.bytes; lsn = r.lsn } in
    ground (
      arith,
      lookup-insert r.tx_id t (read [] r.tx_id c.tx_writes ++ (write ∷ [])) c.tx_writes,
      append-nil (read [] t c.tx_writes),
    )

writes_of_cons :
    (t : ℕ) (r : WalRecord) (rs : List WalRecord)
    → writes_of t (r ∷ rs) ≡ writes_of t (r ∷ []) ++ writes_of t rs
unfolding writes_of
writes_of_cons t r rs = ground arith

lookup_committed :
    (t : ℕ) (c : Collected) (r : WalRecord)
    → (r.typ == type_checkpoint) ≡ false
    → read false t (collect_record c r).committed
      ≡ (read false t c.committed || committed_in t (r ∷ []))
unfolding collect_record committed_in
lookup_committed t c r n = ground (arith, lookup-insert r.tx_id t true c.committed)

committed_in_cons :
    (t : ℕ) (r : WalRecord) (rs : List WalRecord)
    → committed_in t (r ∷ rs) ≡ (committed_in t (r ∷ []) || committed_in t rs)
unfolding committed_in
committed_in_cons t r rs = ground arith

collect-writes :
    (t : ℕ) (c : Collected) (rs : List WalRecord)
    → has_checkpoint rs ≡ false
    → read [] t (collect c rs).tx_writes ≡ read [] t c.tx_writes ++ writes_of t rs
unfolding collect has_checkpoint
collect-writes t c [] n = unfold writes_of in sym (append-nil (read [] t c.tx_writes))
collect-writes t c (r ∷ rs) n =
    let plain : (r.typ == type_checkpoint) ≡ false = ground arith in
    let more : has_checkpoint rs ≡ false = ground arith in
    rw
      (
        collect-writes t (collect_record c r) rs more,
        lookup_writes t c r plain,
        writes_of_cons t r rs,
      )
      (append_assoc (read [] t c.tx_writes) (writes_of t (r ∷ [])) (writes_of t rs))

collect-committed :
    (t : ℕ) (c : Collected) (rs : List WalRecord)
    → has_checkpoint rs ≡ false
    → read false t (collect c rs).committed ≡ (read false t c.committed || committed_in t rs)
unfolding collect has_checkpoint
collect-committed t c [] n = unfold committed_in in ground arith
collect-committed t c (r ∷ rs) n =
    let plain : (r.typ == type_checkpoint) ≡ false = ground arith in
    let more : has_checkpoint rs ≡ false = ground arith in
    ground (
      arith,
      collect-committed t (collect_record c r) rs more,
      lookup_committed t c r plain,
      committed_in_cons t r rs,
    )

collect_record_checkpoint :
    (c : Collected) (r : WalRecord)
    → (r.typ == type_checkpoint) ≡ true
    → collect_record c r ≡ nothing_collected
unfolding collect_record
collect_record_checkpoint c r h = ground arith

collect_reset :
    (c : Collected) (rs : List WalRecord)
    → has_checkpoint rs ≡ true
    → collect c rs ≡ collect nothing_collected (since_checkpoint rs)
unfolding collect has_checkpoint since_checkpoint
collect_reset c [] h = cc
collect_reset c (r ∷ rs) h = elim (Bool-cases (has_checkpoint rs)) [
  | inl t ↦ rw t (collect_reset (collect_record c r) rs t)
  | inr f ↦
      let reset : (r.typ == type_checkpoint) ≡ true = ground arith in
      let here : since_checkpoint (r ∷ rs) ≡ rs = rw (f, reset) refl in
      ap (λ d. collect d rs) (collect_record_checkpoint c r reset)
      ∙ ap (collect nothing_collected) (sym here)
]

has_checkpoint-since_checkpoint :
    (rs : List WalRecord) → has_checkpoint (since_checkpoint rs) ≡ false
unfolding has_checkpoint since_checkpoint
has_checkpoint-since_checkpoint [] = refl
has_checkpoint-since_checkpoint (r ∷ rs) = ground (arith, has_checkpoint-since_checkpoint rs)

pub since_checkpoint_none :
    (rs : List WalRecord) → has_checkpoint rs ≡ false → since_checkpoint rs ≡ rs
unfolding has_checkpoint since_checkpoint
since_checkpoint_none [] h = refl
since_checkpoint_none (r ∷ rs) h = ground arith

collect-since_checkpoint :
    (rs : List WalRecord)
    → collect nothing_collected rs ≡ collect nothing_collected (since_checkpoint rs)
collect-since_checkpoint rs = elim (Bool-cases (has_checkpoint rs)) [
  | inl t ↦ collect_reset nothing_collected rs t
  | inr f ↦ ap (collect nothing_collected) (sym (since_checkpoint_none rs f))
]

module _ (walk : GoMap ℕ (List PageWrite) → GoMap ℕ (List PageWrite))
    (any_order : (m : GoMap ℕ (List PageWrite)) → IsWalk m (walk m)) where
  collected_writes :
      (t p : ℕ) (rs : List WalRecord)
      → last_image p (read [] t (walk (collect nothing_collected rs).tx_writes))
        ≡ last_write t p (since_checkpoint rs)
  unfolding lookup
  collected_writes t p rs =
      let after = since_checkpoint rs in
      let none_left = has_checkpoint-since_checkpoint rs in
      ap (λ o. last_image p (value_or [] o))
        ((any_order (collect nothing_collected rs).tx_writes).1 t)
      ∙ ap (λ c. last_image p (read [] t c.tx_writes)) (collect-since_checkpoint rs)
      ∙ ap (last_image p) (collect-writes t nothing_collected after none_left)
      ∙ last_image-writes_of t p after

  collected_committed :
      (t : ℕ) (rs : List WalRecord)
      → read false t (collect nothing_collected rs).committed ≡ committed_in t (since_checkpoint rs)
  unfolding lookup
  collected_committed t rs =
      ap (λ c. read false t c.committed) (collect-since_checkpoint rs)
      ∙ collect-committed t nothing_collected (since_checkpoint rs)
          (has_checkpoint-since_checkpoint rs)

  collected_OnlyFrom :
      (t p : ℕ) (rs : List WalRecord)
      → ((s : ℕ)
          → s ≢ t
          → committed_in s (since_checkpoint rs) ≡ true
          → last_write s p (since_checkpoint rs) ≡ none)
      → OnlyFrom
          (collect nothing_collected rs).committed
          t
          p
          (walk (collect nothing_collected rs).tx_writes)
  collected_OnlyFrom t p rs only =
      let c = collect nothing_collected rs in
      All-of_lookup (λ s ws. s ≢ t → read false s c.committed ≡ true → last_image p ws ≡ none)
        (walk c.tx_writes) (any_order c.tx_writes).0
        (λ s ws found n done.
          ap (λ o. last_image p (value_or [] o)) (sym found)
          ∙ collected_writes s p rs
          ∙ only s n (sym (collected_committed s rs) ∙ done))

  -- Suppose that among the transactions committed after the last checkpoint of the log no other than
  -- `t` wrote page `p`. Then, in whatever order the map of transactions is walked, the image that
  -- `Recover` returns for `p` is the last that `t` wrote after that checkpoint, if `t` committed after
  -- it and wrote the page, and there is none otherwise: uncommitted writes are never replayed.
  pub recover-committed :
      (crc : Crc) (content : List ℕ) (t p : ℕ)
      → ((s : ℕ)
          → s ≢ t
          → committed_in s (since_checkpoint ((read_all crc content).0)) ≡ true
          → last_write s p (since_checkpoint ((read_all crc content).0)) ≡ none)
      → lookup p (recover crc walk content) ≡ (
          if committed_in t (since_checkpoint ((read_all crc content).0))
          then last_write t p (since_checkpoint ((read_all crc content).0))
          else none)
  unfolding recover
  recover-committed crc content t p only =
      let rs = (read_all crc content).0 in
      let c = collect nothing_collected rs in
      let image : lookup p (apply_committed c.committed [] (walk c.tx_writes))
          ≡ or_else (image_of c.committed t p (walk c.tx_writes)) none =
        lookup-apply_committed c.committed t p (walk c.tx_writes) [] (any_order c.tx_writes).0
          (collected_OnlyFrom t p rs only) in
      ground (arith, image, collected_writes t p rs, collected_committed t rs)
