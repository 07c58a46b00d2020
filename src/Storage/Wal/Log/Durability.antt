-- ===== src/Storage/Wal/Log/Durability.antt =====
-- internal/storage/wal.go: `BeginTx`, `LogPageWrite` and `LogCommit` against `Recover`.
use hedgehog_db_opus.Base.{
  ℕ, ◌+◌, ◌%◌, ◌^◌, ◌<◌, List, [], ◌∷◌, ◌++◌, nat_keys, ◌≡◌, ◌≢◌, refl, ap, ◌∙◌,
}
use hedgehog_db_opus.Base.{
  if◌then◌else◌, length, arith, true, false, ◌||◌, ◌==◌, some, none, ==_refl,
}
use hedgehog_db_opus.Base.GoMap.{GoMap, lookup}
use hedgehog_db_opus.Storage.Wal.{Crc, WalRecord, type_page_write, type_commit}
use hedgehog_db_opus.Storage.Wal.{read_all}
use hedgehog_db_opus.Storage.Wal.Codec.{IsTail, read_all-serialize_all}
use hedgehog_db_opus.Storage.Wal.Log.{Wal, begin_tx}
use hedgehog_db_opus.Storage.Wal.Log.{log_page_write, log_commit}
use hedgehog_db_opus.Storage.Wal.Log.Append.{
  IsLog, begin_tx-IsLog, log_page_write-IsLog, log_commit-IsLog,
}
use hedgehog_db_opus.Storage.Wal.Recovery.{PageWrite, IsWalk, recover}
use hedgehog_db_opus.Storage.Wal.Recovery.Images.{or_else, has_checkpoint, since_checkpoint}
use hedgehog_db_opus.Storage.Wal.Recovery.Images.{
  since_checkpoint_none, committed_in, last_write, recover-committed,
}
use mathlib.Core.Path.{subst}
use mathlib.Core.List.{append_assoc}

has_checkpoint-append :
    (rs ss : List WalRecord)
    → has_checkpoint ss ≡ false
    → has_checkpoint (rs ++ ss) ≡ has_checkpoint rs
unfolding has_checkpoint
has_checkpoint-append [] ss h = h
has_checkpoint-append (r ∷ rs) ss h = ground (arith, has_checkpoint-append rs ss h)

since_checkpoint-append :
    (rs ss : List WalRecord)
    → has_checkpoint ss ≡ false
    → since_checkpoint (rs ++ ss) ≡ since_checkpoint rs ++ ss
unfolding since_checkpoint
since_checkpoint-append [] ss h = since_checkpoint_none ss h
since_checkpoint-append (r ∷ rs) ss h =
    ground (arith, has_checkpoint-append rs ss h, since_checkpoint-append rs ss h)

committed_in-append :
    (t : ℕ) (rs ss : List WalRecord)
    → committed_in t (rs ++ ss) ≡ (committed_in t rs || committed_in t ss)
unfolding committed_in
committed_in-append t [] ss = refl
committed_in-append t (r ∷ rs) ss = ground (arith, committed_in-append t rs ss)

last_write-append :
    (t p : ℕ) (rs ss : List WalRecord)
    → last_write t p (rs ++ ss) ≡ or_else (last_write t p ss) (last_write t p rs)
unfolding last_write
last_write-append t p [] ss = ground arith
last_write-append t p (r ∷ rs) ss = ground (arith, last_write-append t p rs ss)

-- The records of a transaction that writes one page and commits.
abbrev transaction : ℕ → ℕ → ℕ → List ℕ → List WalRecord
transaction lsn t p bytes =
    record { lsn = lsn; tx_id = t; typ = type_page_write; page_id = p; bytes = bytes }
    ∷ record { lsn = lsn + 1; tx_id = t; typ = type_commit; page_id = 0; bytes = [] }
    ∷ []

has_checkpoint-transaction :
    (lsn t p : ℕ) (bytes : List ℕ) → has_checkpoint (transaction lsn t p bytes) ≡ false
unfolding has_checkpoint
has_checkpoint-transaction lsn t p bytes = refl

committed_in-transaction :
    (lsn t p : ℕ) (bytes : List ℕ) (s : ℕ) → committed_in s (transaction lsn t p bytes) ≡ (t == s)
unfolding committed_in
committed_in-transaction lsn t p bytes s = ground arith

last_write-transaction :
    (lsn t p : ℕ) (bytes : List ℕ) (s : ℕ)
    → last_write s p (transaction lsn t p bytes) ≡ (if t == s then some bytes else none)
unfolding last_write
last_write-transaction lsn t p bytes s = ground (arith, ==_refl p)

-- Begin a transaction, write one page and commit.
unfoldable pub commit_page : Crc → ℕ → List ℕ → Wal → Wal
unfolding begin_tx log_page_write log_commit
commit_page crc p bytes w =
    let (t, w1) = begin_tx w in
    let (written, w2) = log_page_write crc t p bytes w1 in
    let (done, w3) = log_commit crc t w2 in w3

commit_page-IsLog :
    (crc : Crc) (w : Wal) (rs : List WalRecord) (p : ℕ) (bytes : List ℕ)
    → IsLog crc w rs
    → w.next_lsn + 2 < 2 ^ 64
    → w.next_tx_id + 1 < 2 ^ 64
    → p < 2 ^ 32
    → length bytes < 2 ^ 32
    → IsLog crc (commit_page crc p bytes w) (rs ++ transaction w.next_lsn w.next_tx_id p bytes)
unfolding commit_page begin_tx log_page_write log_commit
commit_page-IsLog crc w rs p bytes h room txs hp hb =
    let (begun, fresh, unseen) = begin_tx-IsLog crc w rs h txs in
    let t = w.next_tx_id in
    let w1 = (begin_tx w).1 in
    let w2 = (log_page_write crc t p bytes w1).1 in
    let wrap : (w.next_lsn + 1) % 2 ^ 64 ≡ w.next_lsn + 1 = omega arith in
    let ids : w1.next_tx_id < 2 ^ 64 = omega arith in
    let ids2 : w2.next_tx_id < 2 ^ 64 = omega arith in
    let one : w1.next_lsn + 1 < 2 ^ 64 = omega arith in
    let two : w2.next_lsn + 1 < 2 ^ 64 = omega arith in
    let written = log_page_write-IsLog crc w1 rs t p bytes begun one ids fresh hp hb in
    let done = log_commit-IsLog crc w2 _ t written two ids2 fresh in
    subst (IsLog crc (commit_page crc p bytes w))
      (append_assoc rs _ _
        ∙ ap
            (λ n.
              rs
              ++ (record {
                lsn = w.next_lsn;
                tx_id = t;
                typ = type_page_write;
                page_id = p;
                bytes = bytes;
              }
                  ∷ record { lsn = n; tx_id = t; typ = type_commit; page_id = 0; bytes = [] }
                  ∷ []))
            wrap)
      done

-- A transaction that is begun on a log of whole records, writes one page and commits survives a crash
-- that leaves behind it a record torn anywhere, or fewer bytes than a header has: if no other transaction committed since the last checkpoint wrote the
-- page, `Recover` returns the bytes for it. The page number and the number of bytes fit a uint32,
-- and the counters are not at the end of a uint64.
pub recover-commit_page :
    (walk : GoMap ℕ (List PageWrite) → GoMap ℕ (List PageWrite))
    → ((m : GoMap ℕ (List PageWrite)) → IsWalk m (walk m))
    → (crc : Crc) (w : Wal) (rs : List WalRecord) (p : ℕ) (bytes tail : List ℕ) → IsLog crc w rs
    → w.next_lsn + 2 < 2 ^ 64
    → w.next_tx_id + 1 < 2 ^ 64
    → p < 2 ^ 32
    → length bytes < 2 ^ 32
    → IsTail crc tail
    → ((s : ℕ)
        → s ≢ w.next_tx_id
        → committed_in s (since_checkpoint rs) ≡ true
        → last_write s p (since_checkpoint rs) ≡ none)
    → lookup p (recover crc walk ((commit_page crc p bytes w).content ++ tail)) ≡ some bytes
recover-commit_page walk any_order crc w rs p bytes tail h room txs hp hb ht only =
    let lsn = w.next_lsn in
    let t = w.next_tx_id in
    let (hc, ho, hr, below) = commit_page-IsLog crc w rs p bytes h room txs hp hb in
    let new = transaction lsn t p bytes in
    let plain = has_checkpoint-transaction lsn t p bytes in
    let read : read_all crc ((commit_page crc p bytes w).content ++ tail) ≡ (rs ++ new, []) =
      ap (λ (c : List ℕ). read_all crc (c ++ tail)) hc
      ∙ read_all-serialize_all crc (rs ++ new) tail hr ht in
    let after : since_checkpoint (read_all crc ((commit_page crc p bytes w).content ++ tail)).0
        ≡ since_checkpoint rs ++ new =
      ap (λ x. since_checkpoint x.0) read ∙ since_checkpoint-append rs new plain in
    let committed : (s : ℕ)
        → committed_in s (since_checkpoint rs ++ new)
          ≡ (committed_in s (since_checkpoint rs) || (t == s)) =
      λ s.
        rw
          (
            committed_in-append s (since_checkpoint rs) new,
            committed_in-transaction lsn t p bytes s,
          )
          refl in
    let last : (s : ℕ)
        → last_write s p (since_checkpoint rs ++ new)
          ≡ or_else (if t == s then some bytes else none) (last_write s p (since_checkpoint rs)) =
      λ s.
        rw (last_write-append s p (since_checkpoint rs) new, last_write-transaction lsn t p bytes s)
          refl in
    let others : (s : ℕ)
        → s ≢ t
        → committed_in s (since_checkpoint rs ++ new) ≡ true
        → last_write s p (since_checkpoint rs ++ new) ≡ none =
      λ s n c. ground (arith, committed s, last s, only s n) in
    recover-committed walk any_order crc _ t p (rw after others)
    ∙ rw after (ground (arith, committed t, last t))
