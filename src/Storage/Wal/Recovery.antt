-- ===== src/Storage/Wal/Recovery.antt =====
-- internal/storage/wal.go: `Recover`, which replays the committed transactions of the log. The walk
-- over `txWrites` is a parameter, since Go does not fix the order in which it walks a map.
pub mod Images
use hedgehog_db_opus.Base.{ℕ, Bool, true, false, not, Option, none, some, nat_keys, ◌==◌, ◌≡◌}
use hedgehog_db_opus.Base.{List, [], ◌∷◌, ◌++◌, if◌then◌else◌}
use hedgehog_db_opus.Base.GoMap.{GoMap, Distinct, lookup, insert, read}
use hedgehog_db_opus.Storage.Wal.{Crc, WalRecord, type_page_write, type_commit, type_checkpoint}
use hedgehog_db_opus.Storage.Wal.{read_all}

pub record PageWrite : Type 0 where
  pub page_id : ℕ
  pub bytes : List ℕ
  pub lsn : ℕ

-- `txWrites` and `committedTxns`.
pub record Collected : Type 0 where
  pub tx_writes : GoMap ℕ (List PageWrite)
  pub committed : GoMap ℕ Bool

abbrev pub nothing_collected : Collected
nothing_collected = record { tx_writes = []; committed = [] }

-- One round of the loop over the records.
unfoldable pub collect_record : Collected → WalRecord → Collected
unfolding insert lookup
collect_record c r =
    if r.typ == type_page_write
    then (let write : PageWrite = record { page_id = r.page_id; bytes = r.bytes; lsn = r.lsn } in
        record {
          tx_writes = insert r.tx_id (read [] r.tx_id c.tx_writes ++ (write ∷ [])) c.tx_writes;
          committed = c.committed;
        })
    else if r.typ == type_commit
    then record { tx_writes = c.tx_writes; committed = insert r.tx_id true c.committed }
    else if r.typ == type_checkpoint
    then nothing_collected
    else c

unfoldable pub collect : Collected → List WalRecord → Collected
unfolding collect_record
collect c [] = c
collect c (r ∷ rs) = collect (collect_record c r) rs

-- The loop over the writes of one transaction.
unfoldable pub apply_writes : GoMap ℕ (List ℕ) → List PageWrite → GoMap ℕ (List ℕ)
unfolding insert
apply_writes result [] = result
apply_writes result (w ∷ ws) = apply_writes (insert w.page_id w.bytes result) ws

-- The loop over the transactions.
unfoldable pub apply_committed :
    GoMap ℕ Bool → GoMap ℕ (List ℕ) → GoMap ℕ (List PageWrite) → GoMap ℕ (List ℕ)
unfolding apply_writes lookup
apply_committed committed result [] = result
apply_committed committed result ((tx, writes) ∷ walk) =
    if not (read false tx committed)
    then apply_committed committed result walk
    else apply_committed committed (apply_writes result writes) walk

-- A walk over a map visits each of its entries once, in any order.
abbrev pub IsWalk : GoMap ℕ (List PageWrite) → GoMap ℕ (List PageWrite) → Type 0
IsWalk m walk = Distinct walk × ((k : ℕ) → lookup k walk ≡ lookup k m)

-- `Recover`, with the walk that the runtime takes over `txWrites`.
unfoldable pub recover :
    Crc → (GoMap ℕ (List PageWrite) → GoMap ℕ (List PageWrite)) → List ℕ → GoMap ℕ (List ℕ)
unfolding read_all collect apply_committed
recover crc walk content =
    let (rs, left) = read_all crc content in
    let c = collect nothing_collected rs in apply_committed c.committed [] (walk c.tx_writes)
