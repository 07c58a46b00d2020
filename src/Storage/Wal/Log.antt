-- ===== src/Storage/Wal/Log.antt =====
-- internal/storage/wal.go: the open log and its operations. The file is its bytes and the offset at
-- which the next read or write happens.
pub mod Append
pub mod Durability
use hedgehog_db_opus.Base.{ℕ, ◌+◌, ◌-◌, ◌%◌, ◌^◌, List, [], ◌∷◌, ◌++◌, nat_keys, leb, ltb}
use hedgehog_db_opus.Base.{if◌then◌else◌, length, take, drop}
use hedgehog_db_opus.Storage.Wal.{Crc, WalRecord, type_page_write, type_commit, type_checkpoint}
use hedgehog_db_opus.Storage.Wal.{serialize, read_all}

-- `WAL`
pub record Wal : Type 0 where
  pub content : List ℕ
  pub offset : ℕ
  pub next_lsn : ℕ
  pub next_tx_id : ℕ

-- One round of the loop of `scanExisting`, on the two counters, which are uint64s.
abbrev pub bump : ℕ → ℕ → ℕ
bump next seen = if leb next seen then (seen + 1) % 2 ^ 64 else next

unfoldable pub scan_counters : ℕ → ℕ → List WalRecord → ℕ × ℕ
scan_counters next_lsn next_tx_id [] = (next_lsn, next_tx_id)
scan_counters next_lsn next_tx_id (r ∷ rs) =
    scan_counters (bump next_lsn r.lsn) (bump next_tx_id r.tx_id) rs

-- `file.Write` at the offset; at the end of the file it appends.
unfoldable pub write : List ℕ → Wal → Wal
write buf w = record {
  content = take w.offset w.content ++ (buf ++ drop (w.offset + length buf) w.content);
  offset = w.offset + length buf;
  next_lsn = w.next_lsn;
  next_tx_id = w.next_tx_id;
}

-- `BeginTx`
unfoldable pub begin_tx : Wal → ℕ × Wal
begin_tx w = (
  w.next_tx_id,
  record {
    content = w.content;
    offset = w.offset;
    next_lsn = w.next_lsn;
    next_tx_id = (w.next_tx_id + 1) % 2 ^ 64;
  },
)

-- `w.nextLSN++`
abbrev pub next_record : Wal → Wal
next_record w = record {
  content = w.content;
  offset = w.offset;
  next_lsn = (w.next_lsn + 1) % 2 ^ 64;
  next_tx_id = w.next_tx_id;
}

-- `Truncate`: the counters go on.
unfoldable pub truncate : Wal → Wal
truncate w = record { content = []; offset = 0; next_lsn = w.next_lsn; next_tx_id = w.next_tx_id }

-- `NextLSN`
abbrev pub current_lsn : Wal → ℕ
current_lsn w = w.next_lsn

module _ (crc : Crc) where
  -- `OpenWAL` on a file with this content, with `scanExisting`: the offset is left where reading
  -- stopped.
  unfoldable pub open_wal : List ℕ → Wal
  unfolding read_all scan_counters
  open_wal content =
      let (rs, left) = read_all crc content in
      let (next_lsn, next_tx_id) = scan_counters 1 1 rs in
      record {
        content = content;
        offset = length content - length left;
        next_lsn = next_lsn;
        next_tx_id = next_tx_id;
      }

  -- `LogPageWrite`
  unfoldable pub log_page_write : ℕ → ℕ → List ℕ → Wal → ℕ × Wal
  unfolding serialize write
  log_page_write tx_id page_id bytes w =
      let r : WalRecord = record {
        lsn = w.next_lsn;
        tx_id = tx_id;
        typ = type_page_write;
        page_id = page_id;
        bytes = bytes;
      } in
      (r.lsn, write (serialize crc r) (next_record w))

  -- `LogCommit`
  unfoldable pub log_commit : ℕ → Wal → ℕ × Wal
  unfolding serialize write
  log_commit tx_id w =
      let r : WalRecord = record {
        lsn = w.next_lsn;
        tx_id = tx_id;
        typ = type_commit;
        page_id = 0;
        bytes = [];
      } in
      (r.lsn, write (serialize crc r) (next_record w))

  -- `LogCheckpoint`
  unfoldable pub log_checkpoint : Wal → ℕ × Wal
  unfolding serialize write
  log_checkpoint w =
      let r : WalRecord = record {
        lsn = w.next_lsn;
        tx_id = 0;
        typ = type_checkpoint;
        page_id = 0;
        bytes = [];
      } in
      (r.lsn, write (serialize crc r) (next_record w))
