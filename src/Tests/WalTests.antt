-- ===== src/Tests/WalTests.antt =====
-- internal/storage/wal.go with a sum in place of the CRC-32, on a log of one committed
-- transaction, and the header of a new file.
use hedgehog_db_opus.Base.{
  ℕ, ◌+◌, ◌^◌, ◌<◌, List, [], ◌∷◌, ◌++◌, true, some, none, ◌≡◌, ◌≢◌, refl, arith, nat_keys, All,
  length, take, inl, inr, ap, sym, ◌∙◌,
}
use mathlib.Core.List.{append-nil}
use hedgehog_db_opus.Base.{if◌then◌else◌}
use hedgehog_db_opus.Base.GoMap.{GoMap, lookup, insert, lookup-insert}
use hedgehog_db_opus.Base.GoMap.Entries.{insert-Distinct}
use hedgehog_db_opus.Tests.Fixtures.{sum_crc}
use hedgehog_db_opus.Storage.Wal.{WalRecord, serialize, read_all, type_page_write, type_commit}
use hedgehog_db_opus.Storage.FileHeader.{IsHeader, new_file_header}
use hedgehog_db_opus.Storage.Wal.Codec.{IsRecord, IsTail, serialize_all, read_all-serialize_all}
use hedgehog_db_opus.Storage.Wal.Log.{Wal, open_wal}
use hedgehog_db_opus.Storage.Wal.Log.Append.{IsLog, open_wal-IsLog}
use hedgehog_db_opus.Storage.Wal.Log.Durability.{commit_page, recover-commit_page}
use hedgehog_db_opus.Storage.Wal.Recovery.{PageWrite, IsWalk, recover}
use hedgehog_db_opus.Storage.Wal.Recovery.Images.{
  has_checkpoint, since_checkpoint, committed_in, last_write, recover-committed,
}

-- A walk that puts the entries in again, the last first.
abbrev walk_again : GoMap ℕ (List PageWrite) → GoMap ℕ (List PageWrite)
walk_again [] = []
walk_again ((k, v) ∷ m) = insert k v (walk_again m)

walk_again-IsWalk : (m : GoMap ℕ (List PageWrite)) → IsWalk m (walk_again m)
unfolding lookup
walk_again-IsWalk [] = (tt, λ k. refl)
walk_again-IsWalk ((j, v) ∷ m) =
    let (d, same) = walk_again-IsWalk m in
    (
      insert-Distinct j v (walk_again m) d,
      λ k. ground (arith, lookup-insert j k v (walk_again m), same k),
    )

abbrev page_seven : WalRecord
page_seven = record { lsn = 1; tx_id = 1; typ = type_page_write; page_id = 7; bytes = 65 ∷ 66 ∷ [] }

abbrev commit_one : WalRecord
commit_one = record { lsn = 2; tx_id = 1; typ = type_commit; page_id = 0; bytes = [] }

abbrev one_transaction : List WalRecord
one_transaction = page_seven ∷ commit_one ∷ []

page_seven-IsRecord : IsRecord page_seven
page_seven-IsRecord = (omega arith, omega arith, omega arith, omega arith, omega arith)

commit_one-IsRecord : IsRecord commit_one
commit_one-IsRecord = (omega arith, omega arith, omega arith, omega arith, omega arith)

one_transaction-IsRecord : All IsRecord one_transaction
one_transaction-IsRecord = (page_seven-IsRecord, (commit_one-IsRecord, tt))

room : All (λ (r : WalRecord). (r.lsn + 1 < 2 ^ 64) × (r.tx_id + 1 < 2 ^ 64)) one_transaction
room = ((omega arith, omega arith), ((omega arith, omega arith), tt))

torn-IsTail : IsTail sum_crc (3 ∷ 0 ∷ [])
torn-IsTail = inl (omega arith)

-- A record whose data are written up to the last byte but one.
abbrev torn_record : List ℕ
torn_record = take 30 (serialize sum_crc page_seven)

torn_record-IsTail : IsTail sum_crc torn_record
unfolding serialize
torn_record-IsTail = inr (page_seven, 30, page_seven-IsRecord, omega arith, refl)

read_all-serialize_all_example :
    read_all sum_crc (serialize_all sum_crc one_transaction ++ (3 ∷ 0 ∷ [])) ≡ (one_transaction, [])
read_all-serialize_all_example =
    read_all-serialize_all sum_crc one_transaction (3 ∷ 0 ∷ []) one_transaction-IsRecord torn-IsTail

abbrev reopened : Wal
reopened = open_wal sum_crc (serialize_all sum_crc one_transaction)

reopened-IsLog : IsLog sum_crc reopened one_transaction
reopened-IsLog = open_wal-IsLog sum_crc one_transaction one_transaction-IsRecord room

-- A log with the same record file and counters that are written out.
abbrev running : Wal
running = record {
  content = serialize_all sum_crc one_transaction;
  offset = length (serialize_all sum_crc one_transaction);
  next_lsn = 3;
  next_tx_id = 2;
}

running-IsLog : IsLog sum_crc running one_transaction
running-IsLog = (
  refl,
  refl,
  one_transaction-IsRecord,
  ((omega arith, omega arith), ((omega arith, omega arith), tt)),
)

no_other_writer :
    (s : ℕ)
    → s ≢ 2
    → committed_in s (since_checkpoint one_transaction) ≡ true
    → last_write s 9 (since_checkpoint one_transaction) ≡ none
unfolding since_checkpoint last_write has_checkpoint
no_other_writer s n c = ground arith

recover-commit_page_example :
    lookup 9 (
      recover sum_crc walk_again ((commit_page sum_crc 9 (67 ∷ []) running).content ++ torn_record))
    ≡ some (67 ∷ [])
recover-commit_page_example =
    recover-commit_page walk_again walk_again-IsWalk sum_crc running one_transaction 9 (67 ∷ [])
      torn_record running-IsLog (omega arith) (omega arith) (omega arith) (omega arith)
      torn_record-IsTail no_other_writer

whole_file : (read_all sum_crc (serialize_all sum_crc one_transaction)).0 ≡ one_transaction
whole_file =
    ap (λ c. (read_all sum_crc c).0) (sym (append-nil (serialize_all sum_crc one_transaction)))
    ∙ ap (λ x. x.0)
        (read_all-serialize_all sum_crc one_transaction [] one_transaction-IsRecord (omega arith))

no_other_writer_of_seven :
    (s : ℕ)
    → s ≢ 1
    → committed_in s (since_checkpoint one_transaction) ≡ true
    → last_write s 7 (since_checkpoint one_transaction) ≡ none
unfolding since_checkpoint last_write has_checkpoint
no_other_writer_of_seven s n c = ground arith

only_one :
    (s : ℕ)
    → s ≢ 1
    → committed_in s
        (since_checkpoint ((read_all sum_crc (serialize_all sum_crc one_transaction)).0))
      ≡ true
    → last_write s 7
        (since_checkpoint ((read_all sum_crc (serialize_all sum_crc one_transaction)).0))
      ≡ none
only_one = rw whole_file no_other_writer_of_seven

recover-committed_example :
    lookup 7 (recover sum_crc walk_again (serialize_all sum_crc one_transaction)) ≡ (
      if committed_in 1
        (since_checkpoint ((read_all sum_crc (serialize_all sum_crc one_transaction)).0))
      then last_write 1 7
          (since_checkpoint ((read_all sum_crc (serialize_all sum_crc one_transaction)).0))
      else none)
recover-committed_example =
    recover-committed walk_again walk_again-IsWalk sum_crc (serialize_all sum_crc one_transaction) 1
      7 only_one

new_file_header-IsHeader : IsHeader sum_crc new_file_header
unfolding new_file_header
new_file_header-IsHeader = (omega arith, omega arith, omega arith, omega arith, omega arith)
