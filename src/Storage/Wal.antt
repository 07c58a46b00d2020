-- ===== src/Storage/Wal.antt =====
-- internal/storage/wal.go: the write-ahead log. The file is its bytes and the offset at which the
-- next read or write happens; the CRC-32 of the standard library is a parameter. Group commit, the
-- batching of the syncs of concurrent commits, is not modelled: a commit syncs by itself, as the
-- code does when group commit is off. I/O errors other than an end of file are not modelled.
pub mod Codec
pub mod Recovery
pub mod Log
use hedgehog_db_opus.Base.{ℕ, zero, suc, ◌+◌, ◌-◌, ◌%◌, ◌^◌, ◌<◌, Bool, true, false}
use hedgehog_db_opus.Base.{List, [], ◌∷◌, ◌++◌, nat_keys, ltb, leb, ◌==◌, not, if◌then◌else◌}
use hedgehog_db_opus.Base.{length, take, drop, map}
use hedgehog_db_opus.Base.Bytes.{le_bytes, le_value, slice}
use hedgehog_db_opus.Base.GoMap.{GoMap, read, insert}

-- `crc32.Update` over the IEEE table; `crc32.ChecksumIEEE` is its value from 0. It is a uint32.
pub record Crc : Type 0 where
  pub update : ℕ → List ℕ → ℕ
  pub update_bound : (c : ℕ) (bytes : List ℕ) → update c bytes < 2 ^ 32

abbrev pub header_size : ℕ
header_size = 29

abbrev pub type_page_write : ℕ
type_page_write = 1

abbrev pub type_commit : ℕ
type_commit = 2

abbrev pub type_checkpoint : ℕ
type_checkpoint = 3

-- The checksum of a record is only in its bytes.
pub record WalRecord : Type 0 where
  pub lsn : ℕ
  pub tx_id : ℕ
  pub typ : ℕ
  pub page_id : ℕ
  pub bytes : List ℕ

-- The header up to the checksum: `buf[0:25]`.
unfoldable pub header_of : WalRecord → List ℕ
unfolding le_bytes
header_of r =
    le_bytes 8 r.lsn
    ++ (le_bytes 8 r.tx_id ++ (r.typ ∷ (le_bytes 4 r.page_id ++ le_bytes 4 (length r.bytes))))

-- Reading stops at the end of the file or at a record whose checksum is wrong. What is left of the
-- file is where the next read would go on.
pub data ReadResult : Type 0 where
  got : WalRecord → List ℕ → ReadResult
  end_of_file : ReadResult
  crc_mismatch : List ℕ → ReadResult

module _ (crc : Crc) where
  -- The checksum of the header and, if there are any, the data.
  unfoldable pub checksum : List ℕ → List ℕ → ℕ
  checksum header bytes =
      let csum = crc.update 0 header in if ltb 0 (length bytes) then crc.update csum bytes else csum

  unfoldable pub serialize : WalRecord → List ℕ
  unfolding header_of checksum
  serialize r = header_of r ++ (le_bytes 4 (checksum (header_of r) r.bytes) ++ r.bytes)

  -- The record of a header and its data, if the checksum is right.
  unfoldable pub verify : List ℕ → List ℕ → List ℕ → ReadResult
  unfolding le_value checksum
  verify header bytes rest =
      if not (checksum (slice 0 25 header) bytes == le_value (slice 25 29 header))
      then crc_mismatch rest
      else got
          (record {
            lsn = le_value (slice 0 8 header);
            tx_id = le_value (slice 8 16 header);
            typ = le_value (slice 16 17 header);
            page_id = le_value (slice 17 21 header);
            bytes = bytes;
          })
          rest

  -- `io.ReadFull` of the header, then of the data.
  unfoldable pub deserialize : List ℕ → ReadResult
  unfolding verify
  deserialize input =
      if ltb (length input) header_size
      then end_of_file
      else let header = take header_size input in
        let input' = drop header_size input in
        let data_len = le_value (slice 21 25 header) in
        if ltb 0 data_len
        then (if ltb (length input') data_len
            then end_of_file
            else verify header (take data_len input') (drop data_len input'))
        else verify header [] input'

  -- The loop of `scanExisting` and `Recover`: the records up to the first that cannot be read, and
  -- the bytes after the point where reading stopped. Each round takes 29 bytes at least.
  unfoldable pub read_loop : ℕ → List ℕ → List WalRecord × List ℕ
  read_loop zero input = ([], input)
  read_loop (suc fuel) input = elim (deserialize input) [
    | end_of_file ↦ ([], [])
    | crc_mismatch rest ↦ ([], rest)
    | got r rest ↦ let (rs, left) = read_loop fuel rest in (r ∷ rs, left)
  ]

  unfoldable pub read_all : List ℕ → List WalRecord × List ℕ
  unfolding read_loop
  read_all content = read_loop (suc (length content)) content
