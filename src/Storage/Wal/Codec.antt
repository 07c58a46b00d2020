-- ===== src/Storage/Wal/Codec.antt =====
-- internal/storage/wal.go: `Serialize` against `DeserializeWALRecord`, for one record and for a file
-- of records.
use hedgehog_db_opus.Base.{
  ℕ, zero, suc, ◌^◌, ◌≤◌, ◌<◌, ◌≡◌, refl, sym, ap, ◌∙◌, ◌-◌, ◌+◌, ◌⊎◌, inl, inr,
}
use hedgehog_db_opus.Base.{true, false, List, [], ◌∷◌, ◌++◌, arith, nat_keys, ==_refl}
use hedgehog_db_opus.Base.{
  length, take, drop, All, if_intro, ltb, length-append, length-take, Bool-cases,
}
use hedgehog_db_opus.Base.{take-length_append, drop-length_append}
use hedgehog_db_opus.Base.Bytes.{le_bytes, le_value, slice, le_value-le_bytes}
use hedgehog_db_opus.Storage.Wal.{Crc, WalRecord, header_size, header_of, ReadResult, got}
use hedgehog_db_opus.Storage.Wal.{checksum, serialize, verify, deserialize, read_loop, read_all}
use mathlib.Core.List.{append_assoc, append-nil}

-- The fields are of the widths that the source gives them; the length fits a uint32.
abbrev pub IsRecord : WalRecord → Type 0
IsRecord r =
    (r.lsn < 2 ^ 64)
    × (r.tx_id < 2 ^ 64)
    × (r.typ < 2 ^ 8)
    × (r.page_id < 2 ^ 32)
    × (length r.bytes < 2 ^ 32)

take-append_length : (n : ℕ) (xs ys : List ℕ) → take (length xs + n) (xs ++ ys) ≡ xs ++ take n ys
take-append_length n [] ys = let none_before : 0 + n ≡ n = omega arith in rw none_before refl
take-append_length n (x ∷ xs) ys =
    let next : suc (length xs) + n ≡ suc (length xs + n) = omega arith in
    rw next (ap (◌∷◌ x) (take-append_length n xs ys))

module _ (crc : Crc) where
  -- The 29 bytes in front of the data.
  abbrev full_header : WalRecord → List ℕ
  full_header r = header_of r ++ le_bytes 4 (checksum crc (header_of r) r.bytes)

  checksum_bound : (header bytes : List ℕ) → checksum crc header bytes < 2 ^ 32
  unfolding checksum
  checksum_bound header bytes =
      if_intro (λ c. c < 2 ^ 32) (ltb 0 (length bytes)) _ _ (λ t. crc.update_bound _ bytes)
        (λ f. crc.update_bound 0 header)

  deserialize_header :
      (r : WalRecord) (rest : List ℕ) → take header_size (serialize crc r ++ rest) ≡ full_header r
  unfolding serialize header_of le_bytes
  deserialize_header r rest = refl

  deserialize_data :
      (r : WalRecord) (rest : List ℕ) → drop header_size (serialize crc r ++ rest) ≡ r.bytes ++ rest
  unfolding serialize header_of le_bytes
  deserialize_data r rest = refl

  header_covered : (r : WalRecord) → slice 0 25 (full_header r) ≡ header_of r
  unfolding header_of le_bytes
  header_covered r = refl

  header_fields :
      (r : WalRecord)
      → IsRecord r
      → (le_value (slice 0 8 (full_header r)) ≡ r.lsn)
        × (le_value (slice 8 16 (full_header r)) ≡ r.tx_id)
        × (le_value (slice 16 17 (full_header r)) ≡ r.typ)
        × (le_value (slice 17 21 (full_header r)) ≡ r.page_id)
        × (le_value (slice 21 25 (full_header r)) ≡ length r.bytes)
        × (le_value (slice 25 29 (full_header r)) ≡ checksum crc (header_of r) r.bytes)
  unfolding header_of le_bytes le_value
  header_fields r (hl, ht, hy, hp, hd) = (
    le_value-le_bytes 8 r.lsn hl,
    le_value-le_bytes 8 r.tx_id ht,
    omega arith,
    le_value-le_bytes 4 r.page_id hp,
    le_value-le_bytes 4 (length r.bytes) hd,
    le_value-le_bytes 4 _ (checksum_bound (header_of r) r.bytes),
  )

  verify-full_header :
      (r : WalRecord) (rest : List ℕ)
      → IsRecord r
      → verify crc (full_header r) r.bytes rest ≡ got r rest
  unfolding verify
  verify-full_header r rest h =
      let (hl, ht, hy, hp, hd, hc) = header_fields r h in
      rw (header_covered r, hc, ==_refl (checksum crc (header_of r) r.bytes), hl, ht, hy, hp) refl

  serialize_long : (r : WalRecord) (rest : List ℕ) → header_size ≤ length (serialize crc r ++ rest)
  unfolding serialize header_of le_bytes
  serialize_long r rest = omega arith

  deserialize_split :
      (input header bytes rest : List ℕ)
      → header_size ≤ length input
      → take header_size input ≡ header
      → drop header_size input ≡ bytes ++ rest
      → le_value (slice 21 25 header) ≡ length bytes
      → deserialize crc input ≡ verify crc header bytes rest
  unfolding deserialize
  deserialize_split input header [] rest hl hh hd hn = ground (arith, hh, hd, hn)
  deserialize_split input header (b ∷ bs) rest hl hh hd hn =
      let short : ltb (length input) header_size ≡ false = ground arith in
      let full : ltb (length ((b ∷ bs) ++ rest)) (length (b ∷ bs)) ≡ false =
        ground (arith, length-append (b ∷ bs) rest) in
      let nonempty : ltb 0 (length (b ∷ bs)) ≡ true = ground arith in
      let front : take (length bs) (bs ++ rest) ≡ bs = take-length_append bs rest in
      let back : drop (length bs) (bs ++ rest) ≡ rest = drop-length_append bs rest in
      unfold verify in rw (short, hh, hd, hn, full, front, back, nonempty) refl

  -- A record whose fields fit their widths is read back as it was written, whatever follows it, and
  -- reading goes on with what follows.
  pub deserialize-serialize :
      (r : WalRecord) (rest : List ℕ)
      → IsRecord r
      → deserialize crc (serialize crc r ++ rest) ≡ got r rest
  deserialize-serialize r rest h =
      let (hl, ht, hy, hp, hd, hc) = header_fields r h in
      deserialize_split _ (full_header r) r.bytes rest (serialize_long r rest)
        (deserialize_header r rest) (deserialize_data r rest) hd
      ∙ verify-full_header r rest h

  -- The file that appending the records to an empty one gives.
  abbrev pub serialize_all : List WalRecord → List ℕ
  serialize_all [] = []
  serialize_all (r ∷ rs) = serialize crc r ++ serialize_all rs

  -- What a crash leaves behind the records: fewer bytes than a header has, or a record that was written
  -- up to some byte short of its end.
  abbrev pub IsTail : List ℕ → Type 0
  IsTail tail =
      (length tail < header_size)
      ⊎ ((r : WalRecord) × (n : ℕ) × IsRecord r
          × (n < length (serialize crc r))
          × (tail ≡ take n (serialize crc r)))

  deserialize_short :
      (input : List ℕ)
      → header_size ≤ length input
      → length (drop header_size input) < le_value (slice 21 25 (take header_size input))
      → deserialize crc input ≡ ReadResult.end_of_file
  unfolding deserialize
  deserialize_short input hl hd = ground arith

  length-full_header : (r : WalRecord) → length (full_header r) ≡ 29
  unfolding header_of le_bytes
  length-full_header r = refl

  serialize_lem : (r : WalRecord) → serialize crc r ≡ full_header r ++ r.bytes
  unfolding serialize
  serialize_lem r =
      sym (append_assoc (header_of r) (le_bytes 4 (checksum crc (header_of r) r.bytes)) r.bytes)

  torn_split :
      (r : WalRecord) (n : ℕ) → take (29 + n) (serialize crc r) ≡ full_header r ++ take n r.bytes
  torn_split r n =
      ap (take (29 + n)) (serialize_lem r)
      ∙ ap (λ k. take (k + n) (full_header r ++ r.bytes)) (sym (length-full_header r))
      ∙ take-append_length n (full_header r) r.bytes

  torn_header :
      (r : WalRecord) (bs : List ℕ) → take header_size (full_header r ++ bs) ≡ full_header r
  unfolding header_of le_bytes
  torn_header r bs = refl

  torn_bytes : (r : WalRecord) (bs : List ℕ) → drop header_size (full_header r ++ bs) ≡ bs
  unfolding header_of le_bytes
  torn_bytes r bs = refl

  torn_length : (r : WalRecord) → length (serialize crc r) ≡ 29 + length r.bytes
  unfolding serialize header_of le_bytes
  torn_length r = omega arith

  -- A record that is torn behind its header is not read.
  deserialize_torn :
      (r : WalRecord) (n : ℕ)
      → IsRecord r
      → n < length r.bytes
      → deserialize crc (take (29 + n) (serialize crc r)) ≡ ReadResult.end_of_file
  deserialize_torn r n h short =
      let (hl, ht, hy, hp, hd, hc) = header_fields r h in
      ap (deserialize crc) (torn_split r n)
      ∙ deserialize_short (full_header r ++ take n r.bytes)
          (omega (arith, length-append (full_header r) (take n r.bytes), length-full_header r))
          (rw (torn_header r (take n r.bytes), torn_bytes r (take n r.bytes), hd)
            (omega (arith, length-take n r.bytes)))

  -- The bytes that follow the records stop the reading at once.
  deserialize-tail : (tail : List ℕ) → IsTail tail → deserialize crc tail ≡ ReadResult.end_of_file
  deserialize-tail tail (inl short) = unfold deserialize in ground arith
  deserialize-tail tail (inr (r, n, h, below, e)) = elim (Bool-cases (ltb n header_size)) [
    | inl t ↦
        let fewer : length tail < header_size =
          rw e (ground (arith, length-take n (serialize crc r))) in
        unfold deserialize in ground arith
    | inr f ↦
        let at : 29 + (n - 29) ≡ n = ground arith in
        let torn = deserialize_torn r (n - 29) h (ground (arith, torn_length r)) in
        rw (e, ← at) torn
  ]

  read_loop_step :
      (fuel : ℕ) (input : List ℕ) (r : WalRecord) (rest : List ℕ) (rs : List WalRecord)
      → deserialize crc input ≡ got r rest
      → read_loop crc fuel rest ≡ (rs, [])
      → read_loop crc (suc fuel) input ≡ (r ∷ rs, [])
  unfolding read_loop
  read_loop_step fuel input r rest rs e more = rw (e, read_loop, more) refl

  read_loop-serialize_all :
      (rs : List WalRecord) (tail : List ℕ) (fuel : ℕ)
      → All IsRecord rs
      → IsTail tail
      → length (serialize_all rs ++ tail) < fuel
      → read_loop crc fuel (serialize_all rs ++ tail) ≡ (rs, [])
  unfolding read_loop
  read_loop-serialize_all rs tail zero h ht hf = absurd (omega arith)
  read_loop-serialize_all [] tail (suc fuel) h ht hf = rw (deserialize-tail tail ht, read_loop) refl
  read_loop-serialize_all (r ∷ rs) tail (suc fuel) (hr, hs) ht hf =
      let rest = serialize_all rs ++ tail in
      let step : deserialize crc (serialize crc r ++ rest) ≡ got r rest =
        deserialize-serialize r rest hr in
      let shorter : length rest < fuel = omega (
        arith,
        length-append (serialize crc r) rest,
        append_length r,
        ap (λ (l : List ℕ). length l) (append_assoc (serialize crc r) (serialize_all rs) tail),
      ) in
      let more : read_loop crc fuel rest ≡ (rs, []) =
        read_loop-serialize_all rs tail fuel hs ht shorter in
      let whole : serialize_all (r ∷ rs) ++ tail ≡ serialize crc r ++ rest =
        append_assoc (serialize crc r) (serialize_all rs) tail in
      ap (read_loop crc (suc fuel)) whole ∙ read_loop_step fuel _ r rest rs step more
    where
      append_length : (r : WalRecord) → header_size ≤ length (serialize crc r)
      append_length r =
          omega (
            arith,
            serialize_long r [],
            ap (λ (l : List ℕ). length l) (append-nil (serialize crc r)),
          )

  -- Reading a file of records from its start gives exactly the records, in the order written. A record at
  -- the end that is torn anywhere, and any rest of fewer bytes than a header has, is left out and
  -- does no harm to the others.
  pub read_all-serialize_all :
      (rs : List WalRecord) (tail : List ℕ)
      → All IsRecord rs
      → IsTail tail
      → read_all crc (serialize_all rs ++ tail) ≡ (rs, [])
  unfolding read_all
  read_all-serialize_all rs tail h ht =
      read_loop-serialize_all rs tail (suc (length (serialize_all rs ++ tail))) h ht (omega arith)
