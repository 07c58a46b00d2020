-- ===== src/Storage/Wal/Log/Append.antt =====
-- internal/storage/wal.go: the operations of an open log append whole records, and a committed write
-- survives a crash.
use hedgehog_db_opus.Base.{
  ℕ, zero, suc, ◌+◌, ◌%◌, ◌^◌, ◌<◌, ◌≤◌, List, [], ◌∷◌, ◌++◌, nat_keys, ◌≡◌, refl, sym, ap, ◌∙◌,
}
use hedgehog_db_opus.Base.{length, take, drop, All, All-append, arith, length-append}
use hedgehog_db_opus.Storage.Wal.{Crc, WalRecord, type_page_write, type_commit}
use hedgehog_db_opus.Storage.Wal.{serialize, read_all}
use hedgehog_db_opus.Storage.Wal.Codec.{IsRecord, serialize_all, read_all-serialize_all}
use hedgehog_db_opus.Storage.Wal.Log.{Wal, bump, scan_counters, write, begin_tx, truncate, open_wal}
use hedgehog_db_opus.Storage.Wal.Log.{log_page_write, log_commit, next_record}
use mathlib.Core.List.{append_assoc, append-nil}

-- The counters are above what the records have.
abbrev pub IsBelow : ℕ → ℕ → WalRecord → Type 0
IsBelow next_lsn next_tx_id r = (r.lsn < next_lsn) × (r.tx_id < next_tx_id)

All-weaken {ℓ κ μ} :
    {A : Type ℓ} (P : A → Type κ) (Q : A → Type μ) (xs : List A)
    → ((x : A) → P x → Q x)
    → All P xs
    → All Q xs
All-weaken P Q [] f h = tt
All-weaken P Q (x ∷ xs) f (h, hs) = (f x h, All-weaken P Q xs f hs)

scan_counters_grow :
    (rs : List WalRecord) (l t : ℕ)
    → All (λ r. (r.lsn + 1 < 2 ^ 64) × (r.tx_id + 1 < 2 ^ 64)) rs
    → (l ≤ (scan_counters l t rs).0) × (t ≤ (scan_counters l t rs).1)
unfolding scan_counters
scan_counters_grow [] l t h = (omega arith, omega arith)
scan_counters_grow (r ∷ rs) l t (h, hs) =
    let (a, b) = scan_counters_grow rs (bump l r.lsn) (bump t r.tx_id) hs in
    let more : (l ≤ bump l r.lsn) × (t ≤ bump t r.tx_id) = ground arith in
    (omega (arith, a, more.0), omega (arith, b, more.1))

scan_counters-IsBelow :
    (rs : List WalRecord) (l t : ℕ)
    → All (λ r. (r.lsn + 1 < 2 ^ 64) × (r.tx_id + 1 < 2 ^ 64)) rs
    → All (IsBelow (scan_counters l t rs).0 (scan_counters l t rs).1) rs
unfolding scan_counters
scan_counters-IsBelow [] l t h = tt
scan_counters-IsBelow (r ∷ rs) l t (h, hs) =
    let (a, b) = scan_counters_grow rs (bump l r.lsn) (bump t r.tx_id) hs in
    let above : (r.lsn < bump l r.lsn) × (r.tx_id < bump t r.tx_id) = ground arith in
    (
      (omega (arith, a, above.0), omega (arith, b, above.1)),
      scan_counters-IsBelow rs (bump l r.lsn) (bump t r.tx_id) hs,
    )

take_all {ℓ} : {A : Type ℓ} (xs : List A) → take (length xs) xs ≡ xs
take_all [] = refl
take_all (x ∷ xs) = ap (◌∷◌ x) (take_all xs)

drop_all {ℓ} : {A : Type ℓ} (n : ℕ) (xs : List A) → length xs ≤ n → drop n xs ≡ []
drop_all zero [] h = refl
drop_all (suc n) [] h = refl
drop_all zero (x ∷ xs) h = absurd (omega arith)
drop_all (suc n) (x ∷ xs) h = drop_all n xs (omega arith)

write_end :
    (buf : List ℕ) (w : Wal)
    → w.offset ≡ length w.content
    → (write buf w).content ≡ w.content ++ buf
unfolding write
write_end buf w e =
    rw
      (
        e,
        take_all w.content,
        drop_all (length w.content + length buf) w.content (omega arith),
        append-nil buf,
      )
      refl

module _ (crc : Crc) where
  -- The file is exactly the records, the offset is its end, and the counters are above the records.
  abbrev pub IsLog : Wal → List WalRecord → Type 0
  IsLog w rs =
      (w.content ≡ serialize_all crc rs)
      × (w.offset ≡ length w.content)
      × All IsRecord rs
      × All (IsBelow w.next_lsn w.next_tx_id) rs

  serialize_all-append :
      (rs ss : List WalRecord)
      → serialize_all crc (rs ++ ss) ≡ serialize_all crc rs ++ serialize_all crc ss
  serialize_all-append [] ss = refl
  serialize_all-append (r ∷ rs) ss =
      ap (◌++◌ (serialize crc r)) (serialize_all-append rs ss)
      ∙ sym (append_assoc (serialize crc r) (serialize_all crc rs) (serialize_all crc ss))

  write-IsLog :
      (w : Wal) (rs : List WalRecord) (r : WalRecord)
      → IsLog w rs
      → IsRecord r
      → w.next_lsn + 1 < 2 ^ 64
      → r.lsn ≡ w.next_lsn
      → r.tx_id < w.next_tx_id
      → IsLog (write (serialize crc r) (next_record w)) (rs ++ (r ∷ []))
  unfolding write
  write-IsLog w rs r (hc, ho, hr, hb) fits room hl ht =
      let same : serialize_all crc (rs ++ (r ∷ [])) ≡ w.content ++ serialize crc r =
        serialize_all-append rs (r ∷ [])
        ∙ ap (λ (s : List ℕ). serialize_all crc rs ++ s) (append-nil (serialize crc r))
        ∙ ap (λ (s : List ℕ). s ++ serialize crc r) (sym hc) in
      let content = write_end (serialize crc r) (next_record w) ho in
      let longer : length ((write (serialize crc r) (next_record w)).content)
          ≡ length w.content + length (serialize crc r) =
        ap (λ (s : List ℕ). length s) content ∙ length-append w.content (serialize crc r) in
      let higher : w.next_lsn < (w.next_lsn + 1) % 2 ^ 64 = omega arith in
      (
        content ∙ sym same,
        omega (arith, longer, ho),
        All-append IsRecord rs (r ∷ []) hr (fits, tt),
        All-append (IsBelow ((w.next_lsn + 1) % 2 ^ 64) w.next_tx_id) rs (r ∷ [])
            (All-weaken (IsBelow w.next_lsn w.next_tx_id)
              (IsBelow ((w.next_lsn + 1) % 2 ^ 64) w.next_tx_id) rs
              (λ q (a, b). (omega (arith, a, higher), b)) hb)
            ((omega (arith, hl, higher), ht), tt),
      )

  -- Opening a file of whole records, none with the last numbers of a uint64, gives a log of exactly
  -- these records, with counters above all of theirs.
  pub open_wal-IsLog :
      (rs : List WalRecord)
      → All IsRecord rs
      → All (λ r. (r.lsn + 1 < 2 ^ 64) × (r.tx_id + 1 < 2 ^ 64)) rs
      → IsLog (open_wal crc (serialize_all crc rs)) rs
  unfolding open_wal
  open_wal-IsLog rs h room =
      let whole : read_all crc (serialize_all crc rs) ≡ (rs, []) =
        ap (read_all crc) (sym (append-nil (serialize_all crc rs)))
        ∙ read_all-serialize_all crc rs [] h (omega arith) in
      rw whole (refl, omega arith, h, scan_counters-IsBelow rs 1 1 room)

  -- `LogPageWrite` appends one record with the next LSN, which it returns, if the numbers fit their
  -- widths, the transaction was begun and an LSN is left.
  pub log_page_write-IsLog :
      (w : Wal) (rs : List WalRecord) (tx_id page_id : ℕ) (bytes : List ℕ)
      → IsLog w rs
      → w.next_lsn + 1 < 2 ^ 64
      → w.next_tx_id < 2 ^ 64
      → tx_id < w.next_tx_id
      → page_id < 2 ^ 32
      → length bytes < 2 ^ 32
      → IsLog (log_page_write crc tx_id page_id bytes w).1 (
          rs
          ++ (record {
            lsn = (log_page_write crc tx_id page_id bytes w).0;
            tx_id = tx_id;
            typ = type_page_write;
            page_id = page_id;
            bytes = bytes;
          }
              ∷ []))
  unfolding log_page_write
  log_page_write-IsLog w rs tx_id page_id bytes h room txs ht hp hb =
      write-IsLog w rs _ h (omega arith, omega arith, omega arith, hp, hb) room refl ht

  pub log_commit-IsLog :
      (w : Wal) (rs : List WalRecord) (tx_id : ℕ)
      → IsLog w rs
      → w.next_lsn + 1 < 2 ^ 64
      → w.next_tx_id < 2 ^ 64
      → tx_id < w.next_tx_id
      → IsLog (log_commit crc tx_id w).1 (
          rs
          ++ (record {
            lsn = (log_commit crc tx_id w).0;
            tx_id = tx_id;
            typ = type_commit;
            page_id = 0;
            bytes = [];
          }
              ∷ []))
  unfolding log_commit
  log_commit-IsLog w rs tx_id h room txs ht =
      write-IsLog w rs _ h (omega arith, omega arith, omega arith, omega arith, omega arith) room
        refl ht

  -- `BeginTx` keeps the log and gives a number that no record has.
  pub begin_tx-IsLog :
      (w : Wal) (rs : List WalRecord)
      → IsLog w rs
      → w.next_tx_id + 1 < 2 ^ 64
      → IsLog (begin_tx w).1 rs
        × ((begin_tx w).0 < (begin_tx w).1.next_tx_id)
        × All (λ r. r.tx_id < (begin_tx w).0) rs
  unfolding begin_tx
  begin_tx-IsLog w rs (hc, ho, hr, hb) room = (
    (
      hc,
      ho,
      hr,
      All-weaken (IsBelow w.next_lsn w.next_tx_id)
          (IsBelow w.next_lsn ((w.next_tx_id + 1) % 2 ^ 64)) rs (λ q (a, b). (a, omega (arith, b)))
          hb,
    ),
    omega arith,
    All-weaken (IsBelow w.next_lsn w.next_tx_id) (λ r. r.tx_id < w.next_tx_id) rs (λ q (a, b). b)
        hb,
  )

  -- `Truncate` leaves a log with no records.
  truncate-IsLog : (w : Wal) → IsLog (truncate w) []
  unfolding truncate
  truncate-IsLog w = (refl, refl, tt, tt)
