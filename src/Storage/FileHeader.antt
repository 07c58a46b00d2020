-- ===== src/Storage/FileHeader.antt =====
-- internal/storage/page.go, `FileHeader`: the header of a database file, in the first page. Bytes are
-- numbers below 256; the CRC-32 is that of the log. The magic string and the checksum are only in
-- the bytes: every header has the one string.
use hedgehog_db_opus.Base.{
  ℕ, ◌-◌, ◌^◌, ◌<◌, Bool, true, false, not, List, [], ◌∷◌, ◌++◌, nat_keys, ltb, ◌==◌, ◌≡◌, refl, ap,
  ◌∙◌, arith,
}
use hedgehog_db_opus.Base.{if◌then◌else◌, length, replicate, ==_refl}
use hedgehog_db_opus.Base.Bytes.{le_bytes, le_value, slice, le_value-le_bytes}
use hedgehog_db_opus.Storage.Wal.{Crc}

abbrev pub page_size : ℕ
page_size = 4096

abbrev pub file_version : ℕ
file_version = 1

-- "HEDGEHOG"
abbrev pub magic_string : List ℕ
magic_string = 72 ∷ 69 ∷ 68 ∷ 71 ∷ 69 ∷ 72 ∷ 79 ∷ 71 ∷ []

pub record FileHeader : Type 0 where
  pub version : ℕ
  pub root_page_id : ℕ
  pub total_pages : ℕ
  pub free_list_head : ℕ
  pub wal_lsn : ℕ

unfoldable pub new_file_header : FileHeader
new_file_header = record {
  version = file_version;
  root_page_id = 0;
  total_pages = 1;
  free_list_head = 0;
  wal_lsn = 0;
}

-- `buf[0:32]`, with the magic string.
unfoldable pub covered : FileHeader → List ℕ
unfolding le_bytes
covered h =
    magic_string
    ++ (le_bytes 4 h.version
        ++ (le_bytes 4 h.root_page_id
            ++ (le_bytes 4 h.total_pages ++ (le_bytes 4 h.free_list_head ++ le_bytes 8 h.wal_lsn))))

pub data HeaderResult : Type 0 where
  ok : FileHeader → HeaderResult
  invalid_page corrupt_page : HeaderResult

-- The comparison of the magic string, byte for byte.
unfoldable pub same_bytes : List ℕ → List ℕ → Bool
same_bytes [] [] = true
same_bytes [] (b ∷ bs) = false
same_bytes (a ∷ s) [] = false
same_bytes (a ∷ s) (b ∷ bs) = let rest = same_bytes s bs in if a == b then rest else false

module _ (crc : Crc) where
  unfoldable pub serialize_header : FileHeader → List ℕ
  unfolding covered
  serialize_header h =
      covered h ++ (le_bytes 4 (crc.update 0 (covered h)) ++ replicate (page_size - 36) 0)

  unfoldable pub deserialize_header : List ℕ → HeaderResult
  unfolding le_value same_bytes
  deserialize_header bytes =
      if ltb (length bytes) 36
      then invalid_page
      else if not (same_bytes (slice 0 8 bytes) magic_string)
      then invalid_page
      else if not (le_value (slice 32 36 bytes) == crc.update 0 (slice 0 32 bytes))
      then corrupt_page
      else ok (record {
        version = le_value (slice 8 12 bytes);
        root_page_id = le_value (slice 12 16 bytes);
        total_pages = le_value (slice 16 20 bytes);
        free_list_head = le_value (slice 20 24 bytes);
        wal_lsn = le_value (slice 24 32 bytes);
      })

  -- The fields are of the widths that the source gives them.
  abbrev pub IsHeader : FileHeader → Type 0
  IsHeader h =
      (h.version < 2 ^ 32)
      × (h.root_page_id < 2 ^ 32)
      × (h.total_pages < 2 ^ 32)
      × (h.free_list_head < 2 ^ 32)
      × (h.wal_lsn < 2 ^ 64)

  header_slices :
      (h : FileHeader) (rest : List ℕ)
      → (slice 0 32 (covered h ++ (le_bytes 4 (crc.update 0 (covered h)) ++ rest)) ≡ covered h)
        × (slice 0 8 (covered h ++ (le_bytes 4 (crc.update 0 (covered h)) ++ rest)) ≡ magic_string)
  unfolding covered le_bytes
  header_slices h rest = (refl, refl)

  header_fields :
      (h : FileHeader) (rest : List ℕ)
      → IsHeader h
      → (le_value (slice 8 12 (covered h ++ (le_bytes 4 (crc.update 0 (covered h)) ++ rest)))
          ≡ h.version)
        × (le_value (slice 12 16 (covered h ++ (le_bytes 4 (crc.update 0 (covered h)) ++ rest)))
            ≡ h.root_page_id)
        × (le_value (slice 16 20 (covered h ++ (le_bytes 4 (crc.update 0 (covered h)) ++ rest)))
            ≡ h.total_pages)
        × (le_value (slice 20 24 (covered h ++ (le_bytes 4 (crc.update 0 (covered h)) ++ rest)))
            ≡ h.free_list_head)
        × (le_value (slice 24 32 (covered h ++ (le_bytes 4 (crc.update 0 (covered h)) ++ rest)))
            ≡ h.wal_lsn)
        × (le_value (slice 32 36 (covered h ++ (le_bytes 4 (crc.update 0 (covered h)) ++ rest)))
            ≡ crc.update 0 (covered h))
  unfolding covered le_bytes le_value
  header_fields h rest (hv, hr, ht, hf, hw) = (
    le_value-le_bytes 4 h.version hv,
    le_value-le_bytes 4 h.root_page_id hr,
    le_value-le_bytes 4 h.total_pages ht,
    le_value-le_bytes 4 h.free_list_head hf,
    le_value-le_bytes 8 h.wal_lsn hw,
    le_value-le_bytes 4 _ (crc.update_bound 0 (covered h)),
  )

  header_long :
      (h : FileHeader) (rest : List ℕ)
      → ltb (length (covered h ++ (le_bytes 4 (crc.update 0 (covered h)) ++ rest))) 36 ≡ false
  unfolding covered le_bytes
  header_long h rest = ground arith

  magic_same : same_bytes magic_string magic_string ≡ true
  unfolding same_bytes
  magic_same = refl

  deserialize_header_fields :
      (bytes c : List ℕ) (h : FileHeader)
      → ltb (length bytes) 36 ≡ false
      → slice 0 8 bytes ≡ magic_string
      → slice 0 32 bytes ≡ c
      → le_value (slice 32 36 bytes) ≡ crc.update 0 c
      → le_value (slice 8 12 bytes) ≡ h.version
      → le_value (slice 12 16 bytes) ≡ h.root_page_id
      → le_value (slice 16 20 bytes) ≡ h.total_pages
      → le_value (slice 20 24 bytes) ≡ h.free_list_head
      → le_value (slice 24 32 bytes) ≡ h.wal_lsn
      → deserialize_header bytes ≡ ok h
  unfolding deserialize_header
  deserialize_header_fields bytes c h long magic all hc hv hr ht hf hw =
      let same : same_bytes (slice 0 8 bytes) magic_string ≡ true =
        ap (λ m. same_bytes m magic_string) magic ∙ magic_same in
      rw (long, same, hc, all, ==_refl (crc.update 0 c), hv, hr, ht, hf, hw) refl

  -- A file header whose fields fit their widths is read back from the page that it is written to.
  pub deserialize_header-serialize_header :
      (h : FileHeader) → IsHeader h → deserialize_header (serialize_header h) ≡ ok h
  unfolding serialize_header
  deserialize_header-serialize_header h fits =
      let rest = replicate (page_size - 36) 0 in
      let (hv, hr, ht, hf, hw, hc) = header_fields h rest fits in
      let (all, magic) = header_slices h rest in
      deserialize_header_fields (covered h ++ (le_bytes 4 (crc.update 0 (covered h)) ++ rest))
        (covered h) h (header_long h rest) magic all hc hv hr ht hf hw
