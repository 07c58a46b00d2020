-- ===== src/Storage/Page/Overflow.antt =====
-- internal/storage/page.go: overflow pages, which hold a part of a value and the number of the next
-- overflow page. A payload of more than 4088 bytes is cut.
use hedgehog_db_opus.Base.{
  ℕ, ◌-◌, ◌^◌, ◌≤◌, ◌<◌, ◌≡◌, refl, ap, sym, ◌∙◌, List, length, take, inl, inr, arith,
}
use hedgehog_db_opus.Base.{
  replicate, length-replicate, length-take, take_all, ltb, if◌then◌else◌, Bool-cases,
}
use hedgehog_db_opus.Base.Bytes.{le_bytes, length-le_bytes}
use hedgehog_db_opus.Base.Buffer.{
  read_at, copy_at, get_le, put_le, Holds-put_le, Holds-keep_put, Holds-keep,
}
use hedgehog_db_opus.Base.Buffer.{Holds-copy_at, get_le-Holds, read_at-Holds, length-copy_at}
use mathlib.Core.Path.{subst}
use hedgehog_db_opus.Storage.FileHeader.{page_size}
use hedgehog_db_opus.Storage.Page.{page_type_overflow}

abbrev pub overflow_header_size : ℕ
overflow_header_size = 8

abbrev pub overflow_data_size : ℕ
overflow_data_size = page_size - overflow_header_size

-- The length of what is written of a payload.
abbrev pub overflow_data_len : List ℕ → ℕ
overflow_data_len payload =
    if ltb overflow_data_size (length payload) then overflow_data_size else length payload

unfoldable pub write_overflow_page : List ℕ → ℕ → List ℕ
write_overflow_page payload next_overflow =
    let data_len = overflow_data_len payload in
    let d1 = put_le 1 1 0 (put_le 1 0 page_type_overflow (replicate page_size 0)) in
    let d2 = put_le 2 2 data_len d1 in
    let d3 = put_le 4 4 next_overflow d2 in copy_at overflow_header_size (take data_len payload) d3

unfoldable pub read_overflow_page : List ℕ → List ℕ × ℕ
read_overflow_page page =
    let data_len = get_le 2 2 page in (read_at overflow_header_size data_len page, get_le 4 4 page)

-- A prefix that is cut at `n`.
overflow_prefix :
    (n : ℕ) (payload : List ℕ)
    → (length (take (if ltb n (length payload) then n else length payload) payload)
        ≡ (if ltb n (length payload) then n else length payload))
      × (take (if ltb n (length payload) then n else length payload) payload ≡ take n payload)
      × ((if ltb n (length payload) then n else length payload) ≤ n)
overflow_prefix n payload = elim (Bool-cases (ltb n (length payload))) [
  | inl t ↦
      let long : n < length payload = ground arith in
      rw t (omega (arith, length-take n payload, long), refl, omega arith)
  | inr f ↦
      let short : length payload ≤ n = ground arith in
      let all = take_all (length payload) payload (omega arith) in
      rw f (ap (λ (xs : List ℕ). length xs) all, all ∙ sym (take_all n payload short), short)
]

-- A page on which the three writes were made.
written :
    (d content : List ℕ) (len next_overflow : ℕ)
    → length content ≡ len
    → length d ≡ page_size
    → len ≤ overflow_data_size
    → next_overflow < 2 ^ 32
    → read_overflow_page
        (copy_at overflow_header_size content (put_le 4 4 next_overflow (put_le 2 2 len d)))
      ≡ (content, next_overflow)
unfolding read_overflow_page
written d content len next_overflow size long fits small =
    let d1 = put_le 2 2 len d in
    let d2 = put_le 4 4 next_overflow d1 in
    let d3 = copy_at overflow_header_size content d2 in
    let l1 : length d1 ≡ page_size = length-copy_at 2 (le_bytes 2 len) d ∙ long in
    let l2 : length d2 ≡ page_size = length-copy_at 4 (le_bytes 4 next_overflow) d1 ∙ l1 in
    let b2 = length-le_bytes 2 len in
    let b4 = length-le_bytes 4 next_overflow in
    let count : get_le 2 2 d3 ≡ len = get_le-Holds 2 len 2 d3 (omega (arith, fits)) (
      Holds-keep 2 (le_bytes 2 len) 8 content d2 (inl (omega (arith, b2))) (
        Holds-keep_put 2 (le_bytes 2 len) 4 4 next_overflow d1 (inl (omega (arith, b2)))
          (Holds-put_le 2 2 len d (omega (arith, long))))) in
    let link : get_le 4 4 d3 ≡ next_overflow = get_le-Holds 4 next_overflow 4 d3 small (
      Holds-keep 4 (le_bytes 4 next_overflow) 8 content d2 (inl (omega (arith, b4)))
        (Holds-put_le 4 4 next_overflow d1 (omega (arith, l1)))) in
    let body : read_at 8 len d3 ≡ content =
      subst (λ n. read_at 8 n d3 ≡ content) size
        (read_at-Holds d3 8 content (Holds-copy_at 8 content d2 (omega (arith, fits, l2, size)))) in
    rw (count, link, body) refl

-- An overflow page is read back as the first 4088 bytes of the payload, all of it if it is not longer,
-- with the next page.
pub read_overflow_page-write_overflow_page :
    (payload : List ℕ) (next_overflow : ℕ)
    → next_overflow < 2 ^ 32
    → read_overflow_page (write_overflow_page payload next_overflow)
      ≡ (take overflow_data_size payload, next_overflow)
unfolding write_overflow_page
read_overflow_page-write_overflow_page payload next_overflow small =
    let zero_byte : ℕ = 0 in
    let empty = replicate page_size zero_byte in
    let d0 = put_le 1 0 page_type_overflow empty in
    let d1 = put_le 1 1 0 d0 in
    let l1 : length d1 ≡ page_size =
      length-copy_at 1 (le_bytes 1 0) d0
      ∙ length-copy_at 0 (le_bytes 1 page_type_overflow) empty
      ∙ length-replicate page_size zero_byte in
    let (size, same, fits) = overflow_prefix overflow_data_size payload in
    written d1 (take (overflow_data_len payload) payload) (overflow_data_len payload) next_overflow
      size l1 fits small
    ∙ ap (λ content. (content, next_overflow)) same
