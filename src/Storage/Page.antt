-- ===== src/Storage/Page.antt =====
-- internal/storage/page.go, `Page`: the bytes of a page and its header. A key or a value is its bytes.
-- A page has 4096 bytes; an access out of range, a panic in Go, is described in Base/Buffer.
pub mod Pointers
pub mod Entries
pub mod Slots
pub mod Insertion
pub mod Deletion
pub mod Contents
pub mod Leaf
pub mod Internal
pub mod Overflow
use hedgehog_db_opus.Base.{ℕ, zero, suc, ◌+◌, ◌-◌, ◌*◌, Bool, true, false, List, [], ◌∷◌, replicate}
use hedgehog_db_opus.Base.Buffer.{read_at, copy_at, get_le, put_le}
use hedgehog_db_opus.Storage.FileHeader.{page_size}

abbrev pub page_type_internal : ℕ
page_type_internal = 1

abbrev pub page_type_leaf : ℕ
page_type_leaf = 2

abbrev pub page_type_free_list : ℕ
page_type_free_list = 3

abbrev pub page_type_overflow : ℕ
page_type_overflow = 4

abbrev pub page_header_size : ℕ
page_header_size = 16

abbrev pub cell_ptr_size : ℕ
cell_ptr_size = 2

pub record Page : Type 0 where
  pub id : ℕ
  pub bytes : List ℕ
  pub dirty : Bool

-- A `PutUintN` or `copy` into the page, which marks it.
abbrev pub poke : ℕ → ℕ → ℕ → Page → Page
poke w off n p = record { id = p.id; bytes = put_le w off n p.bytes; dirty = true }

-- `NewPage` leaves the page unmarked.
unfoldable pub new_page : ℕ → ℕ → Page
new_page id page_type = record {
  id = id;
  bytes =
      put_le 2 6 page_size
        (put_le 2 4 page_header_size (put_le 1 0 page_type (replicate page_size 0)));
  dirty = false;
}

abbrev pub page_type : Page → ℕ
page_type p = get_le 1 0 p.bytes

abbrev pub set_page_type : ℕ → Page → Page
set_page_type t p = poke 1 0 t p

abbrev pub flags : Page → ℕ
flags p = get_le 1 1 p.bytes

abbrev pub set_flags : ℕ → Page → Page
set_flags f p = poke 1 1 f p

abbrev pub cell_count : Page → ℕ
cell_count p = get_le 2 2 p.bytes

abbrev pub set_cell_count : ℕ → Page → Page
set_cell_count n p = poke 2 2 n p

abbrev pub free_space_start : Page → ℕ
free_space_start p = get_le 2 4 p.bytes

abbrev pub set_free_space_start : ℕ → Page → Page
set_free_space_start offset p = poke 2 4 offset p

abbrev pub free_space_end : Page → ℕ
free_space_end p = get_le 2 6 p.bytes

abbrev pub set_free_space_end : ℕ → Page → Page
set_free_space_end offset p = poke 2 6 offset p

abbrev pub parent_id : Page → ℕ
parent_id p = get_le 4 8 p.bytes

abbrev pub set_parent_id : ℕ → Page → Page
set_parent_id id p = poke 4 8 id p

abbrev pub right_pointer : Page → ℕ
right_pointer p = get_le 4 12 p.bytes

abbrev pub set_right_pointer : ℕ → Page → Page
set_right_pointer id p = poke 4 12 id p

-- `FreeSpace`: an int, which is 0 here where it is negative in Go. It is compared with positive
-- numbers only.
abbrev pub free_space : Page → ℕ
free_space p = free_space_end p - free_space_start p

-- The position of the i-th cell pointer.
abbrev pub pointer_at : ℕ → ℕ
pointer_at i = page_header_size + i * cell_ptr_size

abbrev pub get_cell_pointer : ℕ → Page → ℕ
get_cell_pointer i p = get_le 2 (pointer_at i) p.bytes

abbrev pub set_cell_pointer : ℕ → ℕ → Page → Page
set_cell_pointer i offset p = poke 2 (pointer_at i) offset p

-- The loop that makes room for a pointer, with `rounds` of it left from the index `i` down.
unfoldable pub shift_up : ℕ → ℕ → Page → Page
shift_up zero i p = p
shift_up (suc rounds) i p =
    shift_up rounds (i - 1) (set_cell_pointer i (get_cell_pointer (i - 1) p) p)

-- The loop that closes the gap of a pointer, with `rounds` of it left from the index `i` up.
unfoldable pub shift_down : ℕ → ℕ → Page → Page
shift_down zero i p = p
shift_down (suc rounds) i p =
    shift_down rounds (i + 1) (set_cell_pointer i (get_cell_pointer (i + 1) p) p)

-- The end of an insertion, for a cell that was written at `new_end`: the free space ends there, and
-- its pointer goes to the index `idx` among `count`.
unfoldable pub place_cell : ℕ → ℕ → ℕ → Page → Page
unfolding shift_up
place_cell idx count new_end p =
    set_free_space_start (page_header_size + (count + 1) * cell_ptr_size) (
      set_cell_count (count + 1) (
        set_cell_pointer idx new_end (shift_up (count - idx) count (set_free_space_end new_end p))))

-- The end of a deletion of the pointer at the index `idx` among `count`. The cell stays.
unfoldable pub drop_cell : ℕ → ℕ → Page → Page
unfolding shift_down
drop_cell idx count p =
    set_free_space_start (page_header_size + (count - 1) * cell_ptr_size)
      (set_cell_count (count - 1) (shift_down (count - 1 - idx) idx p))
