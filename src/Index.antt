-- ===== src/Index.antt =====
-- engine_race/DBSystem/Index.h, class Index: a 32-bit word that holds a buffer or record index (20
-- bits), four status bits and a file number (8 bits). An `int` argument is its bit pattern.
pub mod Word
pub mod Fields
pub mod Setters
use Prim.Native.Nat.{bit_and, bit_or}
use polardb_uncompleted.Base.{ℕ, ◌*◌, ◌/◌, ◌%◌, ◌^◌, Bool, ◌==◌, if◌then◌else◌}

pub record Index : Type 0 where
  pub status : ℕ

-- `Index()`
abbrev pub new : Index
new = record { status = 0 }

unfoldable pub get_fid : Index → ℕ
get_fid i = bit_and i.status 0x000000ff

unfoldable pub get_idx : Index → ℕ
get_idx i = bit_and i.status 0xfffff000 / 2 ^ 12

unfoldable pub clear_fid : Index → Index
clear_fid i = record { status = bit_and i.status 0xffffff00 }

unfoldable pub clear_idx : Index → Index
clear_idx i = record { status = bit_and i.status 0xc0000fff }

unfoldable pub set_fid : Index → ℕ → Index
unfolding clear_fid
set_fid i fid = record { status = bit_or (clear_fid i).status fid }

-- `idx<<12` in 32 bits
unfoldable pub set_idx : Index → ℕ → Index
unfolding clear_idx
set_idx i idx = record { status = bit_or (clear_idx i).status (idx * 2 ^ 12 % 2 ^ 32) }

-- `Index(int _status)`
unfoldable pub of_int : ℕ → Index
of_int s = set_idx new s

unfoldable pub if_valid : Index → ℕ
if_valid i = bit_and i.status 0x00000f00

unfoldable pub if_in_hash : Index → ℕ
if_in_hash i = bit_and i.status 0x00000200

unfoldable pub set_in_hash : Index → Bool → Index
set_in_hash i ifset =
    if ifset
    then record { status = bit_or i.status 0x00000200 }
    else record { status = bit_and i.status 0xfffffcff }

unfoldable pub if_in_file : Index → ℕ
if_in_file i = bit_and i.status 0x00000100

unfoldable pub set_in_file : Index → Bool → Index
set_in_file i ifset =
    if ifset
    then record { status = bit_or i.status 0x00000100 }
    else record { status = bit_and i.status 0xfffffeff }

unfoldable pub if_writing : Index → ℕ
if_writing i = bit_and i.status 0x00000400

unfoldable pub set_if_writing : Index → Bool → Index
set_if_writing i ifset =
    if ifset
    then record { status = bit_or i.status 0x00000400 }
    else record { status = bit_and i.status 0xfffffaff }

unfoldable pub equal : Index → Index → Bool
equal i another = get_idx i == get_idx another
