-- ===== src/Cpio.antt =====
-- The archive that tools/os-builder.c writes. A string is the list of its bytes before the final
-- zero, a `FILE` the list of what is written to it.
pub mod Names
pub mod Main
pub mod Layout
mod Tests
use svetos_kernel.Base.{
  ℕ, zero, suc, ◌+◌, ◌-◌, ◌*◌, ◌/◌, ◌%◌, ◌^◌, Bool, true, false, Option, none, some, List, [], ◌∷◌,
  ◌++◌, ltb, ◌==◌, if◌then◌else◌, length, take, replicate,
}

abbrev pub Str : Type 0
Str = List ℕ

-- the low `k` octal digits, the highest first
unfoldable pub octal_digits : ℕ → ℕ → Str
octal_digits zero v = []
octal_digits (suc k) v = (48 + v / 8 ^ k % 8) ∷ octal_digits k v

-- how many digits `%08lo` prints, 8 at least; a 64-bit number has 22 at most
unfoldable pub octal_width : ℕ → ℕ → ℕ → ℕ
octal_width zero k v = k
octal_width (suc fuel) k v =
    let rest = octal_width fuel (k + 1) v in if ltb v (8 ^ k) then k else rest

-- `format_cpio_field` for a field of 8 bytes: `snprintf` cuts to 8 digits, `strncpy` to 7
unfoldable pub format_cpio_field : ℕ → Str
format_cpio_field value = take 7 (take 8 (octal_digits (octal_width 14 8 value) value)) ++ 0 ∷ []

-- `struct cpio_header`, a field of which that is not written is zero
pub record CpioHeader : Type 0 where
  pub c_magic : Str
  pub c_ino : Str
  pub c_mode : Str
  pub c_uid : Str
  pub c_gid : Str
  pub c_nlink : Str
  pub c_mtime : Str
  pub c_filesize : Str
  pub c_devmajor : Str
  pub c_devminor : Str
  pub c_rdevmajor : Str
  pub c_rdevminor : Str
  pub c_namesize : Str
  pub c_check : Str

-- "070701"
abbrev pub cpio_magic : Str
cpio_magic = 48 ∷ 55 ∷ 48 ∷ 55 ∷ 48 ∷ 49 ∷ []

unfoldable pub file_header : (dest_path content : Str) → CpioHeader
file_header dest_path content = record {
  c_magic = cpio_magic;
  c_ino = replicate 8 0;
  c_mode = format_cpio_field 33188;
  c_uid = format_cpio_field 0;
  c_gid = format_cpio_field 0;
  c_nlink = format_cpio_field 1;
  c_mtime = format_cpio_field 0;
  c_filesize = format_cpio_field (length content);
  c_devmajor = format_cpio_field 0;
  c_devminor = format_cpio_field 0;
  c_rdevmajor = format_cpio_field 0;
  c_rdevminor = format_cpio_field 0;
  c_namesize = format_cpio_field (length dest_path + 1);
  c_check = format_cpio_field 0;
}

-- the header that ends the archive
unfoldable pub end_header : CpioHeader
end_header = record {
  c_magic = cpio_magic;
  c_ino = replicate 8 0;
  c_mode = replicate 8 0;
  c_uid = replicate 8 0;
  c_gid = replicate 8 0;
  c_nlink = replicate 8 0;
  c_mtime = replicate 8 0;
  c_filesize = format_cpio_field 0;
  c_devmajor = replicate 8 0;
  c_devminor = replicate 8 0;
  c_rdevmajor = replicate 8 0;
  c_rdevminor = replicate 8 0;
  c_namesize = format_cpio_field 11;
  c_check = replicate 8 0;
}

-- the header as it lies in memory
unfoldable pub header_bytes : CpioHeader → Str
header_bytes h =
    h.c_magic ++ h.c_ino ++ h.c_mode ++ h.c_uid ++ h.c_gid ++ h.c_nlink ++ h.c_mtime ++ h.c_filesize
    ++ h.c_devmajor ++ h.c_devminor ++ h.c_rdevmajor ++ h.c_rdevminor ++ h.c_namesize ++ h.c_check

-- `sizeof(struct cpio_header)`
abbrev pub header_size : ℕ
header_size = 110

-- the zeros that fill up to a multiple of 4
abbrev pub padding : ℕ → Str
padding n = replicate ((4 - n % 4) % 4) 0

-- `add_file_to_cpio` of a file with this content; without one it writes nothing
unfoldable pub add_file_to_cpio : (archive : Str) (file : Option Str) (dest_path : Str) → Str
add_file_to_cpio archive none dest_path = archive
add_file_to_cpio archive (some content) dest_path =
    archive
    ++ header_bytes (file_header dest_path content)
    ++ (dest_path ++ 0 ∷ [])
    ++ padding (header_size + length dest_path + 1)
    ++ content
    ++ padding (length content)

-- "TRAILER!!!" with its zero
abbrev pub trailer_name : Str
trailer_name = 84 ∷ 82 ∷ 65 ∷ 73 ∷ 76 ∷ 69 ∷ 82 ∷ 33 ∷ 33 ∷ 33 ∷ 0 ∷ []

unfoldable pub add_end : Str → Str
add_end archive = archive ++ header_bytes end_header ++ trailer_name ++ padding (header_size + 11)
