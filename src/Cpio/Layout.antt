-- ===== src/Cpio/Layout.antt =====
-- Where the parts of the archive lie, and what its fields say.
use mathlib.Core.List.{append_assoc}
use svetos_kernel.Base.{
  ℕ, zero, suc, ◌+◌, ◌-◌, ◌*◌, ◌/◌, ◌%◌, ◌^◌, ◌≤◌, ◌<◌, ◌≡◌, refl, true, false, Option, none, some,
  List, [], ◌∷◌, ◌++◌, ltb, ◌==◌, if◌then◌else◌, length, take, length-append, length-take,
  length-replicate, lt→ltb, ==-zero, ap, subst, ◌∙◌, arith,
}
use svetos_kernel.Cpio.{
  Str, octal_digits, octal_width, format_cpio_field, file_header, end_header, header_bytes,
  header_size, padding, add_file_to_cpio, trailer_name, add_end,
}
use svetos_kernel.Cpio.Names.{module_file, module_dest}
use svetos_kernel.Cpio.Main.{
  Files, written, parse_arguments, add_modules, module_tokens, build_archive, main,
}

-- an octal number that a zero ends
pub octal_value : ℕ → Str → ℕ
octal_value n [] = n
octal_value n (c ∷ cs) = let rest = octal_value (n * 8 + (c - 48)) cs in if c == 0 then n else rest

octal_digits-length : (k v : ℕ) → length (octal_digits k v) ≡ k
unfolding octal_digits
octal_digits-length zero v = refl
octal_digits-length (suc k) v = ap suc (octal_digits-length k v)

octal_width-ge : (fuel k v : ℕ) → k ≤ octal_width fuel k v
unfolding octal_width
octal_width-ge zero k v = omega arith
octal_width-ge (suc fuel) k v = ground (arith, octal_width-ge fuel (k + 1) v)

format_cpio_field-length : (v : ℕ) → length (format_cpio_field v) ≡ 8
unfolding format_cpio_field
format_cpio_field-length v =
    let w = octal_width 14 8 v in
    omega (
      arith,
      length-append (take 7 (take 8 (octal_digits w v))) (0 ∷ []),
      length-take 7 (take 8 (octal_digits w v)),
      length-take 8 (octal_digits w v),
      octal_digits-length w v,
      octal_width-ge 14 8 v,
    )

width-eight : (v : ℕ) → v < 8 ^ 8 → octal_width 14 8 v ≡ 8
unfolding octal_width
width-eight v small = let e : ltb v (8 ^ 8) ≡ true = lt→ltb v (8 ^ 8) small in rw e

octal_value-digit :
    (n d : ℕ) (cs : Str) → octal_value n ((48 + d) ∷ cs) ≡ octal_value (n * 8 + d) cs
unfolding octal_value
octal_value-digit n d cs =
    let digit : (48 + d == 0) ≡ false = ==-zero (48 + d) (omega arith) in
    let value : 48 + d - 48 ≡ d = omega arith in rw (digit, value)

octal_value-end : (n : ℕ) → octal_value n (0 ∷ []) ≡ n
unfolding octal_value
octal_value-end n = refl

octal_value-seven :
    (a b c d e f g : ℕ)
    → octal_value 0
        ((48 + a) ∷ (48 + b) ∷ (48 + c) ∷ (48 + d) ∷ (48 + e) ∷ (48 + f) ∷ (48 + g) ∷ 0 ∷ [])
      ≡ ((((((0 * 8 + a) * 8 + b) * 8 + c) * 8 + d) * 8 + e) * 8 + f) * 8 + g
octal_value-seven a b c d e f g = rw (
  octal_value-digit 0 a ((48 + b) ∷ (48 + c) ∷ (48 + d) ∷ (48 + e) ∷ (48 + f) ∷ (48 + g) ∷ 0 ∷ []),
  octal_value-digit (0 * 8 + a) b ((48 + c) ∷ (48 + d) ∷ (48 + e) ∷ (48 + f) ∷ (48 + g) ∷ 0 ∷ []),
  octal_value-digit ((0 * 8 + a) * 8 + b) c ((48 + d) ∷ (48 + e) ∷ (48 + f) ∷ (48 + g) ∷ 0 ∷ []),
  octal_value-digit (((0 * 8 + a) * 8 + b) * 8 + c) d ((48 + e) ∷ (48 + f) ∷ (48 + g) ∷ 0 ∷ []),
  octal_value-digit ((((0 * 8 + a) * 8 + b) * 8 + c) * 8 + d) e ((48 + f) ∷ (48 + g) ∷ 0 ∷ []),
  octal_value-digit (((((0 * 8 + a) * 8 + b) * 8 + c) * 8 + d) * 8 + e) f ((48 + g) ∷ 0 ∷ []),
  octal_value-digit ((((((0 * 8 + a) * 8 + b) * 8 + c) * 8 + d) * 8 + e) * 8 + f) g (0 ∷ []),
  octal_value-end (((((((0 * 8 + a) * 8 + b) * 8 + c) * 8 + d) * 8 + e) * 8 + f) * 8 + g),
)

-- A field for a number below 8 ^ 8 reads as an eighth of the number: its last digit is lost.
pub format_cpio_field_lem : (v : ℕ) → v < 8 ^ 8 → octal_value 0 (format_cpio_field v) ≡ v / 8
unfolding format_cpio_field octal_digits
format_cpio_field_lem v small =
    let width : octal_width 14 8 v ≡ 8 = width-eight v small in
    rw width (
      octal_value-seven (v / 8 ^ 7 % 8) (v / 8 ^ 6 % 8) (v / 8 ^ 5 % 8) (v / 8 ^ 4 % 8)
        (v / 8 ^ 3 % 8) (v / 8 ^ 2 % 8) (v / 8 ^ 1 % 8)
      ∙ omega arith)

padding-length : (n : ℕ) → (n + length (padding n)) % 4 ≡ 0
padding-length n = omega (arith, length-replicate {A = ℕ} ((4 - n % 4) % 4) 0)

file_header-length :
    (dest content : Str) → length (header_bytes (file_header dest content)) ≡ header_size
unfolding header_bytes file_header
file_header-length dest content =
    grind (arith, length-append, format_cpio_field-length, length-replicate)

end_header-length : length (header_bytes end_header) ≡ header_size
unfolding header_bytes end_header
end_header-length = grind (arith, length-append, format_cpio_field-length, length-replicate)

-- Behind an archive whose length is a multiple of 4, the bytes that `add_file_to_cpio` writes are a
-- head, the file's content and a padding: the content starts at a multiple of 4, and the length of
-- the archive is a multiple of 4 again.
pub add_file_to_cpio_lem :
    (archive content dest : Str)
    → length archive % 4 ≡ 0
    → (head pad : Str) × (add_file_to_cpio archive (some content) dest
        ≡ archive ++ head ++ content ++ pad)
      × (length (archive ++ head) % 4 ≡ 0)
      × (length (add_file_to_cpio archive (some content) dest) % 4 ≡ 0)
unfolding add_file_to_cpio
add_file_to_cpio_lem archive content dest even =
    let header = header_bytes (file_header dest content) in
    let name = dest ++ 0 ∷ [] in
    let pad = padding (header_size + length dest + 1) in
    let head = header ++ name ++ pad in
    let tail = padding (length content) in
    let front : archive ++ header ++ name ++ pad ≡ archive ++ head =
      ap (λ l. l ++ pad) (append_assoc archive header name)
      ∙ append_assoc archive (header ++ name) pad in
    let same = ap (λ l. l ++ content ++ tail) front in
    let aligned : length (archive ++ head) % 4 ≡ 0 = omega (
      arith,
      even,
      length-append archive head,
      length-append (header ++ name) pad,
      length-append header name,
      length-append dest (0 ∷ []),
      file_header-length dest content,
      padding-length (header_size + length dest + 1),
    ) in
    let total : length (archive ++ head ++ content ++ tail) % 4 ≡ 0 = omega (
      arith,
      aligned,
      length-append (archive ++ head ++ content) tail,
      length-append (archive ++ head) content,
      padding-length (length content),
    ) in
    (head, tail, same, aligned, ap (λ l. length l % 4) same ∙ total)

add_file-even :
    (archive : Str) (file : Option Str) (dest : Str)
    → length archive % 4 ≡ 0
    → length (add_file_to_cpio archive file dest) % 4 ≡ 0
unfolding add_file_to_cpio
add_file-even archive none dest even = even
add_file-even archive (some content) dest even =
    let (_, _, _, _, even') = add_file_to_cpio_lem archive content dest even in even'

add_modules-even :
    (files : Files) (tokens : List Str) (archive : Str)
    → length archive % 4 ≡ 0
    → length (add_modules files tokens archive) % 4 ≡ 0
unfolding add_modules
add_modules-even files [] archive even = even
add_modules-even files (t ∷ ts) archive even =
    add_modules-even files ts (add_file_to_cpio archive (files (module_file t)) (module_dest t))
      (add_file-even archive (files (module_file t)) (module_dest t) even)

add_end-even : (archive : Str) → length archive % 4 ≡ 0 → length (add_end archive) % 4 ≡ 0
unfolding add_end
add_end-even archive even =
    let tail = padding (header_size + 11) in
    omega (
      arith,
      even,
      length-append (archive ++ header_bytes end_header ++ trailer_name) tail,
      length-append (archive ++ header_bytes end_header) trailer_name,
      length-append archive (header_bytes end_header),
      end_header-length,
    )

written-some :
    (o : Option Str) (archive name result : Str)
    → written o archive ≡ some (name, result)
    → archive ≡ result
written-some none archive name result e = cc
written-some (some n) archive name result e = ground arith

-- Whatever the arguments and the files are, the archive that `main` writes has a length that is a
-- multiple of 4.
pub main_lem :
    (files : Files) (arguments : List Str) (name archive : Str)
    → main files arguments ≡ some (name, archive)
    → length archive % 4 ≡ 0
unfolding main build_archive
main_lem files [] name archive e = cc
main_lem files (a ∷ rest) name archive e =
    let o = parse_arguments (a ∷ rest) (record { output_filename = none; modules_to_add = none }) in
    let modules = add_modules files (module_tokens o.modules_to_add) [] in
    subst (λ l. length l % 4 ≡ 0) (written-some o.output_filename (add_end modules) name archive e)
      (add_end-even modules (add_modules-even files (module_tokens o.modules_to_add) [] refl))
