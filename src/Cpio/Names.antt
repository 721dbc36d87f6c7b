-- ===== src/Cpio/Names.antt =====
-- Which file tools/os-builder.c takes for the name of a module.
use svetos_kernel.Base.{
  Bool, true, false, ◌&&◌, Option, none, some, List, [], ◌∷◌, ◌++◌, ◌==◌, if◌then◌else◌, take,
}
use svetos_kernel.Cpio.{Str}

-- `strcmp(a, b) == 0`
unfoldable pub equal : Str → Str → Bool
equal [] [] = true
equal [] (y ∷ ys) = false
equal (x ∷ xs) [] = false
equal (x ∷ xs) (y ∷ ys) = x == y && equal xs ys

-- what follows a prefix that `strncmp` has found
unfoldable pub after_prefix : Str → Str → Option Str
after_prefix [] s = some s
after_prefix (x ∷ xs) [] = none
after_prefix (x ∷ xs) (y ∷ ys) = let rest = after_prefix xs ys in if x == y then rest else none

-- "timer"
abbrev pub timer : Str
timer = 116 ∷ 105 ∷ 109 ∷ 101 ∷ 114 ∷ []

-- "build/modules/drivers/core/timer/timer.o"
abbrev pub timer_file : Str
timer_file =
    98 ∷ 117 ∷ 105 ∷ 108 ∷ 100 ∷ 47 ∷ 109 ∷ 111 ∷ 100 ∷ 117 ∷ 108 ∷ 101 ∷ 115 ∷ 47 ∷ 100 ∷ 114 ∷ 105
    ∷ 118 ∷ 101 ∷ 114 ∷ 115 ∷ 47 ∷ 99 ∷ 111 ∷ 114 ∷ 101 ∷ 47 ∷ 116 ∷ 105 ∷ 109 ∷ 101 ∷ 114 ∷ 47
    ∷ 116 ∷ 105 ∷ 109 ∷ 101 ∷ 114 ∷ 46 ∷ 111 ∷ []

-- "keyboard"
abbrev pub keyboard : Str
keyboard = 107 ∷ 101 ∷ 121 ∷ 98 ∷ 111 ∷ 97 ∷ 114 ∷ 100 ∷ []

-- "build/modules/drivers/core/keyboard/keyboard.o"
abbrev pub keyboard_file : Str
keyboard_file =
    98 ∷ 117 ∷ 105 ∷ 108 ∷ 100 ∷ 47 ∷ 109 ∷ 111 ∷ 100 ∷ 117 ∷ 108 ∷ 101 ∷ 115 ∷ 47 ∷ 100 ∷ 114 ∷ 105
    ∷ 118 ∷ 101 ∷ 114 ∷ 115 ∷ 47 ∷ 99 ∷ 111 ∷ 114 ∷ 101 ∷ 47 ∷ 107 ∷ 101 ∷ 121 ∷ 98 ∷ 111 ∷ 97 ∷ 114
    ∷ 100 ∷ 47 ∷ 107 ∷ 101 ∷ 121 ∷ 98 ∷ 111 ∷ 97 ∷ 114 ∷ 100 ∷ 46 ∷ 111 ∷ []

-- "vga"
abbrev pub vga : Str
vga = 118 ∷ 103 ∷ 97 ∷ []

-- "build/modules/drivers/core/vga/vga.o"
abbrev pub vga_file : Str
vga_file =
    98 ∷ 117 ∷ 105 ∷ 108 ∷ 100 ∷ 47 ∷ 109 ∷ 111 ∷ 100 ∷ 117 ∷ 108 ∷ 101 ∷ 115 ∷ 47 ∷ 100 ∷ 114 ∷ 105
    ∷ 118 ∷ 101 ∷ 114 ∷ 115 ∷ 47 ∷ 99 ∷ 111 ∷ 114 ∷ 101 ∷ 47 ∷ 118 ∷ 103 ∷ 97 ∷ 47 ∷ 118 ∷ 103 ∷ 97
    ∷ 46 ∷ 111 ∷ []

-- "terminal"
abbrev pub terminal : Str
terminal = 116 ∷ 101 ∷ 114 ∷ 109 ∷ 105 ∷ 110 ∷ 97 ∷ 108 ∷ []

-- "build/modules/sys/terminal/terminal.o"
abbrev pub terminal_file : Str
terminal_file =
    98 ∷ 117 ∷ 105 ∷ 108 ∷ 100 ∷ 47 ∷ 109 ∷ 111 ∷ 100 ∷ 117 ∷ 108 ∷ 101 ∷ 115 ∷ 47 ∷ 115 ∷ 121 ∷ 115
    ∷ 47 ∷ 116 ∷ 101 ∷ 114 ∷ 109 ∷ 105 ∷ 110 ∷ 97 ∷ 108 ∷ 47 ∷ 116 ∷ 101 ∷ 114 ∷ 109 ∷ 105 ∷ 110
    ∷ 97 ∷ 108 ∷ 46 ∷ 111 ∷ []

-- "build/modules/"
abbrev pub modules_folder : Str
modules_folder = 98 ∷ 117 ∷ 105 ∷ 108 ∷ 100 ∷ 47 ∷ 109 ∷ 111 ∷ 100 ∷ 117 ∷ 108 ∷ 101 ∷ 115 ∷ 47 ∷ []

-- ".o"
abbrev pub object_suffix : Str
object_suffix = 46 ∷ 111 ∷ []

-- `filename` and `dest_path` in `main`, of 256 bytes each
unfoldable pub module_file : Str → Str
module_file token =
    if equal token timer
    then timer_file
    else if equal token keyboard
    then keyboard_file
    else if equal token vga
    then vga_file
    else if equal token terminal
    then terminal_file
    else take 255 (modules_folder ++ token ++ object_suffix)

unfoldable pub module_dest : Str → Str
module_dest token = take 255 (token ++ object_suffix)

-- "--output-initrd="
abbrev pub output_option : Str
output_option =
    45 ∷ 45 ∷ 111 ∷ 117 ∷ 116 ∷ 112 ∷ 117 ∷ 116 ∷ 45 ∷ 105 ∷ 110 ∷ 105 ∷ 116 ∷ 114 ∷ 100 ∷ 61 ∷ []

-- "--add="
abbrev pub add_option : Str
add_option = 45 ∷ 45 ∷ 97 ∷ 100 ∷ 100 ∷ 61 ∷ []

-- `strtok` with ",": the parts between commas that are not empty; `part` is the one being read
unfoldable pub tokens_from : (part s : Str) → List Str
tokens_from [] [] = []
tokens_from (p ∷ ps) [] = (p ∷ ps) ∷ []
tokens_from [] (c ∷ s) = if c == 44 then tokens_from [] s else tokens_from (c ∷ []) s
tokens_from (p ∷ ps) (c ∷ s) =
    if c == 44 then (p ∷ ps) ∷ tokens_from [] s else tokens_from (p ∷ ps ++ c ∷ []) s
