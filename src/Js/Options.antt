-- ===== src/Js/Options.antt =====
-- lib/fs.js: the options of its functions, and the flags that `open` takes as a text.
pub mod Access
use Prim.Native.Char.{code}
use Prim.Native.String.{String}
use text.Mathlib.Text.{◌==◌}
use node_ext2fs.Base.{
  ℕ, zero, suc, Bool, true, false, Option, none, some, List, [], ◌∷◌, bit_or, ◌||◌,
  ◌==◌ as ◌code_eq◌, if◌then◌else◌,
}
use node_ext2fs.Ext2.Modes.{o_wronly, o_rdwr, o_creat, o_excl, o_trunc, o_append}

-- A value of JavaScript as far as the options hold one, and an object by what its keys hold, none for
-- a key that it does not have.
pub data Value : Type 0 where
  num : ℕ → Value
  str : String → Value
  null : Value

abbrev pub Object : Type 0
Object = String → Option Value

abbrev pub or_else : {A : Type 0} → Option A → Option A → Option A
or_else (some a) b = some a
or_else none b = b

-- `{...first, ...second}`
abbrev pub spread : Object → Object → Object
spread first second key = or_else (second key) (first key)

-- An object that is written out.
abbrev pub object : List (String × Value) → Object
object [] key = none
object ((k, v) ∷ rows) key = let rest = object rows key in if k == key then some v else rest

-- What a caller gives as options: `null` or nothing, a text, an object, or a value of another type.
pub data Options : Type 0 where
  absent : Options
  encoding : String → Options
  keys : Object → Options
  other : Options

-- `options.encoding === 'buffer'`, or `assertEncoding(options.encoding)` does not throw.
abbrev pub accepted : (is_encoding : String → Bool) → Option Value → Bool
accepted is_encoding none = true
accepted is_encoding (some null) = true
accepted is_encoding (some (num zero)) = true
accepted is_encoding (some (num (suc n))) = false
accepted is_encoding (some (str s)) =
    let known = is_encoding s in if s == "buffer" then true else if s == "" then true else known

abbrev pub checked : (is_encoding : String → Bool) → (options defaults : Object) → Option Object
checked is_encoding options defaults =
    if accepted is_encoding (options "encoding") then some (spread options defaults) else none

-- `getOptions` with defaults; none where it throws.
unfoldable pub get_options :
    (is_encoding : String → Bool) → Options → (defaults : Object) → Option Object
get_options is_encoding absent defaults = some defaults
get_options is_encoding (encoding e) defaults =
    checked is_encoding (spread defaults (object (("encoding", str e) ∷ []))) defaults
get_options is_encoding (keys options) defaults = checked is_encoding options defaults
get_options is_encoding other defaults = none

abbrev pub o_rdonly : ℕ
o_rdonly = 0

-- `constants.O_SYNC`
abbrev pub o_sync : ℕ
o_sync = 1052672

-- The cases of the `switch` in `stringToFlags`.
abbrev pub flag_cases : List (String × ℕ)
flag_cases =
    ("r", o_rdonly)
    ∷ ("rs", bit_or o_rdonly o_sync)
    ∷ ("sr", bit_or o_rdonly o_sync)
    ∷ ("r+", o_rdwr)
    ∷ ("rs+", bit_or o_rdwr o_sync)
    ∷ ("sr+", bit_or o_rdwr o_sync)
    ∷ ("w", bit_or (bit_or o_trunc o_creat) o_wronly)
    ∷ ("wx", bit_or (bit_or (bit_or o_trunc o_creat) o_wronly) o_excl)
    ∷ ("xw", bit_or (bit_or (bit_or o_trunc o_creat) o_wronly) o_excl)
    ∷ ("w+", bit_or (bit_or o_trunc o_creat) o_rdwr)
    ∷ ("wx+", bit_or (bit_or (bit_or o_trunc o_creat) o_rdwr) o_excl)
    ∷ ("xw+", bit_or (bit_or (bit_or o_trunc o_creat) o_rdwr) o_excl)
    ∷ ("a", bit_or (bit_or o_append o_creat) o_wronly)
    ∷ ("ax", bit_or (bit_or (bit_or o_append o_creat) o_wronly) o_excl)
    ∷ ("xa", bit_or (bit_or (bit_or o_append o_creat) o_wronly) o_excl)
    ∷ ("a+", bit_or (bit_or o_append o_creat) o_rdwr)
    ∷ ("ax+", bit_or (bit_or (bit_or o_append o_creat) o_rdwr) o_excl)
    ∷ ("xa+", bit_or (bit_or (bit_or o_append o_creat) o_rdwr) o_excl)
    ∷ []

abbrev pub find_flags : String → List (String × ℕ) → Option ℕ
find_flags s [] = none
find_flags s ((name, flags) ∷ rows) =
    let rest = find_flags s rows in if name == s then some flags else rest

-- `stringToFlags`; none where it throws.
unfoldable pub string_to_flags : Option Value → Option ℕ
string_to_flags none = none
string_to_flags (some (num n)) = some n
string_to_flags (some (str s)) = find_flags s flag_cases
string_to_flags (some null) = none

-- `if (def) return modeNum(def);`
abbrev pub default_mode : Option ℕ → Option ℕ
default_mode none = none
default_mode (some zero) = none
default_mode (some (suc n)) = some (suc n)

-- `modeNum`, where `parse_octal` is `parseInt(m, 8)` as the C function gets it; none for `undefined`.
unfoldable pub mode_num : (parse_octal : String → ℕ) → Option Value → (def : Option ℕ) → Option ℕ
mode_num parse_octal (some (num n)) def = some n
mode_num parse_octal (some (str s)) def = some (parse_octal s)
mode_num parse_octal (some null) def = default_mode def
mode_num parse_octal none def = default_mode def

-- Whether a text has an (ASCII) character.
abbrev pub contains : ℕ → String → Bool
contains c String.[] = false
contains c (String.◌∷◌ d s) = let rest = contains c s in (code d) code_eq c || rest
