-- ===== src/Js/Files/Whole.antt =====
-- lib/fs.js, `writeFile` and `appendFile`: what their options do.
use Prim.Native.String.{String}
use mathlib.Core.Option.{some_inj}
use node_ext2fs.Base.{
  Bool, true, false, Option, none, some, [], ◌∷◌, ◌⊎◌, ◌∙◌, bit_or, Option-cases, inl, inr, ◌≡◌,
  ◌≢◌, refl, sym, if◌then◌else◌,
}
use node_ext2fs.Ext2.Filsys.{Bytes}
use node_ext2fs.Ext2.Library.{Ext2fs}
use node_ext2fs.Ext2.Modes.{o_wronly, o_creat, o_trunc}
use node_ext2fs.Js.Files.{
  Platform, Client, Outcome, failed, error, Target, descriptor, path_name, Data, buffer, string,
  open_with, open_file, opened, write_whole, file_defaults, append_defaults, write_file,
  write_file_with, append_file, append_file_with,
}
use node_ext2fs.Js.Options.{
  string_to_flags, mode_num, str, Object, Options, absent, encoding, keys, other, accepted, spread,
  get_options, object,
}
use node_ext2fs.Js.Paths.{use_path}

accepted-spread :
    (b : Bool) (k defaults o : Object)
    → (if b then some (spread k defaults) else none) ≡ some o
    → o ≡ spread k defaults
accepted-spread true k defaults o h = sym (some_inj.0 h)
accepted-spread false k defaults o h = absurd (cc)

-- What `getOptions` returns are the defaults, or other options under them.
get_options-cases :
    (is_encoding : String → Bool) (options : Options) (defaults o : Object)
    → get_options is_encoding options defaults ≡ some o
    → (o ≡ defaults) ⊎ ((k : Object) × (o ≡ spread k defaults))
unfolding get_options
get_options-cases is_encoding absent defaults o h = inl (sym (some_inj.0 h))
get_options-cases is_encoding (encoding e) defaults o h =
    let k = spread defaults (object (("encoding", str e) ∷ [])) in
    inr (k, accepted-spread (accepted is_encoding (k "encoding")) k defaults o h)
get_options-cases is_encoding (keys k) defaults o h =
    inr (k, accepted-spread (accepted is_encoding (k "encoding")) k defaults o h)
get_options-cases is_encoding other defaults o h = absurd (cc)

unless_accepted :
    (b : Bool) (o o' : Object)
    → (if b then some o else none) ≢ none
    → (if b then some o' else none) ≢ none
unless_accepted true o o' h = λ e. cc
unless_accepted false o o' h = h

-- Which options are accepted does not depend on the defaults.
get_options-accepted :
    (is_encoding : String → Bool) (options : Options) (defaults defaults' : Object)
    → get_options is_encoding options defaults ≢ none
    → get_options is_encoding options defaults' ≢ none
unfolding get_options
get_options-accepted is_encoding absent defaults defaults' h = λ e. cc
get_options-accepted is_encoding (encoding e) defaults defaults' h =
    unless_accepted (accepted is_encoding (some (str e)))
      (spread (spread defaults (object (("encoding", str e) ∷ []))) defaults)
      (spread (spread defaults' (object (("encoding", str e) ∷ []))) defaults') h
get_options-accepted is_encoding (keys k) defaults defaults' h =
    unless_accepted (accepted is_encoding (k "encoding")) (spread k defaults) (spread k defaults') h
get_options-accepted is_encoding other defaults defaults' h = h

module _ {D : Type 0} (lib : Ext2fs D) (node : Platform D) where
  write_file_with-spread :
      (target : Target) (contents : Data) (k : Object) (c : Client D)
      → write_file_with lib node target contents (some (spread k file_defaults)) c
        ≡ write_file_with lib node target contents (some file_defaults) c
  write_file_with-spread (descriptor n) contents k c = refl
  write_file_with-spread (path_name p) contents k c = refl

  -- Options that are accepted do not change what `writeFile` does.
  write_file-options :
      (target : Target) (contents : Data) (options : Options) (c : Client D)
      → get_options node.is_encoding options file_defaults ≢ none
      → write_file lib node target contents options c ≡ write_file lib node target contents absent c
  unfolding write_file get_options
  write_file-options target contents options c ok =
      elim (Option-cases (get_options node.is_encoding options file_defaults)) [
        | inl e ↦ absurd (ok e)
        | inr (o, e) ↦ elim (get_options-cases node.is_encoding options file_defaults o e) [
          | inl same ↦ rw (e, same) refl
          | inr (k, same) ↦ rw (e, same) (write_file_with-spread target contents k c)
        ]
      ]

  -- The options that `appendFile` passes on are accepted.
  append_file_with-write_file :
      (target : Target) (contents : Data) (o : Object) (c : Client D)
      → node.is_encoding "utf8" ≡ true
      → o "encoding" ≡ some (str "utf8")
      → append_file_with lib node target contents (some o) c
        ≡ write_file lib node target contents absent c
  unfolding get_options
  append_file_with-write_file target contents o c utf8 e =
      write_file-options target contents (keys (spread o (object (("flag", str "a") ∷ [])))) c
        (rw (e, utf8) λ absurd_none. cc)

  -- What is written, if the encoding of a text is UTF-8.
  abbrev pub utf8_bytes : Data → Bytes
  utf8_bytes (buffer bytes) = bytes
  utf8_bytes (string s) = node.buffer_from s (str "utf8")

  -- A file is opened with `O_TRUNC`, `O_CREAT` and `O_WRONLY` and with the mode 0666, and is written
  -- from position 0 on and closed. With a descriptor an exception is thrown.
  abbrev pub emptied_and_written : Target → Data → Client D → Option (Outcome (Unit {0})) × Client D
  emptied_and_written (descriptor n) contents c = (some (failed error), c)
  emptied_and_written (path_name path) contents c =
      opened lib node
        (open_with lib node (use_path path) (some (bit_or (bit_or o_trunc o_creat) o_wronly))
          (some 0o666) c)
        (write_whole lib node (utf8_bytes contents) (some 0))

  write_file-emptied_and_written :
      (target : Target) (contents : Data) (c : Client D)
      → write_file lib node target contents absent c ≡ emptied_and_written target contents c
  unfolding write_file get_options open_file string_to_flags mode_num
  write_file-emptied_and_written (descriptor n) contents c = refl
  write_file-emptied_and_written (path_name path) (buffer bytes) c = refl
  write_file-emptied_and_written (path_name path) (string s) c = refl

  -- Whatever options a caller gives to `writeFile` or to `appendFile`, if they do not make it throw and
  -- `utf8` is an encoding, the file is opened with `O_TRUNC`, `O_CREAT` and `O_WRONLY` and the mode
  -- 0666, and the text in UTF-8, or the buffer, is written from position 0 on; with a descriptor in the
  -- place of the path an exception is thrown. So `appendFile` empties the file, and does not append.
  pub append_file-write_file :
      (target : Target) (contents : Data) (options : Options) (c : Client D)
      → node.is_encoding "utf8" ≡ true
      → get_options node.is_encoding options append_defaults ≢ none
      → (append_file lib node target contents options c ≡ emptied_and_written target contents c)
        × (write_file lib node target contents options c ≡ emptied_and_written target contents c)
  unfolding append_file
  append_file-write_file target contents options c utf8 ok = (
    elim (Option-cases (get_options node.is_encoding options append_defaults)) [
      | inl e ↦ absurd (ok e)
      | inr (o, e) ↦ rw (e) (
          append_file_with-write_file target contents o c utf8
            (elim (get_options-cases node.is_encoding options append_defaults o e) [
              | inl same ↦ rw (same) refl
              | inr (k, same) ↦ rw (same) refl
            ]))
    ]
        ∙ write_file-emptied_and_written target contents c,
    write_file-options target contents options c
          (get_options-accepted node.is_encoding options append_defaults file_defaults ok)
        ∙ write_file-emptied_and_written target contents c,
  )
