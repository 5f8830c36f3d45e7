-- ===== src/FileTools/Read/Examples.antt =====
-- `read_file` of a file with three lines.
use local_mcp.Common.{◌+◌, ◌≡◌, ◌≢◌, refl, subst, true, false, none, some, [], ◌∷◌, ◌++◌, arith}
use local_mcp.Common.Str.{Str, bytes, lines, str_eq}
use local_mcp.Common.Decimal.{decimal, digits, align_right}
use local_mcp.Common.Utf8.{from_utf8_lossy, lossy, chunk, is_char_boundary}
use local_mcp.Common.Result.{ok, err, ok-inj}
use local_mcp.FilePath.{
  root_dir, normal, components, component_eq, join, parent, strip_base, starts_with,
}
use local_mcp.Root.{Root, normalize, lexical, walk_up, push_all, resolve, relativize}
use local_mcp.FileTools.{Os, binary, offset_past_end, shown}
use local_mcp.FileTools.Output.{returned, panicked, truncate, AtMost}
use local_mcp.FileTools.Read.{looks_binary, slice, numbered, read_window, read_content, read_file}
use local_mcp.FileTools.Read.Window.{window, Reading, text_of, read_file_ok}
use local_mcp.FileTools.Read.Ascii.{IsAscii, read_file-IsAscii}
use local_mcp.FileTools.Read.Tiles.{read_file_tiles}

abbrev root : Root
root = record { path = root_dir ∷ normal (bytes "srv") ∷ [] }

-- The disk is the text of the one file, and every path names it.
abbrev os : Os Str
os = record {
  fs = λ d. record { exists = λ p. true; canonicalize = λ p. ok p };
  read = λ d p. ok d;
  read_to_string = λ d p. ok d;
  is_dir = λ d p. ok false;
  create_dir_all = λ p d. (ok tt, d);
  write = λ p content d. (ok tt, content);
}

abbrev text : Str
text = bytes "a\nb\r\nc"

abbrev tail_lines : Str
tail_lines = bytes "     2\tb\n     3\tc\n"

whole :
    read_file os root (bytes "f") none none 64 text
    ≡ ok (returned (bytes "     1\ta\n     2\tb\n     3\tc\n"))
unfolding read_file read_content read_window looks_binary slice numbered lines from_utf8_lossy lossy
    chunk truncate decimal digits align_right resolve lexical components normalize join parent
    starts_with strip_base component_eq str_eq walk_up push_all
whole = refl

tail_read : read_file os root (bytes "f") (some 1) none 64 text ≡ ok (returned tail_lines)
unfolding read_file read_content read_window looks_binary slice numbered lines from_utf8_lossy lossy
    chunk truncate decimal digits align_right resolve lexical components normalize join parent
    starts_with strip_base component_eq str_eq walk_up push_all
tail_read = refl

past : read_file os root (bytes "f") (some 3) none 64 text ≡ err (offset_past_end 3 (bytes "f") 3)
unfolding read_file read_content read_window looks_binary slice numbered lines from_utf8_lossy lossy
    chunk truncate decimal digits align_right resolve lexical components normalize join parent
    starts_with strip_base component_eq str_eq walk_up push_all shown relativize
past = refl

refuses_binary :
    read_file os root (bytes "f") none none 64 (97 ∷ 0 ∷ []) ≡ err (binary (bytes "f") 2)
unfolding read_file read_content read_window looks_binary slice numbered lines from_utf8_lossy lossy
    chunk truncate decimal digits align_right resolve lexical components normalize join parent
    starts_with strip_base component_eq str_eq walk_up push_all shown relativize
refuses_binary = refl

-- The limit of 8 is within the second byte of the one character.
brings_down : read_file os root (bytes "f") none none 8 (0xC3 ∷ 0xA9 ∷ []) ≡ ok panicked
unfolding read_file read_content read_window looks_binary slice numbered lines from_utf8_lossy lossy
    chunk truncate is_char_boundary decimal digits align_right resolve lexical components normalize
    join parent starts_with strip_base component_eq str_eq walk_up push_all
brings_down = refl

read_file_ok_example :
    (reading : Reading os root (bytes "f") text) × (returned tail_lines
      ≡ truncate (numbered 2 (window 1 none (text_of reading))) 64)
    × AtMost (64 + 16) (returned tail_lines)
read_file_ok_example =
    read_file_ok os root (bytes "f") (some 1) none 64 text (returned tail_lines) (omega arith)
      (omega arith) tail_read

read_file_tiles_example :
    (first behind : Str) × (read_file os root (bytes "f") none (some 1) 64 text
      ≡ ok (returned first))
    × (returned tail_lines ≡ returned behind)
    × (bytes "     1\ta\n     2\tb\n     3\tc\n" ≡ first ++ behind)
read_file_tiles_example =
    read_file_tiles os root (bytes "f") 1 64 text (bytes "     1\ta\n     2\tb\n     3\tc\n")
      (returned tail_lines) (omega arith) whole (omega arith) tail_read

abbrev reads_text : Os Str
reads_text = record os { read = λ d p. ok text }

text-IsAscii : IsAscii text
text-IsAscii =
    (omega arith, (omega arith, (omega arith, (omega arith, (omega arith, (omega arith, tt))))))

read_file-IsAscii_example : read_file reads_text root (bytes "f") none none 8 [] ≢ ok panicked
read_file-IsAscii_example =
    read_file-IsAscii reads_text root (bytes "f") none none 8 [] (omega arith) (omega arith)
      (λ target content same. subst IsAscii (ok-inj same) text-IsAscii)
