-- ===== src/FileTools/Examples.antt =====
-- The file tools on a disk with one file.
use local_mcp.Common.{◌≡◌, refl, true, false, [], ◌∷◌}
use local_mcp.Common.Str.{Str, bytes, str_eq, strip_prefix}
use local_mcp.Common.Decimal.{decimal, digits}
use local_mcp.Common.Utf8.{from_utf8_lossy, lossy, chunk}
use local_mcp.Common.Result.{ok, err}
use local_mcp.FilePath.{
  root_dir, normal, components, component_eq, join, parent, strip_base, starts_with,
}
use local_mcp.Root.{Root, normalize, lexical, walk_up, push_all, resolve, relativize}
use local_mcp.FileTools.{
  Os, old_text_ambiguous, shown, count_matches, replace, check_unique, edit_resolved, edit_file,
  write_resolved, write_file,
}
use local_mcp.FileTools.Write.{Written, write_file_ok}
use local_mcp.FileTools.Failure.{Untouched, edit_file_err}
use local_mcp.FileTools.Edit.{Edited, edit_file_ok}

abbrev root : Root
root = record { path = root_dir ∷ normal (bytes "srv") ∷ [] }

-- The disk is the text of the one file, and every path names it.
abbrev os : Os Str
os = record {
  fs = λ d. record { exists = λ p. true; canonicalize = λ p. ok p };
  read = λ d p. ok d;
  read_to_string = λ d p. ok d;
  is_dir = λ d p. ok false;
  create_dir_all = λ p d. (ok tt, d);
  write = λ p content d. (ok tt, content);
}

edited :
    edit_file os root (bytes "f") (bytes "bc") (bytes "X") (bytes "abcd")
    ≡ (ok (bytes "edited f"), bytes "aXd")
unfolding edit_file edit_resolved count_matches replace check_unique strip_prefix resolve lexical
    components normalize join parent starts_with strip_base component_eq str_eq walk_up push_all
    shown relativize decimal digits from_utf8_lossy lossy chunk
edited = refl

edited_ok :
    (edit_file os root (bytes "f") (bytes "bc") (bytes "X") (bytes "abcd")).0
    ≡ ok (bytes "edited f")
edited_ok = λ i. (edited i).0

edit_file_ok_example :
    Edited os root
      (bytes "f")
      (bytes "bc")
      (bytes "X")
      (bytes "edited f")
      (bytes "abcd")
      (edit_file os root (bytes "f") (bytes "bc") (bytes "X") (bytes "abcd")).1
edit_file_ok_example =
    edit_file_ok os root (bytes "f") (bytes "bc") (bytes "X") (bytes "edited f") (bytes "abcd")
      edited_ok

refused :
    edit_file os root (bytes "f") (bytes "b") (bytes "X") (bytes "abcb")
    ≡ (err (old_text_ambiguous 2 (bytes "f")), bytes "abcb")
unfolding edit_file edit_resolved count_matches replace check_unique strip_prefix resolve lexical
    components normalize join parent starts_with strip_base component_eq str_eq walk_up push_all
    shown relativize decimal digits from_utf8_lossy lossy chunk
refused = refl

-- Occurrences that overlap count once.
overlapping :
    edit_file os root (bytes "f") (bytes "aa") (bytes "X") (bytes "aaa")
    ≡ (ok (bytes "edited f"), bytes "Xa")
unfolding edit_file edit_resolved count_matches replace check_unique strip_prefix resolve lexical
    components normalize join parent starts_with strip_base component_eq str_eq walk_up push_all
    shown relativize decimal digits from_utf8_lossy lossy chunk
overlapping = refl

written :
    write_file os root (bytes "f") (bytes "new") (bytes "old")
    ≡ (ok (bytes "wrote 3 bytes to f"), bytes "new")
unfolding write_file write_resolved resolve lexical components normalize join parent starts_with
    strip_base component_eq str_eq walk_up push_all decimal digits shown relativize from_utf8_lossy
    lossy chunk
written = refl

written_ok :
    (write_file os root (bytes "f") (bytes "new") (bytes "old")).0 ≡ ok (bytes "wrote 3 bytes to f")
written_ok = λ i. (written i).0

write_file_ok_example :
    Written os root
      (bytes "new")
      (bytes "wrote 3 bytes to f")
      (bytes "old")
      (write_file os root (bytes "f") (bytes "new") (bytes "old")).1
write_file_ok_example =
    write_file_ok os root (bytes "f") (bytes "new") (bytes "old") (bytes "wrote 3 bytes to f")
      written_ok

refused_err :
    (edit_file os root (bytes "f") (bytes "b") (bytes "X") (bytes "abcb")).0
    ≡ err (old_text_ambiguous 2 (bytes "f"))
refused_err = λ i. (refused i).0

edit_file_err_example :
    Untouched os root
      (bytes "abcb")
      (edit_file os root (bytes "f") (bytes "b") (bytes "X") (bytes "abcb")).1
edit_file_err_example =
    edit_file_err os root (bytes "f") (bytes "b") (bytes "X") (bytes "abcb")
      (old_text_ambiguous 2 (bytes "f")) refused_err
