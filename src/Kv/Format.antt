-- ===== src/Kv/Format.antt =====
-- What a command written by service/kv_impl.go is read back as by ApplyLogToStateMachine.
use ddbr.Common.{◌+◌, ◌≡◌, refl, List, [], ◌∷◌, ◌++◌, arith, length, ◌<◌}
use ddbr.Common.Eq.{Str}
use ddbr.Common.Result.{ok, err}
use ddbr.Common.Text.{
  split, occurrences, before, Free, length-split, occurrences-append, split-append, split-Free,
  head-split,
}
use ddbr.Kv.Command.{
  invalid_set_format, Unmarshal, parse, parse_parts, format_set, format_delete, type_set,
  type_delete,
}

-- A key or a value that the simple format can carry: it holds no colon.
abbrev pub Plain : Str → Type 0
Plain = Free b':'

-- Four parts or more are no set command.
parse_parts_long :
    (s : Str) (qs : List Str)
    → 2 < length qs
    → parse_parts s (type_set ∷ qs) ≡ err (invalid_set_format s)
unfolding parse_parts
parse_parts_long s [] h = absurd (omega arith)
parse_parts_long s (k ∷ []) h = absurd (omega arith)
parse_parts_long s (k ∷ v ∷ []) h = absurd (omega arith)
parse_parts_long s (k ∷ v ∷ w ∷ qs) h = refl

-- A set command of a plain key and value is read back as that command.
pub parse-format_set :
    (u : Unmarshal) (key value : Str)
    → Plain key
    → Plain value
    → parse u (format_set key value) ≡ ok (record { type = type_set; key = key; value = value })
unfolding parse format_set
parse-format_set u key value hk hv = rw (split-append b':' key value hk, split-Free b':' value hv)

-- Any other set command is refused: one more colon, in the key or in the value, makes a fourth
-- part.
pub parse-format_set_colon :
    (u : Unmarshal) (key value : Str)
    → 0 < occurrences b':' key + occurrences b':' value
    → parse u (format_set key value) ≡ err (invalid_set_format (format_set key value))
unfolding parse format_set
parse-format_set_colon u key value h =
    parse_parts_long (format_set key value) (split b':' (key ++ b':' ∷ value)) (
      rw (length-split b':' (key ++ b':' ∷ value), occurrences-append b':' key (b':' ∷ value))
        (unfold occurrences in omega arith))

-- A delete command is read back as the deletion of the key's part before its first colon.
pub parse-format_delete :
    (u : Unmarshal) (key : Str)
    → parse u (format_delete key)
      ≡ ok (record { type = type_delete; key = before b':' key; value = [] })
unfolding parse format_delete
parse-format_delete u key = let (ps, e) = head-split b':' key in rw e
