-- ===== src/Util/Status.antt =====
-- leveldb/status.h and util/status.cpp: the result of an operation. `state_` is NULL for ok; else
-- it holds the message with a code byte in front of it, which the constructors stand for.
use Prim.Native.String.{String, ◌++◌}
use level_db.Common.{Bool, true, false}

pub data Code : Type 0 where
  not_found corruption not_supported invalid_argument io_error : Code

pub data Status : Type 0 where
  ok : Status
  error : Code → String → Status

-- `msg: msg2`, as the private constructor joins them where the second is not empty.
unfoldable pub status_with : Code → String → String → Status
status_with code msg String.[] = error code msg
status_with code msg (String.◌∷◌ c msg2) = error code (msg ++ (": " ++ String.◌∷◌ c msg2))

unfoldable pub is_ok : Status → Bool
is_ok ok = true
is_ok (error code msg) = false

abbrev pub code_text : Code → String
code_text not_found = "NotFound: "
code_text corruption = "Corruption: "
code_text not_supported = "Not implemented: "
code_text invalid_argument = "Invalid argument: "
code_text io_error = "IO error: "

unfoldable pub to_string : Status → String
to_string ok = "OK"
to_string (error code msg) = code_text code ++ msg
