-- ===== src/Util/Env.antt =====
-- util/env.cpp: WriteStringToFile and WriteStringToFileSync over the interface of leveldb/env.h.
--
-- The files of the operating system are a state; an operation returns the state after it and its
-- status. An open WritableFile stands for the name of its file.
pub mod Traced
use level_db.Common.{ℕ, Bool, true, false, not, ◌&&◌, List, if◌then◌else◌}
use level_db.Util.Status.{Status, is_ok}

-- The methods of Env and WritableFile that the sources call.
pub record Env (S : Type 0) : Type 0 where
  pub new_writable_file : List ℕ → S → S × Status
  pub append : List ℕ → List ℕ → S → S × Status
  pub sync : List ℕ → S → S × Status
  pub close : List ℕ → S → S × Status
  pub delete_file : List ℕ → S → S × Status
  pub rename_file : List ℕ → List ℕ → S → S × Status

-- `if (s.ok() && condition) s = next`
unfoldable pub if_ok : {S : Type 0} → Bool → (S → S × Status) → S × Status → S × Status
if_ok condition next (s, status) = if is_ok status && condition then next s else (s, status)

-- `if (!s.ok()) cleanup`, which keeps the status.
unfoldable pub if_failed : {S : Type 0} → (S → S × Status) → S × Status → S × Status
if_failed cleanup (s, status) = if is_ok status then (s, status) else ((cleanup s).0, status)

module _ {S : Type 0} (env : Env S) where
  -- The body behind NewWritableFile.
  unfoldable pub write_opened : List ℕ → List ℕ → Bool → S → S × Status
  unfolding if_ok if_failed
  write_opened text fname should_sync s =
      if_failed (env.delete_file fname) (
        if_ok true (env.close fname) (if_ok should_sync (env.sync fname) (env.append fname text s)))

  unfoldable pub do_write_string_to_file : List ℕ → List ℕ → Bool → S → S × Status
  unfolding if_ok write_opened
  do_write_string_to_file text fname should_sync s =
      if_ok true (write_opened text fname should_sync) (env.new_writable_file fname s)

  unfoldable pub write_string_to_file : List ℕ → List ℕ → S → S × Status
  unfolding do_write_string_to_file
  write_string_to_file text fname s = do_write_string_to_file text fname false s

  unfoldable pub write_string_to_file_sync : List ℕ → List ℕ → S → S × Status
  unfolding do_write_string_to_file
  write_string_to_file_sync text fname s = do_write_string_to_file text fname true s
