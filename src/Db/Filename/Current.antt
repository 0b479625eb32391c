-- ===== src/Db/Filename/Current.antt =====
-- The calls of SetCurrentFile: it writes the name of a descriptor to a temporary file, syncs it and
-- renames it to CURRENT.
use level_db.Common.{ℕ, ◌^◌, ◌<◌, true, List, [], ◌∷◌, ◌++◌, some, ◌≡◌, refl, sym, ap}
use level_db.Util.Env.{Env, write_opened, do_write_string_to_file, write_string_to_file_sync}
use level_db.Util.Env.Traced.{
  Call, new_writable_file, append, sync, close, rename_file, Traced, traced, succeeded, Follows,
  logged-Follows, if_ok-Follows, if_failed-Follows, Ends, if_failed-Ends,
}
use level_db.Db.Filename.{
  descriptor_file, manifest_prefix, descriptor_file_name, current_file_name, temp_file_name,
  parse_file_name, set_current_file,
}
use level_db.Db.Filename.Parsed.{base_name, base_name-append, parse_descriptor_name}
use level_db.Util.Logging.Print.{print_06}

-- The calls that make a file with a text, and then a rename.
abbrev pub replace_calls : List ℕ → List ℕ → List ℕ → List Call
replace_calls tmp target text =
    new_writable_file tmp ∷ append tmp text ∷ sync tmp ∷ close tmp ∷ rename_file tmp target ∷ []

module _ {S : Type 0} (env : Env S) where
  write_opened-Follows :
      (text tmp : List ℕ) (s : Traced S)
      → s.1 ≡ succeeded (new_writable_file tmp ∷ [])
      → Follows tmp
          (new_writable_file tmp ∷ append tmp text ∷ sync tmp ∷ close tmp ∷ [])
          (write_opened (traced env) text tmp true s)
  unfolding write_opened
  write_opened-Follows text tmp s e =
      let opened = new_writable_file tmp ∷ [] in
      let written = new_writable_file tmp ∷ append tmp text ∷ [] in
      let synced = new_writable_file tmp ∷ append tmp text ∷ sync tmp ∷ [] in
      if_failed-Follows tmp (new_writable_file tmp ∷ append tmp text ∷ sync tmp ∷ close tmp ∷ [])
        (env.delete_file tmp) _
        (if_ok-Follows tmp synced (close tmp ∷ []) ((traced env).close tmp) _
          (λ s1 e1. logged-Follows tmp synced (close tmp) (env.close tmp) s1 e1)
          (if_ok-Follows tmp written (sync tmp ∷ []) ((traced env).sync tmp) _
            (λ s1 e1. logged-Follows tmp written (sync tmp) (env.sync tmp) s1 e1)
            (logged-Follows tmp opened (append tmp text) (env.append tmp text) s e)))

  write-Follows :
      (text tmp : List ℕ) (s : S)
      → Follows tmp
          (new_writable_file tmp ∷ append tmp text ∷ sync tmp ∷ close tmp ∷ [])
          (write_string_to_file_sync (traced env) text tmp (s, []))
  unfolding write_string_to_file_sync do_write_string_to_file
  write-Follows text tmp s =
      if_ok-Follows tmp (new_writable_file tmp ∷ []) (append tmp text ∷ sync tmp ∷ close tmp ∷ [])
        (write_opened (traced env) text tmp true) _ (λ s1 e. write_opened-Follows text tmp s1 e)
        (logged-Follows tmp [] (new_writable_file tmp) (env.new_writable_file tmp) (s, []) refl)

  -- Over any environment and for a number between 0 and 2^64, SetCurrentFile plans to make the
  -- temporary file, append the name of the descriptor file without the directory and a newline to
  -- it, sync it, close it, and rename it to CURRENT, and ParseFileName reads that name as the
  -- descriptor. If it returns OK, it made exactly these calls and each succeeded. If it returns
  -- an error, it made them up to the first that failed, and from there on only deleted the
  -- temporary file, at least once.
  pub set_current_file-Ends :
      (dbname : List ℕ) (n : ℕ) (s : S)
      → 0 < n
      → n < 2 ^ 64
      → (name : List ℕ) × (parse_file_name name ≡ some (n, descriptor_file))
        × (descriptor_file_name dbname n ≡ dbname ++ (47 ∷ name))
        × Ends
            (temp_file_name dbname n)
            (replace_calls (temp_file_name dbname n) (current_file_name dbname) (name ++ (10 ∷ [])))
            (set_current_file (traced env) dbname n (s, []))
  unfolding set_current_file descriptor_file_name
  set_current_file-Ends dbname n s positive h =
      let name = base_name dbname (descriptor_file_name dbname n) in
      let tmp = temp_file_name dbname n in
      let target = current_file_name dbname in
      let text = name ++ (10 ∷ []) in
      let is_name : name ≡ manifest_prefix ++ print_06 n =
        base_name-append dbname (manifest_prefix ++ print_06 n) in
      (
        name,
        rw is_name (parse_descriptor_name n h),
        ap (λ x. dbname ++ (47 ∷ x)) (sym is_name),
        if_failed-Ends tmp (replace_calls tmp target text) (env.delete_file tmp) _ (
            if_ok-Follows tmp (new_writable_file tmp ∷ append tmp text ∷ sync tmp ∷ close tmp ∷ [])
              (rename_file tmp target ∷ []) ((traced env).rename_file tmp target) _
              (λ s1 e.
                logged-Follows tmp
                  (new_writable_file tmp ∷ append tmp text ∷ sync tmp ∷ close tmp ∷ [])
                  (rename_file tmp target) (env.rename_file tmp target) s1 e)
              (write-Follows text tmp s)),
      )
