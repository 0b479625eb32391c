-- ===== src/Util/Env/Traced.antt =====
-- The calls that a function makes to its environment, whatever the environment answers.
use level_db.Common.{
  ℕ, Bool, true, false, List, [], ◌∷◌, ◌++◌, All, map, ◌≡◌, refl, ap, ◌∙◌, append_assoc,
}
use level_db.Util.Status.{Status, ok, error, is_ok}
use level_db.Util.Env.{Env, if_ok, if_failed}

pub data Call : Type 0 where
  new_writable_file : List ℕ → Call
  append : List ℕ → List ℕ → Call
  sync close delete_file : List ℕ → Call
  rename_file : List ℕ → List ℕ → Call

-- A state with the calls up to it; each with whether its status was OK.
abbrev pub Traced : Type 0 → Type 0
Traced S = S × List (Call × Bool)

abbrev pub logged : {S : Type 0} → Call → (S → S × Status) → Traced S → Traced S × Status
logged call next (s, calls) = (((next s).0, calls ++ ((call, is_ok (next s).1) ∷ [])), (next s).1)

abbrev pub traced : {S : Type 0} → Env S → Env (Traced S)
traced env = record {
  new_writable_file = λ f. logged (new_writable_file f) (env.new_writable_file f);
  append = λ f text. logged (append f text) (env.append f text);
  sync = λ f. logged (sync f) (env.sync f);
  close = λ f. logged (close f) (env.close f);
  delete_file = λ f. logged (delete_file f) (env.delete_file f);
  rename_file = λ f g. logged (rename_file f g) (env.rename_file f g);
}

abbrev pub succeeded : List Call → List (Call × Bool)
succeeded calls = map (λ call. (call, true)) calls

-- Only deletions of a file.
abbrev pub AreDeletions : List ℕ → List (Call × Bool) → Type 0
AreDeletions f calls = All (λ entry. entry.0 ≡ delete_file f) calls

succeeded-append :
    (calls : List Call) (call : Call)
    → succeeded calls ++ ((call, true) ∷ []) ≡ succeeded (calls ++ (call ∷ []))
succeeded-append [] call = refl
succeeded-append (x ∷ calls) call = ap (◌∷◌ (x, true)) (succeeded-append calls call)

AreDeletions-append :
    (f : List ℕ) (xs : List (Call × Bool)) (b : Bool)
    → AreDeletions f xs
    → AreDeletions f (xs ++ ((delete_file f, b) ∷ []))
AreDeletions-append f [] b h = (refl, tt)
AreDeletions-append f (x ∷ xs) b (h, hs) = (h, AreDeletions-append f xs b hs)

module _ {S : Type 0} (f : List ℕ) where
  -- The planned calls were made in their order and succeeded, or they were made up to the first
  -- that failed, and behind it there are deletions.
  pub data Follows (planned : List Call) (r : Traced S × Status) : Type 0 where
    all_made : is_ok r.1 ≡ true → r.0.1 ≡ succeeded planned → Follows planned r
    stopped :
        (front : List Call) (call : Call) (later : List Call) (deletions : List (Call × Bool))
        → planned ≡ front ++ (call ∷ later)
        → is_ok r.1 ≡ false
        → r.0.1 ≡ succeeded front ++ ((call, false) ∷ deletions)
        → AreDeletions f deletions
        → Follows planned r

  -- One call behind calls that succeeded.
  pub logged-Follows :
      (planned : List Call) (call : Call) (next : S → S × Status) (s : Traced S)
      → s.1 ≡ succeeded planned
      → Follows (planned ++ (call ∷ [])) (logged call next s)
  unfolding is_ok
  logged-Follows planned call next (s, calls) e = by_status (next s) refl
    where
      by_status :
          (r : S × Status)
          → next s ≡ r
          → Follows (planned ++ (call ∷ [])) (logged call next (s, calls))
      by_status (s', ok) h =
          let good : is_ok (next s).1 ≡ true = ap (λ (r : S × Status). is_ok r.1) h in
          all_made good (
            ap (λ x. x ++ ((call, is_ok (next s).1) ∷ [])) e
            ∙ ap (λ b. succeeded planned ++ ((call, b) ∷ [])) good
            ∙ succeeded-append planned call)
      by_status (s', error code msg) h =
          let bad : is_ok (next s).1 ≡ false = ap (λ (r : S × Status). is_ok r.1) h in
          stopped planned call [] [] refl bad
            (ap (λ x. x ++ ((call, is_ok (next s).1) ∷ [])) e
              ∙ ap (λ b. succeeded planned ++ ((call, b) ∷ [])) bad)
            tt

  pub if_ok-Follows :
      (planned more : List Call) (next : Traced S → Traced S × Status) (r : Traced S × Status)
      → ((s : Traced S) → s.1 ≡ succeeded planned → Follows (planned ++ more) (next s))
      → Follows planned r
      → Follows (planned ++ more) (if_ok true next r)
  unfolding if_ok is_ok
  if_ok-Follows planned more next (s, ok) h (all_made good e) = h s e
  if_ok-Follows planned more next (s, error code msg) h (all_made good e) = absurd cc
  if_ok-Follows planned more next (s, ok) h (stopped front call later ds split bad e del) =
      absurd cc
  if_ok-Follows planned more next (s, error code msg) h
        (stopped front call later ds split bad e del) =
      stopped front call (later ++ more) ds
        (ap (λ x. x ++ more) split ∙ append_assoc front (call ∷ later) more) bad e del

  pub if_failed-Follows :
      (planned : List Call) (next : S → S × Status) (r : Traced S × Status)
      → Follows planned r
      → Follows planned (if_failed (logged (delete_file f) next) r)
  unfolding if_failed is_ok
  if_failed-Follows planned next (s, ok) h = h
  if_failed-Follows planned next (s, error code msg) (all_made good e) = absurd cc
  if_failed-Follows planned next ((s, calls), error code msg)
        (stopped front call later ds split bad e del) =
      stopped front call later (ds ++ ((delete_file f, is_ok (next s).1) ∷ [])) split bad
        (ap (λ x. x ++ ((delete_file f, is_ok (next s).1) ∷ [])) e
          ∙ append_assoc (succeeded front) ((call, false) ∷ ds) _)
        (AreDeletions-append f ds (is_ok (next s).1) del)

  -- So with a deletion as the last call, if one of the planned ones failed.
  pub data Ends (planned : List Call) (r : Traced S × Status) : Type 0 where
    finished : is_ok r.1 ≡ true → r.0.1 ≡ succeeded planned → Ends planned r
    gave_up :
        (front : List Call) (call : Call) (later : List Call) (deletions : List (Call × Bool))
        (deleted : Bool)
        → planned ≡ front ++ (call ∷ later)
        → is_ok r.1 ≡ false
        → r.0.1
          ≡ (succeeded front ++ ((call, false) ∷ deletions)) ++ ((delete_file f, deleted) ∷ [])
        → AreDeletions f deletions
        → Ends planned r

  pub if_failed-Ends :
      (planned : List Call) (next : S → S × Status) (r : Traced S × Status)
      → Follows planned r
      → Ends planned (if_failed (logged (delete_file f) next) r)
  unfolding if_failed is_ok
  if_failed-Ends planned next (s, ok) (all_made good e) = finished good e
  if_failed-Ends planned next (s, ok) (stopped front call later ds split bad e del) = absurd cc
  if_failed-Ends planned next (s, error code msg) (all_made good e) = absurd cc
  if_failed-Ends planned next ((s, calls), error code msg)
        (stopped front call later ds split bad e del) =
      gave_up front call later ds (is_ok (next s).1) split bad
        (ap (λ x. x ++ ((delete_file f, is_ok (next s).1) ∷ [])) e) del
