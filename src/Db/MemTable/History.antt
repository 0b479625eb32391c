-- ===== src/Db/MemTable/History.antt =====
-- The memtable after any adds, and what Get answers then.
use Prim.Native.Nat.{Ordering, lt, eq}
use mathlib.Core.Path.{subst, ap₂}
use mathlib.Core.Option
use level_db.Common.{
  ℕ, ◌+◌, ◌^◌, ◌<◌, ◌≤◌, List, [], ◌∷◌, length, drop, All, map, Option, none, some, ◌≡◌, ◌≢◌, ◌↔◌,
  inl, inr, refl, sym, ap, ◌∙◌, Bool-cases,
}
use level_db.Util.Slice.{is_lt}
use level_db.Util.Comparator.{Comparator, IsOrder}
use level_db.Db.Format.{max_sequence_number, internal_compare, lookup_key, memtable_key}
use level_db.Db.Batch.{Add}
use level_db.Db.SkipList.{SkipList, find_greater_or_equal, seek}
use level_db.Db.SkipList.Ordered.{Sorted, insert_sorted, first_from}
use level_db.Db.SkipList.Refines.{
  Represents, Absent, new_list-Represents, insert-Represents, find_greater_or_equal-first_from,
}
use level_db.Db.MemTable.{
  Answer, not_here, new_table, encode_entry, key_comparator, add, get, read_entry,
}
use level_db.Db.MemTable.Entries.{
  Fits, entry_compare, slice_at-encode_entry, key_comparator-encode_entry,
  key_comparator-IsKeyOrder, slice_at-memtable_key, read_entry-encode_entry,
}
use level_db.Db.MemTable.Lookups.{
  Among, Newest, nothing, newest, passes, scan, Ascends, scan-Newest,
}

insert_sorted-All :
    (compare : Add → Add → Ordering) (P : Add → Type 0) (e : Add) (es : List Add)
    → P e
    → All P es
    → All P (insert_sorted compare e es)
unfolding insert_sorted
insert_sorted-All compare P e [] p ps = (p, tt)
insert_sorted-All compare P e (x ∷ es) p (q, ps) = elim (Bool-cases (is_lt (compare x e))) [
  | inl h ↦ rw h (q, insert_sorted-All compare P e es p ps)
  | inr h ↦ rw h (p, (q, ps))
]

-- Insertion adds the entry, and nothing else.
Among-insert_sorted :
    (compare : Add → Add → Ordering) (e : Add) (es : List Add) (x : Add)
    → Among x (insert_sorted compare e es) ↔ Among x (e ∷ es)
unfolding insert_sorted
Among-insert_sorted compare e [] x = (λ h. h, λ h. h)
Among-insert_sorted compare e (y ∷ es) x = elim (Bool-cases (is_lt (compare y e))) [
  | inl h ↦ rw h (
    λ i. elim i [
      | inl q ↦ inr (inl q)
      | inr q ↦ elim ((Among-insert_sorted compare e es x).0 q) [
        | inl r ↦ inl r
        | inr r ↦ inr (inr r)
      ]
    ],
    λ i. elim i [
      | inl q ↦ inr ((Among-insert_sorted compare e es x).1 (inl q))
      | inr (inl q) ↦ inl q
      | inr (inr q) ↦ inr ((Among-insert_sorted compare e es x).1 (inr q))
    ],
  )
  | inr h ↦ rw h (λ i. i, λ i. i)
]

first_of : {x y : List ℕ} {xs ys : List (List ℕ)} → x ∷ xs ≡ y ∷ ys → x ≡ y
first_of h = cc

Among-cons :
    (e : Add) (ks es : List Add) (x : Add)
    → Among x ks ↔ Among x es
    → Among x (e ∷ ks) ↔ Among x (e ∷ es)
Among-cons e ks es x (there, back) = (
  λ i. elim i [ inl q ↦ inl q | inr q ↦ inr (there q) ],
  λ i. elim i [ inl q ↦ inl q | inr q ↦ inr (back q) ],
)

both : {A B C : Type 0} → A ↔ B → B ↔ C → A ↔ C
both (f, g) (h, k) = (λ a. h (f a), λ d. g (k d))

module _ (c : Comparator) where
  -- The table holds the entries, in whatever order they came.
  pub record Holds (table : SkipList (List ℕ)) (es : List Add) : Type 0 where
    pub stored : List Add
    pub represents : Represents (key_comparator c) table (map encode_entry stored)
    pub same : (e : Add) → Among e stored ↔ Among e es
    pub fits : All Fits stored

  pub new_table-Holds : Holds new_table []
  new_table-Holds = record {
    stored = [];
    represents = new_list-Represents (key_comparator c) [];
    same = λ e. (λ h. h, λ h. h);
    fits = tt;
  }

  Absent-encode_entry :
      (e : Add) (es : List Add)
      → Fits e
      → All Fits es
      → ((x : Add) → Among x es → entry_compare c x e ≢ eq)
      → Absent (key_comparator c) (encode_entry e) (map encode_entry es)
  Absent-encode_entry e [] fe fits apart = tt
  Absent-encode_entry e (x ∷ es) fe (fx, fits) apart = (
    λ h. apart x (inl refl) (sym (key_comparator-encode_entry c x e fx fe) ∙ h),
    Absent-encode_entry e es fe fits (λ y i. apart y (inr i)),
  )

  map-insert_sorted :
      (e : Add) (es : List Add)
      → Fits e
      → All Fits es
      → insert_sorted (key_comparator c) (encode_entry e) (map encode_entry es)
        ≡ map encode_entry (insert_sorted (entry_compare c) e es)
  unfolding insert_sorted
  map-insert_sorted e [] fe fits = refl
  map-insert_sorted e (x ∷ es) fe (fx, fits) =
      rw (key_comparator-encode_entry c x e fx fe)
        (elim (Bool-cases (is_lt (entry_compare c x e))) [
          | inl h ↦ rw h (ap (◌∷◌ (encode_entry x)) (map-insert_sorted e es fe fits))
          | inr h ↦ rw h refl
        ])

  -- The order of the nodes is that of the entries.
  each_ascends :
      (key : ℕ → List ℕ) (n : ℕ) (e : Add) (ns : List ℕ) (es : List Add)
      → key n ≡ encode_entry e
      → Fits e
      → All Fits es
      → map key ns ≡ map encode_entry es
      → All (λ m. key_comparator c (key n) (key m) ≡ lt) ns
      → All (λ x. entry_compare c e x ≡ lt) es
  each_ascends key n e ns [] p fe fits q h = tt
  each_ascends key n e [] (x ∷ es) p fe fits q h = absurd cc
  each_ascends key n e (m ∷ ns) (x ∷ es) p fe (fx, fits) q (h, hs) = (
    sym (key_comparator-encode_entry c e x fe fx) ∙ sym (ap₂ (key_comparator c) p (first_of q)) ∙ h,
    each_ascends key n e ns es p fe fits (ap (drop 1) q) hs,
  )

  Sorted-Ascends :
      (key : ℕ → List ℕ) (u : List ℕ) (s : ℕ) (ns : List ℕ) (es : List Add)
      → All Fits es
      → map key ns ≡ map encode_entry es
      → Sorted (key_comparator c) key ns
      → Ascends c u s es
  Sorted-Ascends key u s ns [] fits q h = tt
  Sorted-Ascends key u s [] (x ∷ es) fits q h = absurd cc
  Sorted-Ascends key u s (n ∷ ns) (x ∷ es) (fx, fits) q (h, hs) = (
    each_ascends key n x ns es (first_of q) fx fits (ap (drop 1) q) h,
    Sorted-Ascends key u s ns es fits (ap (drop 1) q) hs,
  )

  module _ (u : List ℕ) (s : ℕ) (hu : length u + 8 < 2 ^ 32) where
    at_target :
        (e : Add)
        → Fits e
        → is_lt (key_comparator c (encode_entry e) (memtable_key (lookup_key u s))) ≡ passes c u s e
    unfolding key_comparator
    at_target e fits =
        ap is_lt
          (ap₂ (internal_compare c) (slice_at-encode_entry e fits) (slice_at-memtable_key c u s hu))

    abbrev first_key : List Add → Option (List ℕ)
    first_key es =
        first_from (key_comparator c) (memtable_key (lookup_key u s)) (map encode_entry es)

    scan-none : (es : List Add) → All Fits es → first_key es ≡ none → scan c u s es ≡ not_here
    unfolding first_from
    scan-none [] fits h = refl
    scan-none (e ∷ es) (fe, fits) h = elim (Bool-cases (passes c u s e)) [
      | inl p ↦ rw p (scan-none es fits (rw (at_target e fe, p) at h))
      | inr p ↦ let h' : some (encode_entry e) ≡ none = rw (at_target e fe, p) at h in absurd cc
    ]

    scan-some :
        (es : List Add) (k : List ℕ)
        → All Fits es
        → first_key es ≡ some k
        → scan c u s es ≡ read_entry c k (lookup_key u s)
    unfolding first_from
    scan-some [] k fits h = absurd cc
    scan-some (e ∷ es) k (fe, fits) h = elim (Bool-cases (passes c u s e)) [
      | inl p ↦ rw p (scan-some es k fits (rw (at_target e fe, p) at h))
      | inr p ↦
          let h' : some (encode_entry e) ≡ some k = rw (at_target e fe, p) at h in
          let same_entry : encode_entry e ≡ k = cc in
          rw p (
            sym (read_entry-encode_entry c e u s fe)
            ∙ ap (λ (b : List ℕ). read_entry c b (lookup_key u s)) same_entry)
    ]

    get-found :
        (table : SkipList (List ℕ)) (es : List Add) (node : Option ℕ) (prev : ℕ → ℕ)
        → All Fits es
        → find_greater_or_equal (key_comparator c) table (memtable_key (lookup_key u s))
          ≡ some (node, prev)
        → Option.map table.key node ≡ first_key es
        → get c table (lookup_key u s) ≡ some (scan c u s es)
    unfolding get seek
    get-found table es none prev fits e h = rw e (ap some (sym (scan-none es fits (sym h))))
    get-found table es (some n) prev fits e h =
        rw e (ap some (sym (scan-some es (table.key n) fits (sym h))))

  Newest-same :
      (u : List ℕ) (s : ℕ) (ks es : List Add) (answer : Answer)
      → ((e : Add) → Among e ks ↔ Among e es)
      → Newest c u s ks answer
      → Newest c u s es answer
  Newest-same u s ks es answer same (nothing none_visible h) =
      nothing (λ e i. none_visible e ((same e).1 i)) h
  Newest-same u s ks es answer same (newest e e_in visible above h) =
      newest e ((same e).0 e_in) visible (λ x i. above x ((same x).1 i)) h

  -- If the user comparator is a total order, the memtable holds some entries and the new one fits
  -- its fields and differs from them in its internal key, then Add ends and the memtable holds
  -- that entry and the ones before.
  pub add-Holds :
      (table : SkipList (List ℕ)) (es : List Add) (e : Add)
      → IsOrder c
      → Holds table es
      → Fits e
      → ((x : Add) → Among x es → entry_compare c x e ≢ eq)
      → (table' : SkipList (List ℕ)) × (add c table e ≡ some table') × Holds table' (e ∷ es)
  unfolding add
  add-Holds table es e ord holds fe apart =
      let (table', added, represents) =
        insert-Represents (key_comparator c) (key_comparator-IsKeyOrder c ord) table
          (encode_entry e) (map encode_entry holds.stored) holds.represents
          (Absent-encode_entry e holds.stored fe holds.fits
            (λ x i. apart x ((holds.same x).0 i))) in
      (
        table',
        added,
        record {
          stored = insert_sorted (entry_compare c) e holds.stored;
          represents =
              subst (Represents (key_comparator c) table')
                (map-insert_sorted e holds.stored fe holds.fits) represents;
          same = λ x.
              both (Among-insert_sorted (entry_compare c) e holds.stored x)
                (Among-cons e holds.stored es x (holds.same x));
          fits = insert_sorted-All (entry_compare c) Fits e holds.stored fe holds.fits;
        },
      )

  -- If the user comparator is a total order and the memtable holds some entries with distinct
  -- internal keys that fit their fields, in whatever order they came, then Get at a user key and
  -- a snapshot ends. It answers with the value of the entry of that key that has the largest
  -- sequence number not above the snapshot, or that it is deleted, and that there is nothing here
  -- exactly if no such entry is held.
  pub get-Newest :
      (table : SkipList (List ℕ)) (es : List Add) (u : List ℕ) (s : ℕ)
      → IsOrder c
      → Holds table es
      → length u + 8 < 2 ^ 32
      → s ≤ max_sequence_number
      → (answer : Answer) × (get c table (lookup_key u s) ≡ some answer) × Newest c u s es answer
  get-Newest table es u s ord holds hu hs =
      let (ns, inv, keys) = holds.represents in
      let (node, prev, found, first) =
        find_greater_or_equal-first_from (key_comparator c) (key_comparator-IsKeyOrder c ord) table
          (memtable_key (lookup_key u s)) (map encode_entry holds.stored) holds.represents in
      (
        scan c u s holds.stored,
        get-found u s hu table holds.stored node prev holds.fits found first,
        Newest-same u s holds.stored es (scan c u s holds.stored) holds.same (
            scan-Newest c u s ord hs holds.stored holds.fits
              (Sorted-Ascends table.key u s ns holds.stored holds.fits keys inv.sorted)),
      )
