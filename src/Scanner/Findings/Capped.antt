-- ===== src/Scanner/Findings/Capped.antt =====
-- The loop of `_filter_findings` (scanner/src/aegify/scanner/engine.py) that enforces the limit of
-- findings for each file.
use aegify.Base.{
  ℕ, suc, ◌+◌, ◌≤◌, ◌<◌, ◌≡◌, ◌∙◌, ◌⊎◌, refl, sym, ap, true, false, String, List, [], ◌∷◌, ltb,
  str_eq, eq_iff, Dict, lookup, insert, lookup-insert, Bool-cases, inl, inr, arith, Member, here,
  there, sum_by,
}
use aegify.Models.Receipts.{one_if}
use aegify.Scanner.Findings.Records.{Confidences, Finding}
use aegify.Scanner.Findings.Filter.{count_at, cap}

module _ (confidences : Confidences) where
  abbrev F : Type 0
  F = Finding confidences

  -- How many findings are of a file.
  abbrev pub of_file : String → List F → ℕ
  of_file path = sum_by (λ f. one_if (str_eq f.file_path path))

  -- What the loop has counted of a file.
  abbrev pub counted : String → Dict ℕ → ℕ
  counted path counts = count_at (lookup path counts)

  counted-insert :
      (k path : String) (counts : Dict ℕ)
      → counted path (insert k (suc (counted k counts)) counts)
        ≡ one_if (str_eq k path) + counted path counts
  counted-insert k path counts = elim (Bool-cases (str_eq k path)) [
    | inl e ↦
        let same : counted k counts ≡ counted path counts =
          ap (λ t. counted t counts) ((eq_iff k path).0 e) in
        ap count_at (lookup-insert k path (suc (counted k counts)) counts) ∙ rw e (omega arith)
    | inr e ↦
        ap count_at (lookup-insert k path (suc (counted k counts)) counts) ∙ rw e (omega arith)
  ]

  module _ (max_per_file : ℕ) where
    abbrev output : List F → Dict ℕ → List F
    output = cap confidences max_per_file

    cap_none : (counts : Dict ℕ) → output [] counts ≡ []
    unfolding cap
    cap_none counts = refl

    cap_taken :
        (f : F) (fs : List F) (counts : Dict ℕ)
        → ltb (counted f.file_path counts) max_per_file ≡ true
        → output (f ∷ fs) counts
          ≡ f ∷ output fs (insert f.file_path (suc (counted f.file_path counts)) counts)
    unfolding cap
    cap_taken f fs counts e = rw (e, cap)

    cap_left :
        (f : F) (fs : List F) (counts : Dict ℕ)
        → ltb (counted f.file_path counts) max_per_file ≡ false
        → output (f ∷ fs) counts ≡ output fs counts
    unfolding cap
    cap_left f fs counts e = rw (e, cap)

    room : (n : ℕ) → ltb n max_per_file ≡ true → n < max_per_file
    room n e = ground arith

    no_room : (n : ℕ) → ltb n max_per_file ≡ false → max_per_file ≤ n
    no_room n e = ground arith

    -- A further finding of the file keeps its count within the limit.
    counted_within :
        (f : F) (counts : Dict ℕ) (path : String)
        → ltb (counted f.file_path counts) max_per_file ≡ true
        → counted path counts ≤ max_per_file
        → counted path (insert f.file_path (suc (counted f.file_path counts)) counts) ≤ max_per_file
    counted_within f counts path e h = elim (Bool-cases (str_eq f.file_path path)) [
      | inl s ↦
          let same : counted f.file_path counts ≡ counted path counts =
            ap (λ t. counted t counts) ((eq_iff f.file_path path).0 s) in
          rw (counted-insert f.file_path path counts, s)
            (omega (arith, room (counted f.file_path counts) e))
      | inr s ↦ rw (counted-insert f.file_path path counts, s) (omega arith)
    ]

    pub cap_bound :
        (fs : List F) (counts : Dict ℕ) (path : String)
        → counted path counts ≤ max_per_file
        → of_file path (output fs counts) + counted path counts ≤ max_per_file
    cap_bound [] counts path h = rw (cap_none counts) (omega arith)
    cap_bound (f ∷ fs) counts path h =
        elim (Bool-cases (ltb (counted f.file_path counts) max_per_file)) [
          | inl e ↦
              let counts' = insert f.file_path (suc (counted f.file_path counts)) counts in
              rw (cap_taken f fs counts e) (
                omega (
                  arith,
                  counted-insert f.file_path path counts,
                  cap_bound fs counts' path (counted_within f counts path e h),
                ))
          | inr e ↦ rw (cap_left f fs counts e) (cap_bound fs counts path h)
        ]

    -- A finding that is left out is of a file whose limit is reached.
    pub cap_full :
        (fs : List F) (counts : Dict ℕ) (g : F)
        → Member g fs
        → counted g.file_path counts ≤ max_per_file
        → Member g (output fs counts)
          ⊎ (of_file g.file_path (output fs counts) + counted g.file_path counts ≡ max_per_file)
    cap_full [] counts g m h = elim m [ ]
    cap_full (f ∷ fs) counts g (here s) h =
        elim (Bool-cases (ltb (counted f.file_path counts) max_per_file)) [
          | inl e ↦ rw (cap_taken f fs counts e) (inl (here s))
          | inr e ↦
              let same : counted f.file_path counts ≡ counted g.file_path counts =
                ap (λ (t : F). counted t.file_path counts) (sym s) in
              rw (cap_left f fs counts e) (
                inr (
                  omega (
                    arith,
                    cap_bound fs counts g.file_path h,
                    no_room (counted f.file_path counts) e,
                  )))
        ]
    cap_full (f ∷ fs) counts g (there m) h =
        elim (Bool-cases (ltb (counted f.file_path counts) max_per_file)) [
          | inl e ↦
              let counts' = insert f.file_path (suc (counted f.file_path counts)) counts in
              elim (cap_full fs counts' g m (counted_within f counts g.file_path e h)) [
                | inl k ↦ rw (cap_taken f fs counts e) (inl (there k))
                | inr k ↦
                    rw (cap_taken f fs counts e)
                      (inr (omega (arith, counted-insert f.file_path g.file_path counts)))
              ]
          | inr e ↦ rw (cap_left f fs counts e) (cap_full fs counts g m h)
        ]
