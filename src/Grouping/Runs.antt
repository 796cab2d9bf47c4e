-- ===== src/Grouping/Runs.antt =====
-- `group_sections` packs the sections into consecutive runs that fit.
use dikw_core.Prelude.{
  ℕ, suc, ◌+◌, ◌≤◌, Text, ◌≡◌, refl, Bool, true, false, ◌&&◌, not, some, List, [], ◌∷◌, ◌++◌, map,
  arith, ltb, leb, length, append_assoc, append-nil, All, All-append, all, inl, inr, ◌⊎◌, ◌∙◌, sym,
  ap,
}
use dikw_core.Grouping.{
  Section, ChunkGroup, concat, group_headings, Packing, flush, flush_if, any_left, at_h1,
  overshoots, append_section, pack, pack_all, group_sections,
}

abbrev pub total : List Section → ℕ
total [] = 0
total (s ∷ ss) = s.tokens + total ss

-- The group that a run of sections becomes.
abbrev pub group_of : ℕ → List Section → ChunkGroup
group_of i run = record {
  index = i;
  text = concat (map (λ t. t.text) run);
  headings = group_headings run [];
  token_count = total run;
  section_starts = map (λ t. t.start) run;
}

abbrev pub groups_of : ℕ → List (List Section) → List ChunkGroup
groups_of i [] = []
groups_of i (run ∷ runs) = group_of i run ∷ groups_of (suc i) runs

module _ (starts_with_h1 : Text → Bool) (target : ℕ) where
  -- A run has a section, only its first one starts with an H1, and it is within the target unless it
  -- is a single section.
  abbrev pub Fits : List Section → Type 0
  Fits [] = ⊥
  Fits (s ∷ ss) =
      (all (λ t. not (starts_with_h1 t.text)) ss ≡ true) × ((ss ≡ []) ⊎ (total (s ∷ ss) ≤ target))

  groups_of-snoc :
      (i : ℕ) (runs : List (List Section)) (run : List Section)
      → groups_of i (runs ++ run ∷ []) ≡ groups_of i runs ++ group_of (i + length runs) run ∷ []
  groups_of-snoc i [] run = let e : i + 0 ≡ i = omega arith in rw e refl
  groups_of-snoc i (r ∷ runs) run =
      let e : i + suc (length runs) ≡ suc i + length runs = omega arith in
      rw e (ap (λ l. group_of i r ∷ l) (groups_of-snoc (suc i) runs run))

  length-groups_of : (i : ℕ) (runs : List (List Section)) → length (groups_of i runs) ≡ length runs
  length-groups_of i [] = refl
  length-groups_of i (r ∷ runs) = ap suc (length-groups_of (suc i) runs)

  concat-snoc :
      (runs : List (List Section)) (run : List Section)
      → concat (runs ++ run ∷ []) ≡ concat runs ++ run
  concat-snoc [] run = append-nil run
  concat-snoc (r ∷ runs) run =
      ap (λ l. r ++ l) (concat-snoc runs run) ∙ sym (append_assoc r (concat runs) run)

  total-snoc : (ss : List Section) (s : Section) → total (ss ++ s ∷ []) ≡ total ss + s.tokens
  total-snoc [] s = omega arith
  total-snoc (t ∷ ss) s = omega (arith, total-snoc ss s)

  all-snoc :
      (p : Section → Bool) (ss : List Section) (s : Section)
      → all p ss ≡ true
      → p s ≡ true
      → all p (ss ++ s ∷ []) ≡ true
  all-snoc p [] s h e = rw e refl
  all-snoc p (t ∷ ss) s h e = ground (arith, all-snoc p ss s)

  -- A run that may still grow.
  abbrev FitsOrEmpty : List Section → Type 0
  FitsOrEmpty [] = Unit
  FitsOrEmpty (s ∷ ss) = Fits (s ∷ ss)

  abbrev in_state : List ChunkGroup → List Section → ℕ → Packing
  in_state gs current n = record { groups = gs; current = current; current_tokens = n }

  -- The sections so far are those of the runs that are groups already, and the current run.
  abbrev Packed : List Section → Packing → Type 0
  Packed done p =
      (runs : List (List Section)) × (p.groups ≡ groups_of 0 runs)
      × (concat runs ++ p.current ≡ done)
      × All Fits runs
      × FitsOrEmpty p.current
      × (p.current_tokens ≡ total p.current)

  flush-parts :
      (done : List Section) (gs : List ChunkGroup) (current : List Section) (n : ℕ)
      → Packed done (in_state gs current n)
      → Packed done (flush (in_state gs current n)) × ((flush (in_state gs current n)).current ≡ [])
  unfolding flush
  flush-parts done gs [] n h = (h, refl)
  flush-parts done gs (s ∷ ss) n (runs, g, c, f, e, t) =
      let plain : 0 + length runs ≡ length runs = omega arith in
      (
        (
          runs ++ (s ∷ ss) ∷ [],
          rw (g, length-groups_of 0 runs, t)
              (sym (
                groups_of-snoc 0 runs (s ∷ ss)
                ∙ ap (λ i. groups_of 0 runs ++ group_of i (s ∷ ss) ∷ []) plain)),
          append-nil (concat (runs ++ (s ∷ ss) ∷ [])) ∙ (concat-snoc runs (s ∷ ss) ∙ c),
          All-append Fits runs ((s ∷ ss) ∷ []) f (e, tt),
          tt,
          refl,
        ),
        refl,
      )

  flush-Packed :
      (done : List Section) (p : Packing)
      → Packed done p
      → Packed done (flush p) × ((flush p).current ≡ [])
  flush-Packed done p h = flush-parts done p.groups p.current p.current_tokens h

  flush_if-Packed :
      (done : List Section) (b : Bool) (p : Packing) → Packed done p → Packed done (flush_if b p)
  unfolding flush_if
  flush_if-Packed done true p h = (flush-Packed done p h).0
  flush_if-Packed done false p h = h

  -- Behind a flush that was due, the section may be appended.
  abbrev Ready : Section → Packing → Type 0
  Ready sec p =
      (any_left p.current && starts_with_h1 sec.text ≡ false)
      × (any_left p.current && ltb target (p.current_tokens + sec.tokens) ≡ false)

  emptied :
      (done : List Section) (b : Bool) (p : Packing) (c : Bool)
      → Packed done p
      → any_left p.current && c ≡ b
      → any_left (flush_if b p).current && c ≡ false
  unfolding flush_if
  emptied done true p c h e = rw ((flush-Packed done p h).1) refl
  emptied done false p c h e = e

  kept :
      (done : List Section) (b c : Bool) (p : Packing)
      → Packed done p
      → any_left p.current && c ≡ false
      → any_left (flush_if b p).current && c ≡ false
  unfolding flush_if
  kept done true c p h e = rw ((flush-Packed done p h).1) refl
  kept done false c p h e = e

  Fits-snoc :
      (ss : List Section) (sec : Section)
      → FitsOrEmpty ss
      → any_left ss && starts_with_h1 sec.text ≡ false
      → any_left ss && ltb target (total ss + sec.tokens) ≡ false
      → Fits (ss ++ sec ∷ [])
  Fits-snoc [] sec h a b = (refl, inl refl)
  Fits-snoc (s ∷ ss) sec h a b = (
    all-snoc (λ t. not (starts_with_h1 t.text)) ss sec h.0 (rw a refl),
    inr (ground (arith, total-snoc (s ∷ ss) sec, b)),
  )

  Fits-FitsOrEmpty : (ss : List Section) → Fits ss → FitsOrEmpty ss
  Fits-FitsOrEmpty [] h = tt
  Fits-FitsOrEmpty (s ∷ ss) h = h

  append-Packed :
      (done : List Section) (sec : Section) (p : Packing)
      → Packed done p
      → any_left p.current && starts_with_h1 sec.text ≡ false
      → any_left p.current && ltb target (p.current_tokens + sec.tokens) ≡ false
      → Packed (done ++ sec ∷ []) (append_section starts_with_h1 target sec p)
  append-Packed done sec p (runs, g, c, f, e, t) a b = (
    runs,
    g,
    sym (append_assoc (concat runs) p.current (sec ∷ [])) ∙ ap (λ l. l ++ sec ∷ []) c,
    f,
    Fits-FitsOrEmpty (p.current ++ sec ∷ []) (Fits-snoc p.current sec e a (rw (sym t) b)),
    omega (arith, t, total-snoc p.current sec),
  )

  pack-Packed :
      (done : List Section) (sec : Section) (p : Packing)
      → Packed done p
      → Packed (done ++ sec ∷ []) (pack starts_with_h1 target sec p)
  unfolding pack flush_if
  pack-Packed done sec p h =
      let b = at_h1 starts_with_h1 target sec p in
      let p1 = flush_if b p in
      let h1 = flush_if-Packed done b p h in
      let o = overshoots starts_with_h1 target sec p1 in
      append-Packed done sec (flush_if o p1) (flush_if-Packed done o p1 h1)
        (kept done o (starts_with_h1 sec.text) p1 h1
          (emptied done b p (starts_with_h1 sec.text) h refl))
        (room done o p1 h1 refl)
    where
      room :
          (done : List Section) (o : Bool) (p1 : Packing)
          → Packed done p1
          → overshoots starts_with_h1 target sec p1 ≡ o
          → overshoots starts_with_h1 target sec (flush_if o p1) ≡ false
      room done true p1 h1 e = rw ((flush-Packed done p1 h1).1) refl
      room done false p1 h1 e = e

  pack_all-Packed :
      (done ss : List Section) (p : Packing)
      → Packed done p
      → Packed (done ++ ss) (pack_all starts_with_h1 target ss p)
  unfolding pack_all
  pack_all-Packed done [] p h = rw (append-nil done) h
  pack_all-Packed done (s ∷ ss) p h = rw (sym (append_assoc done (s ∷ []) ss)) (
      pack_all-Packed (done ++ s ∷ []) ss (pack starts_with_h1 target s p) (pack-Packed done s p h))

  -- For a positive target `group_sections` returns groups of consecutive runs that make up all the
  -- sections in order: each run has a section, only its first section starts with an H1, and its
  -- tokens are within the target unless it is a single section. A group has the joined text, the
  -- token count and the starts of its run, and the groups are numbered from 0.
  pub group_sections-Fits :
      (sections : List Section)
      → suc 0 ≤ target
      → (runs : List (List Section)) × (group_sections starts_with_h1 target sections
          ≡ some (groups_of 0 runs))
        × (concat runs ≡ sections)
        × All Fits runs
  unfolding group_sections
  group_sections-Fits sections h =
      let start : Packing = record { groups = []; current = []; current_tokens = 0 } in
      let p = pack_all starts_with_h1 target sections start in
      let ((runs, g, c, f, _, _), empty) =
        flush-Packed sections p
          (pack_all-Packed [] sections start ([], refl, refl, tt, tt, refl)) in
      let positive : leb target 0 ≡ false = ground arith in
      (
        runs,
        rw positive (ap some g),
        sym (append-nil (concat runs)) ∙ (sym (ap (λ l. concat runs ++ l) empty) ∙ c),
        f,
      )
