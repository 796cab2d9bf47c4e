-- ===== src/Chunking/Windows.antt =====
-- The runs of paragraphs that the chunks stand for, and what is carried from one to the next.
use dikw_core.Prelude.{
  ℕ, suc, ◌+◌, ◌-◌, ◌≤◌, Text, ◌≡◌, refl, ◌&&◌, List, [], ◌∷◌, ◌++◌, arith, ltb, leb, length, take,
  drop, Bool-cases, inl, inr, ◌⊎◌,
}
use dikw_core.Chunking.{Para, MarkdownChunk, total, last_stop, carry_back}

module _ (body : Text) (max_tokens max_overlap : ℕ) (small : max_overlap ≤ max_tokens) where
  -- The chunk of a run of paragraphs.
  abbrev pub chunk_of : ℕ → Para → List Para → MarkdownChunk
  chunk_of i p ps = record {
    seq = i;
    start = p.start;
    stop = last_stop p ps;
    text = take (last_stop p ps - p.start) (drop p.start body);
  }

  -- The runs that `chunks` stand for: numbered from `i`.
  abbrev pub Stands : ℕ → List MarkdownChunk → List (List Para) → Type 0
  Stands i [] [] = Unit
  Stands i (c ∷ cs) ((p ∷ ps) ∷ runs) = (c ≡ chunk_of i p ps) × Stands (suc i) cs runs
  Stands i _ _ = ⊥

  -- Within the budget, or a single paragraph.
  abbrev pub Fits : List Para → Type 0
  Fits [] = Unit
  Fits (p ∷ ps) = (ps ≡ []) ⊎ (total (p ∷ ps) ≤ max_tokens)

  pub Stands-snoc :
      (i : ℕ) (cs : List MarkdownChunk) (runs : List (List Para)) (p : Para) (ps : List Para)
      → Stands i cs runs
      → Stands i (cs ++ chunk_of (i + length cs) p ps ∷ []) (runs ++ (p ∷ ps) ∷ [])
  Stands-snoc i [] [] p ps h = let e : i + 0 ≡ i = omega arith in (rw e refl, tt)
  Stands-snoc i [] (r ∷ runs) p ps h = absurd h
  Stands-snoc i (c ∷ cs) [] p ps h = absurd h
  Stands-snoc i (c ∷ cs) ([] ∷ runs) p ps h = absurd h
  Stands-snoc i (c ∷ cs) ((q ∷ qs) ∷ runs) p ps h =
      let e : i + suc (length cs) ≡ suc i + length cs = omega arith in
      (h.0, rw e (Stands-snoc (suc i) cs runs p ps h.1))

  -- What is carried is one paragraph at most, or within the overlap budget.
  unfoldable pub Light : List Para → Type 0
  Light ps = (length ps ≤ 1) ⊎ (total ps ≤ max_overlap)

  pub carry_back-Light : (ps : List Para) → Light (carry_back body max_tokens max_overlap ps).0
  unfolding carry_back Light
  carry_back-Light [] = inl (omega arith)
  carry_back-Light (p ∷ []) = elim (Bool-cases (ltb p.tokens max_tokens)) [
    | inl e ↦ rw (carry_back, e) (inl (omega arith))
    | inr e ↦ rw (carry_back, e) (inl (omega arith))
  ]
  carry_back-Light (p ∷ q ∷ ps) =
      let (overlap, going) = carry_back body max_tokens max_overlap (q ∷ ps) in
      elim (Bool-cases (going && leb (total overlap + p.tokens) max_overlap)) [
        | inl e ↦ rw (carry_back, e) (inr (ground (arith, e)))
        | inr e ↦ rw (carry_back, e) (carry_back-Light (q ∷ ps))
      ]

  pub Light-Fits : (ps : List Para) → Light ps → Fits ps
  unfolding Light
  Light-Fits [] h = tt
  Light-Fits (p ∷ []) h = inl refl
  Light-Fits (p ∷ q ∷ ps) (inl h) = absurd (omega arith)
  Light-Fits (p ∷ q ∷ ps) (inr h) = inr (omega (arith, small))
