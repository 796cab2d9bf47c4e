-- ===== src/Chunking/Coverage.antt =====
-- Every paragraph is in a window, and every window is within the budget or a single paragraph.
use dikw_core.Prelude.{
  ℕ, ◌+◌, ◌≤◌, Text, ◌≡◌, refl, Bool, true, false, ◌&&◌, ◌||◌, not, none, some, List, [], ◌∷◌, ◌++◌,
  arith, if◌then◌else◌, any, ltb, length, All, All-map, All-append, Bool-cases, inl, inr, ◌∙◌, sym,
  append-nil, append_assoc,
}
use dikw_core.Chunking.{
  Para, MarkdownChunk, has_paras, total, Window, emit_chunk, carry_back, flush_and_overlap,
  overflows, close_at_heading, drop_carry, close_at_budget, append_para, chunk_paras, spans_covered,
  chunk_windows,
}
use dikw_core.Chunking.Runs.{
  Sublist, none_left, Sublist-nil, Sublist_trans, Sublist-snoc, Ascending, Sublist-Ascending, holds,
  spans_at, Stands-holds, carry_back-Sublist, All-spans, All-Sublist-append,
}
use dikw_core.Chunking.Windows.{Stands, Fits, Stands-snoc, carry_back-Light, Light-Fits}

any-snoc :
    {A : Type 0} (q : A → Bool) (xs : List A) (x : A) → any q (xs ++ x ∷ []) ≡ any q xs || q x
any-snoc q [] x = ground arith
any-snoc q (y ∷ xs) x = ground (arith, any-snoc q xs x)

total-snoc : (ps : List Para) (p : Para) → total (ps ++ p ∷ []) ≡ total ps + p.tokens
total-snoc [] p = omega arith
total-snoc (r ∷ ps) p = omega (arith, total-snoc ps p)

module _ (body : Text) (max_tokens max_overlap : ℕ) (small : max_overlap ≤ max_tokens) where
  -- The chunks stand for runs that fit, the current run fits, and each paragraph so far is in a run
  -- or in the current one.
  abbrev Windowed : List Para → Window → Type 0
  Windowed done w =
      (runs : List (List Para)) × Stands body max_tokens max_overlap small 0 w.chunks runs
      × All (Fits body max_tokens max_overlap small) runs
      × Fits body max_tokens max_overlap small w.current
      × (w.current_tokens ≡ total w.current)
      × (All (λ (run : List Para). Sublist run done) runs × Sublist w.current done)
      × ((q : Para → Bool) → any q done ≡ true → any (any q) runs || any q w.current ≡ true)

  -- Likewise, but each paragraph so far is in a run.
  abbrev Flushed : List Para → Window → Type 0
  Flushed done w =
      (runs : List (List Para)) × Stands body max_tokens max_overlap small 0 w.chunks runs
      × All (Fits body max_tokens max_overlap small) runs
      × Fits body max_tokens max_overlap small w.current
      × (w.current_tokens ≡ total w.current)
      × (All (λ (run : List Para). Sublist run done) runs × Sublist w.current done)
      × ((q : Para → Bool) → any q done ≡ true → any (any q) runs ≡ true)

  abbrev in_state : List MarkdownChunk → List Para → ℕ → Window
  in_state cs current n = record { chunks = cs; current = current; current_tokens = n }

  flush-parts :
      (done : List Para) (cs : List MarkdownChunk) (current : List Para) (n : ℕ)
      → Windowed done (in_state cs current n)
      → Flushed done (flush_and_overlap body max_tokens max_overlap (in_state cs current n))
  unfolding flush_and_overlap emit_chunk carry_back
  flush-parts done cs [] n (runs, st, fit, cur, tok, sub, cover) =
      (runs, st, fit, tt, refl, (sub.0, Sublist-nil done), λ q h. ground (arith, cover q h))
  flush-parts done cs (p ∷ ps) n (runs, st, fit, cur, tok, sub, cover) =
      let plain : 0 + length cs ≡ length cs = omega arith in
      (
        runs ++ (p ∷ ps) ∷ [],
        rw plain at (Stands-snoc body max_tokens max_overlap small 0 cs runs p ps st),
        All-append (Fits body max_tokens max_overlap small) runs ((p ∷ ps) ∷ []) fit (cur, tt),
        Light-Fits body max_tokens max_overlap small
            (carry_back body max_tokens max_overlap (p ∷ ps)).0
            (carry_back-Light body max_tokens max_overlap small (p ∷ ps)),
        refl,
        (
          All-append (λ (run : List Para). Sublist run done) runs ((p ∷ ps) ∷ []) sub.0 (sub.1, tt),
          Sublist_trans (carry_back-Sublist body max_tokens max_overlap small (p ∷ ps)) sub.1,
        ),
        λ q h. any-snoc (any q) runs (p ∷ ps) ∙ cover q h,
      )

  flush-Flushed :
      (done : List Para) (w : Window)
      → Windowed done w
      → Flushed done (flush_and_overlap body max_tokens max_overlap w)
  flush-Flushed done w h = flush-parts done w.chunks w.current w.current_tokens h

  Flushed-Windowed : (done : List Para) (w : Window) → Flushed done w → Windowed done w
  Flushed-Windowed done w (runs, st, fit, cur, tok, sub, cover) =
      (runs, st, fit, cur, tok, sub, λ q h. ground (arith, cover q h))

  heading-Windowed :
      (done : List Para) (b : Bool) (w : Window)
      → Windowed done w
      → Windowed done (close_at_heading body max_tokens max_overlap b w)
  unfolding close_at_heading
  heading-Windowed done b w h =
      elim (Bool-cases (b && (ltb max_overlap w.current_tokens && has_paras w.current))) [
        | inl e ↦
            rw (close_at_heading, e)
              (Flushed-Windowed done (flush_and_overlap body max_tokens max_overlap w)
                (flush-Flushed done w h))
        | inr e ↦ rw (close_at_heading, e) h
      ]

  abbrev over : Para → Window → Bool
  over p w = overflows body max_tokens max_overlap p w

  drop-Windowed :
      (done : List Para) (p : Para) (w : Window)
      → Flushed done w
      → Windowed done (drop_carry body max_tokens max_overlap p w)
        × (over p (drop_carry body max_tokens max_overlap p w) ≡ false)
  unfolding drop_carry
  drop-Windowed done p w (runs, st, fit, cur, tok, sub, cover) = elim (Bool-cases (over p w)) [
    | inl e ↦
        rw (drop_carry, e)
          (
            (runs, st, fit, tt, refl, (sub.0, Sublist-nil done), λ q h. ground (arith, cover q h)),
            refl,
          )
    | inr e ↦
        rw (drop_carry, e) ((runs, st, fit, cur, tok, sub, λ q h. ground (arith, cover q h)), e)
  ]

  budget-Windowed :
      (done : List Para) (p : Para) (w : Window)
      → Windowed done w
      → Windowed done (close_at_budget body max_tokens max_overlap p w)
        × (over p (close_at_budget body max_tokens max_overlap p w) ≡ false)
  unfolding close_at_budget
  budget-Windowed done p w h = elim (Bool-cases (over p w)) [
    | inl e ↦
        rw (close_at_budget, e)
          (drop-Windowed done p (flush_and_overlap body max_tokens max_overlap w)
            (flush-Flushed done w h))
    | inr e ↦ rw (close_at_budget, e) (h, e)
  ]

  Fits-snoc :
      (ps : List Para) (p : Para)
      → has_paras ps && ltb max_tokens (total ps + p.tokens) ≡ false
      → Fits body max_tokens max_overlap small (ps ++ p ∷ [])
  Fits-snoc [] p e = inl refl
  Fits-snoc (r ∷ ps) p e = inr (ground (arith, total-snoc (r ∷ ps) p, e))

  append-Windowed :
      (done : List Para) (p : Para) (w : Window)
      → Windowed done w
      → over p w ≡ false
      → Windowed (done ++ p ∷ []) (append_para body max_tokens max_overlap p w)
  append-Windowed done p w (runs, st, fit, cur, tok, sub, cover) e = (
    runs,
    st,
    fit,
    Fits-snoc w.current p (rw tok at e),
    omega (arith, tok, total-snoc w.current p),
    (All-Sublist-append (p ∷ []) done runs sub.0, Sublist-snoc p sub.1),
    λ q h. elim (Bool-cases (any q done)) [
      | inl d ↦ rw (any-snoc q w.current p) (ground (arith, cover q d))
      | inr d ↦ rw (any-snoc q w.current p) (ground (arith, any-snoc q done p, h, d))
    ],
  )

  chunk_paras-Windowed :
      (is_heading : Para → Bool) (done ps : List Para) (w : Window)
      → Windowed done w
      → Windowed (done ++ ps) (chunk_paras body max_tokens max_overlap is_heading ps w)
  unfolding chunk_paras
  chunk_paras-Windowed is_heading done [] w h = rw (append-nil done) h
  chunk_paras-Windowed is_heading done (p ∷ ps) w h =
      let w1 = close_at_heading body max_tokens max_overlap (is_heading p) w in
      let (h2, room) = budget-Windowed done p w1 (heading-Windowed done (is_heading p) w h) in
      let w2 = close_at_budget body max_tokens max_overlap p w1 in
      rw (sym (append_assoc done (p ∷ []) ps)) (
        chunk_paras-Windowed is_heading (done ++ p ∷ []) ps
          (append_para body max_tokens max_overlap p w2) (append-Windowed done p w2 h2 room))

  -- If the overlap budget is at most the token budget, and the paragraphs stand one behind the other:
  -- every paragraph lies within a chunk. The chunks stand for runs of paragraphs, numbered from 0: a
  -- chunk is the text from the start of the first to the stop of the last paragraph of its run. A run
  -- consists of given paragraphs in their order, and is within the token budget or a single
  -- paragraph, and every paragraph is in a run. The chunks are returned if there is no paragraph or
  -- every atomic span lies in a chunk; otherwise the call raises.
  pub chunk_windows-Fits :
      (is_heading : Para → Bool) (paras : List Para) (spans : List (ℕ × ℕ))
      → Ascending paras
      → (chunks : List MarkdownChunk) × (runs : List (List Para)) × (chunk_windows body max_tokens
            max_overlap is_heading paras spans
          ≡ (if not (has_paras paras) || spans_covered body max_tokens max_overlap spans chunks
              then some chunks
              else none))
        × All
            (λ (p : Para).
              any (holds body max_tokens max_overlap small p.start p.stop) chunks ≡ true)
            paras
        × Stands body max_tokens max_overlap small 0 chunks runs
        × All (Fits body max_tokens max_overlap small) runs
        × All (λ (run : List Para). Sublist run paras) runs
        × ((q : Para → Bool) → not (any q paras) || any (any q) runs ≡ true)
  unfolding chunk_windows
  chunk_windows-Fits is_heading [] spans asc = ([], [], refl, tt, tt, tt, tt, λ q. refl)
  chunk_windows-Fits is_heading (p ∷ ps) spans asc =
      let start = in_state [] [] 0 in
      let w = chunk_paras body max_tokens max_overlap is_heading (p ∷ ps) start in
      let h =
        chunk_paras-Windowed is_heading [] (p ∷ ps) start
          ([], tt, tt, tt, refl, (tt, none_left), λ q h. h) in
      let (runs, st, fit, _, _, sub, cover) = flush-Flushed (p ∷ ps) w h in
      let chunks = emit_chunk body max_tokens max_overlap w.chunks w.current in
      let ascending : All Ascending runs =
        All-map (λ (run : List Para). Sublist run (p ∷ ps)) Ascending
          (λ run k. Sublist-Ascending k asc) runs sub.0 in
      (
        chunks,
        runs,
        refl,
        All-spans (λ a b. any (holds body max_tokens max_overlap small a b) chunks ≡ true) (p ∷ ps)
            (λ a b k.
              Stands-holds body max_tokens max_overlap small 0 a b chunks runs st ascending
                (cover (spans_at a b) k)),
        st,
        fit,
        sub.0,
        λ q. ground (arith, cover q),
      )
