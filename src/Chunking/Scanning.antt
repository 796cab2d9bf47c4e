-- ===== src/Chunking/Scanning.antt =====
-- The paragraph scanner of chunk.py ends, and its spans stand in order.
use dikw_core.Prelude.{
  ℕ, zero, suc, ◌+◌, ◌-◌, ◌≤◌, ◌<◌, Text, ◌≡◌, refl, ◌||◌, Option, none, some, List, [], ◌∷◌, ◌++◌,
  arith, all, ◌==◌, length, take, length-drop, length-take, Bool-cases, Option-cases, inl, inr,
  subst,
}
use dikw_core.Links.Normalize.{is_space}
use dikw_core.Links.Parse.{rstrip}
use dikw_core.Chunking.{Para}
use dikw_core.Chunking.Spans.{
  skip_breaks, last_break, separator_at, search_separator, prepend, span_at, next_para, scan,
  paragraph_spans,
}

-- The spans have text, stand in order and apart, and lie between the two positions.
abbrev pub Ordered : ℕ → List Para → ℕ → Type 0
Ordered lo [] hi = lo ≤ hi
Ordered lo (p ∷ ps) hi = (lo ≤ p.start) × (p.start < p.stop) × Ordered p.stop ps hi

skip_breaks-bounds :
    (pos : ℕ) (s : Text)
    → (pos ≤ (skip_breaks pos s).0)
      × ((skip_breaks pos s).0 + length (skip_breaks pos s).1 ≡ pos + length s)
unfolding skip_breaks
skip_breaks-bounds pos [] = (omega arith, refl)
skip_breaks-bounds pos (c ∷ s) = elim (Bool-cases (c == 10 || c == 13)) [
  | inl e ↦
      let h = skip_breaks-bounds (suc pos) s in
      rw (skip_breaks, e) (omega (arith, h.0), omega (arith, h.1))
  | inr e ↦ rw (skip_breaks, e) (omega arith, refl)
]

length-rstrip : (s : Text) → length (rstrip s) ≤ length s
length-rstrip [] = omega arith
length-rstrip (c ∷ s) = ground (arith, length-rstrip s)

abbrev AtMost : ℕ → Option ℕ → Type 0
AtMost n none = Unit
AtMost n (some k) = (0 < k) × (k ≤ n)

last_break-bounds : (s : Text) → AtMost (length s) (last_break s)
unfolding last_break
last_break-bounds [] = tt
last_break-bounds (c ∷ s) = elim (Bool-cases (is_space c)) [
  | inr e ↦ rw (last_break, e) tt
  | inl e ↦ elim (Option-cases (last_break s)) [
    | inr (k, o) ↦
        let h = subst (AtMost (length s)) o (last_break-bounds s) in
        rw (last_break, e, o) (omega (arith, h.0), omega (arith, h.1))
    | inl o ↦ elim (Bool-cases (c == 10)) [
      | inl b ↦ rw (last_break, e, o, b) (omega arith, omega arith)
      | inr b ↦ rw (last_break, e, o, b) tt
    ]
  ]
]

separator_at-bounds : (s : Text) → AtMost (length s) (separator_at s)
unfolding separator_at
separator_at-bounds [] = tt
separator_at-bounds (c ∷ s) = elim (Bool-cases (c == 10)) [
  | inr e ↦ rw (separator_at, e) tt
  | inl e ↦ elim (Option-cases (last_break s)) [
    | inl o ↦ rw (separator_at, e, o) tt
    | inr (k, o) ↦
        let h = subst (AtMost (length s)) o (last_break-bounds s) in
        rw (separator_at, e, o) (omega arith, omega (arith, h.1))
  ]
]

abbrev Inside : ℕ → Option (ℕ × ℕ) → Type 0
Inside n none = Unit
Inside n (some m) = (0 < m.1) × (m.0 + m.1 ≤ n)

search_separator-bounds : (s : Text) → Inside (length s) (search_separator s)
unfolding search_separator
search_separator-bounds [] = tt
search_separator-bounds (c ∷ s) = elim (Option-cases (separator_at (c ∷ s))) [
  | inr (k, o) ↦
      let h = subst (AtMost (length (c ∷ s))) o (separator_at-bounds (c ∷ s)) in
      rw (search_separator, o) (omega (arith, h.0), omega (arith, h.1))
  | inl o ↦ elim (Option-cases (search_separator s)) [
    | inl p ↦ rw (search_separator, o, p) tt
    | inr (m, p) ↦
        let h = subst (Inside (length s)) p (search_separator-bounds s) in
        rw (search_separator, o, p) (omega (arith, h.0), omega (arith, h.1))
  ]
]

Ordered-append :
    (lo mid hi : ℕ) (ps qs : List Para)
    → Ordered lo ps mid
    → Ordered mid qs hi
    → Ordered lo (ps ++ qs) hi
Ordered-append lo mid hi [] [] h k = omega (arith, h, k)
Ordered-append lo mid hi [] (q ∷ qs) h k = (omega (arith, h, k.0), k.1, k.2)
Ordered-append lo mid hi (p ∷ ps) qs h k = (h.0, h.1, Ordered-append p.stop mid hi ps qs h.2 k)

module _ (count_tokens : Text → ℕ) where
  span_at-Ordered :
      (start : ℕ) (s : Text) (stop : ℕ)
      → start + length s ≤ stop
      → Ordered start (span_at count_tokens start s) stop
  unfolding span_at
  span_at-Ordered start s stop h =
      elim (Bool-cases (length (rstrip s) == 0 || count_tokens s == 0)) [
        | inl e ↦ rw (span_at, e) (omega (arith, h))
        | inr e ↦
            let l = length-rstrip s in
            rw (span_at, e) (omega arith, ground (arith, e), omega (arith, l, h))
      ]

  -- One round goes on behind the paragraph, and at least one character further.
  next_para-Ordered :
      (start : ℕ) (s : Text)
      → let r = next_para count_tokens start s in
        Ordered start r.0 r.1 × (r.1 + length r.2 ≡ start + length s) × (length r.2 ≤ length s - 1)
  unfolding next_para
  next_para-Ordered start [] = (omega arith, refl, omega arith)
  next_para-Ordered start (c ∷ s) = elim (Option-cases (search_separator (c ∷ s))) [
    | inl o ↦
        rw (next_para, o)
          (
            span_at-Ordered start (c ∷ s) (start + length (c ∷ s)) (omega arith),
            omega arith,
            omega arith,
          )
    | inr (m, o) ↦
        let h = subst (Inside (length (c ∷ s))) o (search_separator-bounds (c ∷ s)) in
        rw (next_para, o)
          (
            span_at-Ordered start (take m.0 (c ∷ s)) (start + (m.0 + m.1))
                (omega (arith, length-take m.0 (c ∷ s))),
            omega (arith, length-drop (m.0 + m.1) (c ∷ s), h.1),
            omega (arith, length-drop (m.0 + m.1) (c ∷ s), h.0),
          )
  ]

  -- Enough rounds are given, and the spans stand in order.
  abbrev Scanned : ℕ → ℕ → Option (List Para) → Type 0
  Scanned lo hi none = ⊥
  Scanned lo hi (some l) = Ordered lo l hi

  prepend-Scanned :
      (lo start mid hi : ℕ) (spans : List Para) (o : Option (List Para))
      → lo ≤ start
      → Ordered start spans mid
      → Scanned mid hi o
      → Scanned lo hi (prepend spans o)
  unfolding prepend
  prepend-Scanned lo start mid hi spans none l h k = k
  prepend-Scanned lo start mid hi spans (some more) l h k =
      Ordered-append lo start hi [] (spans ++ more) l (Ordered-append start mid hi spans more h k)

  -- Each round leaves less text, so that as many rounds as characters are enough.
  scan-Scanned :
      (fuel pos : ℕ) (s : Text)
      → length s ≤ fuel
      → Scanned pos (pos + length s) (scan count_tokens fuel pos s)
  unfolding scan
  scan-Scanned fuel pos [] h = omega arith
  scan-Scanned zero pos (c ∷ s) h = absurd (omega (arith, h))
  scan-Scanned (suc fuel) pos (c ∷ s) h =
      let start = (skip_breaks pos (c ∷ s)).0 in
      let rest = (skip_breaks pos (c ∷ s)).1 in
      let skipped = skip_breaks-bounds pos (c ∷ s) in
      let r = next_para count_tokens start rest in
      let round = next_para-Ordered start rest in
      let stop : r.1 + length r.2 ≡ pos + length (c ∷ s) = omega (arith, round.1, skipped.1) in
      let less : length r.2 ≤ fuel = omega (arith, round.2, skipped.0, skipped.1, h) in
      prepend-Scanned pos start r.1 (pos + length (c ∷ s)) r.0 (scan count_tokens fuel r.1 r.2)
        skipped.0 round.0
        (subst (λ hi. Scanned r.1 hi (scan count_tokens fuel r.1 r.2)) stop
          (scan-Scanned fuel r.1 r.2 less))

  -- The scanner of paragraphs ends on every text after at most as many rounds as it has
  -- characters, and its spans are not empty, stand in order without overlap, and lie in the text.
  pub paragraph_spans-Ordered :
      (text : Text)
      → (spans : List Para) × (paragraph_spans count_tokens text ≡ some spans)
        × Ordered 0 spans (length text)
  unfolding paragraph_spans
  paragraph_spans-Ordered text = elim (Bool-cases (all is_space text)) [
    | inl e ↦ ([], rw (paragraph_spans, e) refl, omega arith)
    | inr e ↦
        let h = scan-Scanned (length text) 0 text (omega arith) in
        elim (Option-cases (scan count_tokens (length text) 0 text)) [
          | inl o ↦ absurd (subst (Scanned 0 (0 + length text)) o h)
          | inr (spans, o) ↦ (
            spans,
            rw (paragraph_spans, e, o) refl,
            (let z : 0 + length text ≡ length text = omega arith in
                subst (Ordered 0 spans) z (subst (Scanned 0 (0 + length text)) o h)),
          )
        ]
  ]
