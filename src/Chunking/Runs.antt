-- ===== src/Chunking/Runs.antt =====
-- Runs of paragraphs, in the order of the text, and the chunks that stand for them.
use dikw_core.Prelude.{
  ℕ, suc, ◌+◌, ◌≤◌, Text, ◌≡◌, refl, Bool, true, ◌&&◌, List, [], ◌∷◌, ◌++◌, arith, ltb, leb, ◌==◌,
  any, All, Bool-cases, inl, inr,
}
use dikw_core.Chunking.{Para, MarkdownChunk, last_stop, carry_back, total}
use dikw_core.Chunking.Windows.{Stands, chunk_of}

-- Some of the elements, in their order.
pub data Sublist {A : Type 0} : List A → List A → Type 0 where
  none_left : Sublist [] []
  skip : {y : A} {xs ys : List A} → Sublist xs ys → Sublist xs (y ∷ ys)
  keep : {x : A} {xs ys : List A} → Sublist xs ys → Sublist (x ∷ xs) (x ∷ ys)

pub Sublist-nil : {A : Type 0} (ys : List A) → Sublist [] ys
Sublist-nil [] = none_left
Sublist-nil (y ∷ ys) = skip (Sublist-nil ys)

pub Sublist_refl : {A : Type 0} (ys : List A) → Sublist ys ys
Sublist_refl [] = none_left
Sublist_refl (y ∷ ys) = keep (Sublist_refl ys)

pub Sublist_trans : {A : Type 0} {xs ys zs : List A} → Sublist xs ys → Sublist ys zs → Sublist xs zs
Sublist_trans h none_left = h
Sublist_trans h (skip k) = skip (Sublist_trans h k)
Sublist_trans (skip h) (keep k) = skip (Sublist_trans h k)
Sublist_trans (keep h) (keep k) = keep (Sublist_trans h k)

pub Sublist-append :
    {A : Type 0} {xs ys : List A} (zs : List A) → Sublist xs ys → Sublist xs (ys ++ zs)
Sublist-append zs none_left = Sublist-nil zs
Sublist-append zs (skip h) = skip (Sublist-append zs h)
Sublist-append zs (keep h) = keep (Sublist-append zs h)

pub Sublist-snoc :
    {A : Type 0} {xs ys : List A} (z : A) → Sublist xs ys → Sublist (xs ++ z ∷ []) (ys ++ z ∷ [])
Sublist-snoc z none_left = keep none_left
Sublist-snoc z (skip h) = skip (Sublist-snoc z h)
Sublist-snoc z (keep h) = keep (Sublist-snoc z h)

Sublist-All : {A : Type 0} (P : A → Type 0) {xs ys : List A} → Sublist xs ys → All P ys → All P xs
Sublist-All P none_left a = tt
Sublist-All P (skip h) a = Sublist-All P h a.1
Sublist-All P (keep h) a = (a.0, Sublist-All P h a.1)

-- The paragraphs stand one behind the other.
abbrev pub Ascending : List Para → Type 0
Ascending [] = Unit
Ascending (p ∷ ps) = (p.start ≤ p.stop) × All (λ (q : Para). p.stop ≤ q.start) ps × Ascending ps

pub Sublist-Ascending : {xs ys : List Para} → Sublist xs ys → Ascending ys → Ascending xs
Sublist-Ascending none_left a = tt
Sublist-Ascending (skip h) a = Sublist-Ascending h a.2
Sublist-Ascending (keep {x = x} h) a =
    (a.0, Sublist-All (λ (q : Para). x.stop ≤ q.start) h a.1, Sublist-Ascending h a.2)

abbrev pub spans_at : ℕ → ℕ → Para → Bool
spans_at a b p = (p.start == a) && (p.stop == b)

last_stop-bound : (p : Para) (ps : List Para) → Ascending (p ∷ ps) → p.stop ≤ last_stop p ps
last_stop-bound p [] h = omega arith
last_stop-bound p (q ∷ qs) h = omega (arith, last_stop-bound q qs h.2, h.1.0, h.2.0)

-- A paragraph of a run lies between the start of its first and the stop of its last.
within :
    (a b : ℕ) (p : Para) (ps : List Para)
    → Ascending (p ∷ ps)
    → any (spans_at a b) (p ∷ ps) ≡ true
    → (p.start ≤ a) × (b ≤ last_stop p ps)
within a b p [] h e = (ground (arith, e), ground (arith, e))
within a b p (q ∷ qs) h e = elim (Bool-cases (spans_at a b p)) [
  | inl k ↦ (ground (arith, k), ground (arith, k, last_stop-bound p (q ∷ qs) h))
  | inr k ↦
      let rest : any (spans_at a b) (q ∷ qs) ≡ true = rw k at e in
      let (lo, hi) = within a b q qs h.2 rest in (omega (arith, lo, h.0, h.1.0), hi)
]

module _ (body : Text) (max_tokens max_overlap : ℕ) (small : max_overlap ≤ max_tokens) where
  -- A chunk holds the characters from `a` to `b`.
  abbrev pub holds : ℕ → ℕ → MarkdownChunk → Bool
  holds a b c = leb c.start a && leb b c.stop

  pub Stands-holds :
      (i a b : ℕ) (cs : List MarkdownChunk) (runs : List (List Para))
      → Stands body max_tokens max_overlap small i cs runs
      → All Ascending runs
      → any (any (spans_at a b)) runs ≡ true
      → any (holds a b) cs ≡ true
  Stands-holds i a b [] [] s asc e = e
  Stands-holds i a b [] (r ∷ runs) s asc e = absurd s
  Stands-holds i a b (c ∷ cs) [] s asc e = absurd s
  Stands-holds i a b (c ∷ cs) ([] ∷ runs) s asc e = absurd s
  Stands-holds i a b (c ∷ cs) ((p ∷ ps) ∷ runs) s asc e =
      elim (Bool-cases (any (spans_at a b) (p ∷ ps))) [
        | inl k ↦
            let (lo, hi) = within a b p ps asc.0 k in
            let here : holds a b (chunk_of body max_tokens max_overlap small i p ps) ≡ true =
              ground (arith, lo, hi) in
            rw (s.0, here) refl
        | inr k ↦
            let rest = Stands-holds (suc i) a b cs runs s.1 asc.1 (rw k at e) in
            elim (Bool-cases (holds a b c)) [ inl z ↦ rw z refl | inr z ↦ rw (z, rest) refl ]
      ]

  pub carry_back-Sublist :
      (ps : List Para) → Sublist (carry_back body max_tokens max_overlap ps).0 ps
  unfolding carry_back
  carry_back-Sublist [] = none_left
  carry_back-Sublist (p ∷ []) = elim (Bool-cases (ltb p.tokens max_tokens)) [
    | inl e ↦ rw (carry_back, e) (keep none_left)
    | inr e ↦ rw (carry_back, e) (skip none_left)
  ]
  carry_back-Sublist (p ∷ q ∷ ps) =
      let (overlap, going) = carry_back body max_tokens max_overlap (q ∷ ps) in
      elim (Bool-cases (going && leb (total overlap + p.tokens) max_overlap)) [
        | inl e ↦ rw (carry_back, e) (keep (carry_back-Sublist (q ∷ ps)))
        | inr e ↦ rw (carry_back, e) (skip (carry_back-Sublist (q ∷ ps)))
      ]

pub All-spans :
    (G : ℕ → ℕ → Type 0) (ps : List Para)
    → ((a b : ℕ) → any (spans_at a b) ps ≡ true → G a b)
    → All (λ (p : Para). G p.start p.stop) ps
All-spans G [] h = tt
All-spans G (p ∷ ps) h =
    (h p.start p.stop (ground arith), All-spans G ps (λ a b k. h a b (ground (arith, k))))

pub All-Sublist-append :
    {A : Type 0} (zs ys : List A) (xss : List (List A))
    → All (λ xs. Sublist xs ys) xss
    → All (λ xs. Sublist xs (ys ++ zs)) xss
All-Sublist-append zs ys [] h = tt
All-Sublist-append zs ys (xs ∷ xss) h = (Sublist-append zs h.0, All-Sublist-append zs ys xss h.1)
