-- ===== src/Search/Diversity.antt =====
-- `apply_source_diversity_penalty` of search.py against a description by the chunks ahead.
use mathlib.Core.List.{Perm}
use mathlib.Core.List.Perm
use dikw_core.Prelude.{
  ℕ, ◌+◌, String, ◌≡◌, refl, Bool, false, none, some, List, [], ◌∷◌, ◌++◌, arith, map, str_eq,
  eq_iff, if◌then◌else◌, length, Bool-cases, Option-cases, inl, inr, ◌∙◌, sym, ap, select,
}
use dikw_core.Prelude.Sort.{sort, sort-perm}
use dikw_core.Search.Scores.{Num, Dict, lookup}
use dikw_core.Search.Fusion.{seen, note_seen, demote, scores_before, apply_source_diversity_penalty}

module _ (num : Num) (docs : Dict String) where
  open num use {Score, add, mul, div, of_nat, equals}

  -- Whether a chunk is of this document.
  abbrev pub is_of : String → ℕ → Bool
  is_of doc chunk_id = elim (lookup chunk_id docs) [ none ↦ false | some d ↦ str_eq doc d ]

  -- The score of a chunk behind the chunks `ahead`.
  abbrev pub factored : Score → List ℕ → ℕ × Score → Score
  factored alpha ahead e = elim (lookup e.0 docs) [
    | none ↦ e.1
    | some doc ↦ div e.1 (add num.one (mul alpha (of_nat (length (select (is_of doc) ahead)))))
  ]

  abbrev pub factored_all : Score → List ℕ → Dict Score → Dict Score
  factored_all alpha ahead [] = []
  factored_all alpha ahead (e ∷ rest) =
      (e.0, factored alpha ahead e) ∷ factored_all alpha (ahead ++ e.0 ∷ []) rest

  -- The counters hold, for each document, the number of its chunks ahead.
  abbrev Counted : List (String × ℕ) → List ℕ → Type 0
  Counted counts ahead = (doc : String) → seen num doc counts ≡ length (select (is_of doc) ahead)

  seen-note_seen :
      (doc d : String) (counts : List (String × ℕ))
      → seen num doc (note_seen num d counts)
        ≡ (if str_eq doc d then seen num doc counts + 1 else seen num doc counts)
  seen-note_seen doc d [] = ground arith
  seen-note_seen doc d ((c, n) ∷ counts) = elim (Bool-cases (str_eq d c)) [
    | inl e ↦ rw e (rw ((eq_iff d c).0 e) (ground arith))
    | inr e ↦ rw e (elim (Bool-cases (str_eq doc c)) [
      | inl f ↦
          let apart : str_eq doc d ≡ false =
            ground (arith, eq_iff doc c, eq_iff doc d, eq_iff d c) in
          rw (f, apart) refl
      | inr f ↦ rw f (seen-note_seen doc d counts)
    ])
  ]

  length-select-snoc :
      (p : ℕ → Bool) (xs : List ℕ) (c : ℕ)
      → length (select p (xs ++ c ∷ []))
        ≡ (if p c then length (select p xs) + 1 else length (select p xs))
  length-select-snoc p [] c = ground arith
  length-select-snoc p (x ∷ xs) c = ground (arith, length-select-snoc p xs c)

  Counted-snoc :
      (counts : List (String × ℕ)) (ahead : List ℕ) (c : ℕ) (d : String)
      → Counted counts ahead
      → lookup c docs ≡ some d
      → Counted (note_seen num d counts) (ahead ++ c ∷ [])
  Counted-snoc counts ahead c d h e doc =
      let one_more : is_of doc c ≡ str_eq doc d = rw (is_of, e) refl in
      seen-note_seen doc d counts
      ∙ (rw (h doc) (rw (sym one_more) (sym (length-select-snoc (is_of doc) ahead c))))

  Counted-skip :
      (counts : List (String × ℕ)) (ahead : List ℕ) (c : ℕ)
      → Counted counts ahead
      → lookup c docs ≡ none
      → Counted counts (ahead ++ c ∷ [])
  Counted-skip counts ahead c h e doc =
      let no_more : is_of doc c ≡ false = rw (is_of, e) refl in
      h doc ∙ sym (length-select-snoc (is_of doc) ahead c ∙ rw no_more refl)

  demote-factored :
      (alpha : Score) (counts : List (String × ℕ)) (ahead : List ℕ) (d : Dict Score)
      → Counted counts ahead
      → demote num alpha docs counts d ≡ factored_all alpha ahead d
  unfolding demote
  demote-factored alpha counts ahead [] h = refl
  demote-factored alpha counts ahead ((c, s) ∷ rest) h = elim (Option-cases (lookup c docs)) [
    | inl e ↦
        rw (demote, factored_all, factored, e)
          (ap (λ l. (c, s) ∷ l)
            (demote-factored alpha counts (ahead ++ c ∷ []) rest (Counted-skip counts ahead c h e)))
    | inr (doc, e) ↦
        rw (demote, factored_all, factored, e)
          (rw (h doc) (
            ap
              (λ l.
                (c, div s (add num.one (mul alpha (of_nat (length (select (is_of doc) ahead))))))
                ∷ l)
              (demote-factored alpha (note_seen num doc counts) (ahead ++ c ∷ []) rest
                (Counted-snoc counts ahead c doc h e))))
  ]

  keys-factored_all :
      (alpha : Score) (ahead : List ℕ) (d : Dict Score)
      → map (λ e. e.0) (factored_all alpha ahead d) ≡ map (λ (e : ℕ × Score). e.0) d
  keys-factored_all alpha ahead [] = refl
  keys-factored_all alpha ahead (e ∷ d) = rw (keys-factored_all alpha (ahead ++ e.0 ∷ []) d) refl

  -- Unless alpha is 0, the penalty walks the chunks by falling score and divides the score of each
  -- by 1 + alpha * n, where n is the number of chunks of the same document ahead of it; a chunk of
  -- an unknown document keeps its score. No key is lost and none is added.
  pub apply_source_diversity_penalty-factored :
      (fused : Dict Score) (alpha : Score)
      → equals alpha num.zero ≡ false
      → (apply_source_diversity_penalty num fused docs alpha
          ≡ factored_all alpha [] (sort (scores_before num) fused))
        × Perm
            (map (λ e. e.0) (apply_source_diversity_penalty num fused docs alpha))
            (map (λ (e : ℕ × Score). e.0) fused)
  unfolding apply_source_diversity_penalty
  apply_source_diversity_penalty-factored fused alpha h =
      let same : apply_source_diversity_penalty num fused docs alpha
          ≡ factored_all alpha [] (sort (scores_before num) fused) =
        rw h (demote-factored alpha [] [] (sort (scores_before num) fused) (λ doc. refl)) in
      (
        same,
        rw same (
            rw (keys-factored_all alpha [] (sort (scores_before num) fused))
              (Perm.map (λ e. e.0) (sort-perm (scores_before num) fused))),
      )
