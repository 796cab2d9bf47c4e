-- ===== src/Lint/Live.antt =====
-- The pages of `run_lint` whose files are there, and what an issue says of the page that it names.
use dikw_core.Prelude.{
  Text, same, same→eq, same_refl, ◌≡◌, refl, ◌∙◌, ap, inl, inr, true, false, not, List, [], ◌∷◌,
  ◌++◌, All, All-map, map, select, arith, Bool-cases,
}
use dikw_core.Prelude.Sort.{sort-All}
use dikw_core.Links.Index.{mem}
use dikw_core.Storage.{DocumentRecord, Db}
use dikw_core.Storage.Rows.{All-kept}
use dikw_core.Lint.{LintKind, missing_file, untracked_file, mem_kind, LintIssue, Outside}
use dikw_core.Lint.Checks.{distinct, sorted}
use dikw_core.Lint.Run.{
  page_docs, source_docs, missing_paths, missing_issues, live_page_docs, tracked_keys,
}
use dikw_core.Lint.Skips.{opted_out}

abbrev pub paths : List DocumentRecord → List Text
paths ds = map (λ (d : DocumentRecord). d.path) ds

mem-distinct : (p : Text) (ts : List Text) → mem p (distinct ts) ≡ mem p ts
unfolding distinct
mem-distinct p [] = refl
mem-distinct p (t ∷ ts) = elim (Bool-cases (mem t (distinct ts))) [
  | inl e ↦ rw e (elim (Bool-cases (same p t)) [
    | inl f ↦ rw f (ap (λ q. mem q (distinct ts)) (same→eq p t f) ∙ e)
    | inr f ↦ rw f (mem-distinct p ts)
  ])
  | inr e ↦ rw e (ground (arith, mem-distinct p ts))
]

mem_right :
    (p : Text) (xs ys : List DocumentRecord)
    → mem p (paths ys) ≡ true
    → mem p (paths (xs ++ ys)) ≡ true
mem_right p [] ys h = h
mem_right p (x ∷ xs) ys h = ground (arith, mem_right p xs ys h)

All-mem : (ds : List DocumentRecord) → All (λ d. mem d.path (paths ds) ≡ true) ds
All-mem [] = tt
All-mem (d ∷ ds) =
    (rw (same_refl d.path) refl, All-map _ _ (λ e h. ground (arith, h)) ds (All-mem ds))

module _ (o : Outside) where
  mem-gone :
      (p : Text) (ds : List DocumentRecord)
      → mem p (paths ds) ≡ true
      → o.is_file p ≡ false
      → mem p (paths (select (λ (d : DocumentRecord). not (o.is_file d.path)) ds)) ≡ true
  mem-gone p [] h n = cc
  mem-gone p (d ∷ ds) h n = elim (Bool-cases (same p d.path)) [
    | inl e ↦ let k : o.is_file d.path ≡ false = rw (← same→eq p d.path e) n in rw k (rw e refl)
    | inr e ↦ ground (arith, mem-gone p ds, e)
  ]

  gone-All :
      (all_paths : List Text) (ds : List DocumentRecord)
      → All (λ (d : DocumentRecord). mem d.path all_paths ≡ true) ds
      → All
          (λ q. (o.is_file q ≡ false) × (mem q all_paths ≡ true))
          (distinct (paths (select (λ (d : DocumentRecord). not (o.is_file d.path)) ds)))
  unfolding distinct
  gone-All ps [] h = tt
  gone-All ps (d ∷ ds) h = elim (Bool-cases (o.is_file d.path)) [
    | inl e ↦ rw e (gone-All ps ds h.1)
    | inr e ↦
        let rest = distinct (paths (select (λ (c : DocumentRecord). not (o.is_file c.path)) ds)) in
        rw e (elim (Bool-cases (mem d.path rest)) [
          | inl f ↦ rw f (gone-All ps ds h.1)
          | inr f ↦ rw f ((e, h.0), gone-All ps ds h.1)
        ])
  ]

  module _ (db : Db) where
    -- A registered page whose file is there
    abbrev pub IsLive : Text → Type 0
    IsLive p = (mem p (paths (page_docs db)) ≡ true) × (o.is_file p ≡ true)

    -- Whether an issue may be reported at a path. A missing file is that of an active row and is not
    -- there; an untracked file is that of no page; any other issue is at a page whose file is there
    -- and which has not opted out of the kind.
    abbrev pub Placed : LintKind → Text → Type 0
    Placed missing_file p =
        (o.is_file p ≡ false) × (mem p (paths (source_docs db ++ page_docs db)) ≡ true)
    Placed untracked_file p = mem (o.normalize p) (tracked_keys o db) ≡ false
    Placed k p = IsLive p × (mem_kind k (opted_out o p) ≡ false)

    abbrev pub IsPlaced : LintIssue → Type 0
    IsPlaced i = Placed i.kind i.path

    pub live_page_docs-IsLive : All (λ (d : DocumentRecord). IsLive d.path) (live_page_docs o db)
    unfolding live_page_docs missing_paths
    live_page_docs-IsLive = sort-All _ _ _ (
        All-kept _ _ _ (page_docs db)
          (λ d h k. (
            h,
            elim (Bool-cases (o.is_file d.path)) [
              | inl e ↦ e
              | inr e ↦
                  let m =
                    mem-gone d.path (source_docs db ++ page_docs db)
                      (mem_right d.path (source_docs db) (page_docs db) h) e in
                  let n = mem-distinct d.path (
                    paths (
                      select (λ (c : DocumentRecord). not (o.is_file c.path))
                        (source_docs db ++ page_docs db))) in
                  ground (arith, m, n, k)
            ],
          ))
          (All-mem (page_docs db)))

    All-of-map :
        (ps : List Text) → All (λ p. Placed missing_file p) ps → All IsPlaced (missing_issues ps)
    unfolding missing_issues
    All-of-map [] h = tt
    All-of-map (p ∷ ps) h = (h.0, All-of-map ps h.1)

    pub missing-placed : All IsPlaced (missing_issues (sorted (missing_paths o db)))
    unfolding missing_issues sorted missing_paths
    missing-placed = All-of-map _ (
        sort-All _ (λ p. Placed missing_file p) _
          (gone-All (paths (source_docs db ++ page_docs db)) (source_docs db ++ page_docs db)
            (All-mem (source_docs db ++ page_docs db))))
