-- ===== src/Lint/Skips.antt =====
-- The dict `suppressions` of `run_lint` against what the pages on disk opt out of.
use dikw_core.Prelude.{
  Text, same, same→eq, same_refl, ◌≡◌, refl, sym, ◌∙◌, ap, ◌⊎◌, inl, inr, true, none, some, List,
  [], ◌∷◌, All, arith, Bool-cases, Option-cases, if◌then◌else◌,
}
use dikw_core.Links.Normalize.{is_empty}
use dikw_core.Dicts.{set_item, lookup-set_item}
use dikw_core.Links.Index.{Dict}
use dikw_core.Storage.{DocumentRecord, Db}
use dikw_core.Lint.{LintKind, Post, Outside}
use dikw_core.Lint.Frontmatter.{read_lint_skip}
use dikw_core.Lint.Pages.{Scan, scan_page, scan_pages}
use dikw_core.Lint.Run.{skips_of}

skips_of-set_item :
    (key k : Text) (ks : List LintKind) (d : Dict (List LintKind))
    → skips_of (set_item key ks d) k ≡ (if same k key then ks else skips_of d k)
skips_of-set_item key k ks d = elim (Bool-cases (same k key)) [
  | inl e ↦ ground (arith, lookup-set_item key k ks d, e)
  | inr e ↦ ground (arith, lookup-set_item key k ks d, e)
]

empty_of : (ks : List LintKind) → is_empty ks ≡ true → ks ≡ []
empty_of [] h = refl
empty_of (k ∷ ks) h = cc

module _ (o : Outside) where
  -- The kinds that a page on disk opts out of
  unfoldable pub opted_out : Text → List LintKind
  opted_out path = elim (o.load path) [ none ↦ [] | some post ↦ read_lint_skip post.metadata ]

  opted_out_unread : (p : Text) → o.load p ≡ none → opted_out p ≡ []
  unfolding opted_out
  opted_out_unread p e = rw (e, opted_out) refl

  pub opted_out_read :
      (p : Text) (post : Post) → o.load p ≡ some post → opted_out p ≡ read_lint_skip post.metadata
  unfolding opted_out
  opted_out_read p post e = rw (e, opted_out) refl

  -- Each path has no entry, or the right one.
  abbrev Sound : Dict (List LintKind) → Type 0
  Sound d = (p : Text) → (skips_of d p ≡ []) ⊎ (skips_of d p ≡ opted_out p)

  module _ (db : Db) (keys : List Text) (idx : Dict Text × Dict (List Text)) where
    skips-scan_page :
        (doc : DocumentRecord) (s : Scan) (p : Text)
        → skips_of (scan_page o db keys idx doc s).suppressions p ≡ (
            if is_empty (opted_out doc.path)
            then skips_of s.suppressions p
            else if same p doc.path
            then opted_out doc.path
            else skips_of s.suppressions p)
    unfolding scan_page
    skips-scan_page doc s p = elim (Option-cases (o.load doc.path)) [
      | inl e ↦ rw (opted_out_unread doc.path e) (rw (e, scan_page) refl)
      | inr (post, e) ↦
          rw (opted_out_read doc.path post e)
            (elim (Bool-cases (is_empty (read_lint_skip post.metadata))) [
              | inl k ↦ rw (e, scan_page) (rw k refl)
              | inr k ↦
                  rw (e, scan_page)
                    (rw k
                      (skips_of-set_item doc.path p (read_lint_skip post.metadata) s.suppressions))
            ])
    ]

    Sound-scan_page :
        (doc : DocumentRecord) (s : Scan)
        → Sound s.suppressions
        → Sound (scan_page o db keys idx doc s).suppressions
    Sound-scan_page doc s h p =
        rw (skips-scan_page doc s p) (elim (Bool-cases (is_empty (opted_out doc.path))) [
          | inl k ↦ rw k (h p)
          | inr k ↦ rw k (elim (Bool-cases (same p doc.path)) [
            | inl f ↦ rw f (inr (ap opted_out (sym (same→eq p doc.path f))))
            | inr f ↦ rw f (h p)
          ])
        ])

    -- Once right, an entry stays right.
    stays-scan_page :
        (doc : DocumentRecord) (s : Scan) (p : Text)
        → skips_of s.suppressions p ≡ opted_out p
        → skips_of (scan_page o db keys idx doc s).suppressions p ≡ opted_out p
    stays-scan_page doc s p h =
        rw (skips-scan_page doc s p) (elim (Bool-cases (is_empty (opted_out doc.path))) [
          | inl k ↦ rw k h
          | inr k ↦ rw k (elim (Bool-cases (same p doc.path)) [
            | inl f ↦ rw f (ap opted_out (sym (same→eq p doc.path f)))
            | inr f ↦ rw f h
          ])
        ])

    -- The page itself has its entry from then on.
    own-scan_page :
        (doc : DocumentRecord) (s : Scan)
        → Sound s.suppressions
        → skips_of (scan_page o db keys idx doc s).suppressions doc.path ≡ opted_out doc.path
    own-scan_page doc s h =
        rw (skips-scan_page doc s doc.path) (elim (Bool-cases (is_empty (opted_out doc.path))) [
          | inl k ↦
              rw k (elim (h doc.path) [
                | inl e ↦ e ∙ sym (empty_of (opted_out doc.path) k)
                | inr e ↦ e
              ])
          | inr k ↦ rw (k, same_refl doc.path) refl
        ])

    stays-scan_pages :
        (docs : List DocumentRecord) (s : Scan) (p : Text)
        → skips_of s.suppressions p ≡ opted_out p
        → skips_of (scan_pages o db keys idx docs s).suppressions p ≡ opted_out p
    unfolding scan_pages
    stays-scan_pages [] s p h = h
    stays-scan_pages (d ∷ ds) s p h =
        stays-scan_pages ds (scan_page o db keys idx d s) p (stays-scan_page d s p h)

    pub skips-scan_pages :
        (docs : List DocumentRecord) (s : Scan)
        → Sound s.suppressions
        → All
            (λ (d : DocumentRecord).
              skips_of (scan_pages o db keys idx docs s).suppressions d.path ≡ opted_out d.path)
            docs
    unfolding scan_pages
    skips-scan_pages [] s h = tt
    skips-scan_pages (d ∷ ds) s h = (
      stays-scan_pages ds (scan_page o db keys idx d s) d.path (own-scan_page d s h),
      skips-scan_pages ds (scan_page o db keys idx d s) (Sound-scan_page d s h),
    )
