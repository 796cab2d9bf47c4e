-- ===== src/Lint/Orphans.antt =====
-- Which pages `run_lint` reports as orphans.
use dikw_core.Prelude.{
  ℕ, suc, Text, same, ◌≡◌, refl, ◌∙◌, ap, inl, inr, Bool, true, false, not, ◌&&◌, none, some, List,
  [], ◌∷◌, All, map, select, any, arith, Bool-cases, Option-cases, if◌then◌else◌, ◌==◌,
}
use dikw_core.Dicts.{set_item, lookup-set_item}
use dikw_core.Links.Index.{Dict}
use dikw_core.Storage.{DocumentRecord, LinkRecord, Db, links_from}
use dikw_core.Lint.{LintKind, orphan_page, mem_kind, nothing, LintIssue, Outside}
use dikw_core.Lint.Checks.{when, is_wikilink}
use dikw_core.Lint.Pages.{page_issue, Scan, count, count_links, scan_page, scan_pages}
use dikw_core.Lint.Run.{skips_of, orphans, scan_live, live_page_docs, indexes, present_source_keys}
use dikw_core.Lint.Skips.{opted_out, skips-scan_pages}

-- Some wikilink row leads to the path.
abbrev pub leads : Text → List LinkRecord → Bool
leads p ls = any (λ l. is_wikilink l.link_type && same p l.dst_path) ls

-- One of the pages that can be read has a wikilink row that leads to the path.
abbrev pub is_linked : Outside → Db → List DocumentRecord → Text → Bool
is_linked o db docs p =
    any (λ d. elim (o.load d.path) [ none ↦ false | some post ↦ leads p (links_from d.doc_id db) ])
      docs

count-set_item :
    (q p : Text) (n : ℕ) (d : Dict ℕ)
    → count p (set_item q n d) ≡ (if same p q then n else count p d)
unfolding count
count-set_item q p n d = elim (Bool-cases (same p q)) [
  | inl e ↦ ground (arith, lookup-set_item q p n d, e)
  | inr e ↦ ground (arith, lookup-set_item q p n d, e)
]

is_zero-count_links :
    (p : Text) (ls : List LinkRecord) (d : Dict ℕ)
    → (count p (count_links ls d) == 0) ≡ ((count p d == 0) && not (leads p ls))
unfolding count_links
is_zero-count_links p [] d = ground arith
is_zero-count_links p (l ∷ ls) d = elim (Bool-cases (is_wikilink l.link_type)) [
  | inr e ↦ rw e (is_zero-count_links p ls d)
  | inl e ↦ rw e (
      is_zero-count_links p ls (set_item l.dst_path (suc (count l.dst_path d)) d)
      ∙ ground (arith, count-set_item l.dst_path p (suc (count l.dst_path d)) d))
]

joined :
    (z b c : Bool)
    → ((z && not (if b then true else false)) && not c) ≡ (z && not (if b then true else c))
joined z b c = ground arith

module _ (o : Outside) (db : Db) where
  module _ (keys : List Text) (idx : Dict Text × Dict (List Text)) where
    -- One page adds its links, if it can be read.
    is_zero-scan_page :
        (p : Text) (d : DocumentRecord) (s : Scan)
        → (count p (scan_page o db keys idx d s).inbound == 0)
          ≡ ((count p s.inbound == 0) && not (is_linked o db (d ∷ []) p))
    unfolding scan_page
    is_zero-scan_page p d s = elim (Option-cases (o.load d.path)) [
      | inl e ↦ rw (e, scan_page) (ground arith)
      | inr (post, e) ↦
          rw (e, scan_page)
            (is_zero-count_links p (links_from d.doc_id db) s.inbound ∙ ground arith)
    ]

    is_zero-scan_pages :
        (p : Text) (docs : List DocumentRecord) (s : Scan)
        → (count p (scan_pages o db keys idx docs s).inbound == 0)
          ≡ ((count p s.inbound == 0) && not (is_linked o db docs p))
    unfolding scan_pages
    is_zero-scan_pages p [] s = ground arith
    is_zero-scan_pages p (d ∷ ds) s =
        is_zero-scan_pages p ds (scan_page o db keys idx d s)
        ∙ (ap (λ b. b && not (is_linked o db ds p)) (is_zero-scan_page p d s)
            ∙ joined (count p s.inbound == 0)
                (elim (o.load d.path) [
                  | none ↦ false
                  | some post ↦ leads p (links_from d.doc_id db)
                ])
                (is_linked o db ds p))

  -- The issues that the pass over the orphans should report
  abbrev pub lonely : List DocumentRecord → List DocumentRecord → List LintIssue
  lonely docs ds =
      map (λ d. page_issue orphan_page d.path nothing)
        (select
          (λ d. not (mem_kind orphan_page (opted_out o d.path)) && not (is_linked o db docs d.path))
          ds)

  orphans-lonely :
      (skips : Dict (List LintKind)) (inbound : Dict ℕ) (docs ds : List DocumentRecord)
      → ((p : Text) → (count p inbound == 0) ≡ not (is_linked o db docs p))
      → All (λ (d : DocumentRecord). skips_of skips d.path ≡ opted_out o d.path) ds
      → orphans skips inbound ds ≡ lonely docs ds
  unfolding orphans when
  orphans-lonely skips inbound docs [] z h = refl
  orphans-lonely skips inbound docs (d ∷ ds) z h =
      rw (h.0, z d.path)
        (elim (Bool-cases
          (not (mem_kind orphan_page (opted_out o d.path)) && not (is_linked o db docs d.path))) [
            | inl e ↦ rw e (
                ap (λ l. page_issue orphan_page d.path nothing ∷ l)
                  (orphans-lonely skips inbound docs ds z h.1))
            | inr e ↦ rw e (orphans-lonely skips inbound docs ds z h.1)
          ])

  -- The orphans that `run_lint` reports are exactly the live pages, in their order, which have not
  -- opted out and to which no wikilink row leads from a live page whose file can be read. The page
  -- itself counts as such a page: its own link to itself makes it no orphan.
  pub orphans-exact :
      orphans
        (scan_live o db (live_page_docs o db)).suppressions
        (scan_live o db (live_page_docs o db)).inbound
        (live_page_docs o db)
      ≡ lonely (live_page_docs o db) (live_page_docs o db)
  unfolding scan_live count
  orphans-exact =
      let docs = live_page_docs o db in
      let keys = present_source_keys o db in
      let start : Scan = record { issues = []; suppressions = []; page_meta = []; inbound = [] } in
      orphans-lonely (scan_live o db docs).suppressions (scan_live o db docs).inbound docs docs
        (λ p. is_zero-scan_pages keys (indexes o docs) p docs start ∙ ground arith)
        (skips-scan_pages o db keys (indexes o docs) docs start (λ p. inl refl))
