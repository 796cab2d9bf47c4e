-- ===== src/Deletion/Inbound.antt =====
-- The count of dangling links that `delete_page` of api_delete.py reports.
use dikw_core.Prelude.{
  ℕ, suc, Text, same, same→eq, same_sym, ◌≡◌, refl, ◌∙◌, sym, ap, true, false, ◌&&◌, if◌then◌else◌,
  not, List, [], ◌∷◌, map, select, any, length, Bool-cases, inl, inr,
}
use dikw_core.Storage.{
  DocumentRecord, LinkRecord, Db, links_to, delete_document, delete_edges, delete_chunks,
  delete_vectors, delete_fts,
}
use dikw_core.Deletion.{count_distinct, count_inbound}

-- No text stands twice.
abbrev pub AllDistinct : List Text → Type 0
AllDistinct [] = Unit
AllDistinct (x ∷ xs) = (any (same x) xs ≡ false) × AllDistinct xs

any_flip : (x : Text) (xs : List Text) → any (λ y. same y x) xs ≡ any (same x) xs
any_flip x [] = refl
any_flip x (y ∷ ys) = rw (same_sym y x, any_flip x ys) refl

-- The texts that are counted
abbrev Counts : List Text → ℕ → List Text → Type 0
Counts xs n ids =
    (n ≡ length ids) × AllDistinct ids × ((x : Text) → any (same x) ids ≡ any (same x) xs)

count_distinct-exact : (xs : List Text) → (ids : List Text) × Counts xs (count_distinct xs) ids
unfolding count_distinct
count_distinct-exact [] = ([], (refl, tt, λ x. refl))
count_distinct-exact (x ∷ xs) =
    let (ids, (size, apart, mem)) = count_distinct-exact xs in
    elim (Bool-cases (any (λ y. same y x) xs)) [
      | inl e ↦
          rw (count_distinct, e)
            (
              ids,
              (
                size,
                apart,
                λ z. elim (Bool-cases (same z x)) [
                  | inl k ↦ rw k (mem z ∙ (rw (same→eq z x k) (sym (any_flip x xs) ∙ e)))
                  | inr k ↦ rw k (mem z)
                ],
              ),
            )
      | inr e ↦
          rw (count_distinct, e)
            (
              x ∷ ids,
              (
                ap suc size,
                (mem x ∙ (sym (any_flip x xs) ∙ e), apart),
                λ z. ap (λ b. if same z x then true else b) (mem z),
              ),
            )
    ]

-- A source of a link to the path, other than the page, is one of those that the deletion leaves.
any-sources :
    (x path id : Text) (ls : List LinkRecord)
    → any (same x) (
        map
          (λ l. l.src_doc_id)
          (select (λ l. not (same l.src_doc_id id)) (select (λ l. same l.dst_path path) ls)))
      ≡ any
          (λ l. same l.dst_path path && same x l.src_doc_id)
          (select (λ l. not (same l.src_doc_id id)) ls)
any-sources x path id [] = refl
any-sources x path id (l ∷ ls) = elim (Bool-cases (same l.dst_path path)) [
  | inl e ↦ elim (Bool-cases (same l.src_doc_id id)) [
    | inl k ↦ rw (e, k) (any-sources x path id ls)
    | inr k ↦
        rw (e, k)
          (rw e (ap (λ b. if same x l.src_doc_id then true else b) (any-sources x path id ls)))
  ]
  | inr e ↦ elim (Bool-cases (same l.src_doc_id id)) [
    | inl k ↦ rw (e, k) (any-sources x path id ls)
    | inr k ↦ rw (e, k) (rw e (any-sources x path id ls))
  ]
]

-- The number that is counted before the purge is that of a list of documents without repetition: just
-- the sources of those links, of any type, that lead to the path of the page once it is deleted.
pub count_inbound-delete_document :
    (match : DocumentRecord) (db : Db)
    → (ids : List Text) × (count_inbound match db ≡ length ids)
      × AllDistinct ids
      × ((x : Text)
          → any (same x) ids
            ≡ any
                (λ l. same l.dst_path match.path && same x l.src_doc_id)
                (delete_document match.doc_id db).links)
unfolding count_inbound links_to delete_document delete_edges delete_chunks delete_vectors
    delete_fts
count_inbound-delete_document match db =
    let (ids, (size, apart, mem)) = count_distinct-exact (
      map (λ l. l.src_doc_id)
        (select (λ l. not (same l.src_doc_id match.doc_id)) (links_to match.path db))) in
    (ids, size, apart, λ x. mem x ∙ any-sources x match.path match.doc_id db.links)
