-- ===== src/Embedding/Plain.antt =====
-- The cache and the merging of equal texts change no vector.
use dikw_core.Prelude.{
  ℕ, suc, Text, same, same_refl, ◌≡◌, refl, sym, ◌∙◌, ap, subst, inl, inr, Bool, true, false, ◌||◌,
  Option, none, some, List, [], ◌∷◌, ◌++◌, All, All-map, map, arith, length, ==_iff, Option-cases,
  Bool-cases, ◌==◌,
}
use dikw_core.Dicts.{set_item, update, lookup-set_item}
use dikw_core.Links.Index.{Dict, lookup, mem, mem-snoc}
use dikw_core.Embedding.{
  ChunkToEmbed, World, Row, vectors, Attempt, done, raised, has_key, zip, safe_cache_lookup,
  find_misses, embedding_rows, embed_misses, embed_one_batch,
}

module _ {V : Type 0} (w : World V) (vec : Text → V)
    (one_vector : (s t : Text)
      → same (w.content_hash s) (w.content_hash t) ≡ true
      → vec s ≡ vec t) where
  length-map : (ts : List Text) → length (map vec ts) ≡ length ts
  length-map [] = refl
  length-map (t ∷ ts) = ap suc (length-map ts)

  -- Each text whose hash is in the dict has its vector there.
  abbrev pub Sound : Dict V → Type 0
  Sound d = (t : Text) (v : V) → lookup (w.content_hash t) d ≡ some v → v ≡ vec t

  abbrev fresh_items : List (Text × Text) → List (Text × V)
  fresh_items ms = map (λ (m : Text × Text). (m.0, vec m.1)) ms

  abbrev IsMiss : Text × Text → Type 0
  IsMiss m = m.0 ≡ w.content_hash m.1

  Sound-nil : Sound []
  Sound-nil t v e = cc

  Sound-set_item : (s : Text) (d : Dict V) → Sound d → Sound (set_item (w.content_hash s) (vec s) d)
  Sound-set_item s d h t v e =
      let q = sym (lookup-set_item (w.content_hash s) (w.content_hash t) (vec s) d) ∙ e in
      elim (Bool-cases (same (w.content_hash t) (w.content_hash s))) [
        | inl k ↦ let r : some (vec s) ≡ some v = rw k at q in let u = one_vector t s k in cc
        | inr k ↦ let r : lookup (w.content_hash t) d ≡ some v = rw k at q in h t v r
      ]

  Sound-update :
      (ms : List (Text × Text)) (d : Dict V)
      → All IsMiss ms
      → Sound d
      → Sound (update (fresh_items ms) d)
  unfolding update
  Sound-update [] d a h = h
  Sound-update (m ∷ ms) d a h =
      Sound-update ms (set_item m.0 (vec m.1) d) a.1
        (subst (λ k. Sound (set_item k (vec m.1) d)) (sym a.0) (Sound-set_item m.1 d h))

  has_key-set_item :
      (h k : Text) (v : V) (d : Dict V) → has_key h (set_item k v d) ≡ (same h k || has_key h d)
  has_key-set_item h k v d = elim (Bool-cases (same h k)) [
    | inl e ↦ ground (arith, lookup-set_item k h v d, e)
    | inr e ↦ ground (arith, lookup-set_item k h v d, e)
  ]

  has_key-update :
      (h : Text) (ms : List (Text × Text)) (d : Dict V)
      → has_key h (update (fresh_items ms) d)
        ≡ (has_key h d || mem h (map (λ (m : Text × Text). m.0) ms))
  unfolding update
  has_key-update h [] d = ground arith
  has_key-update h (m ∷ ms) d =
      has_key-update h ms (set_item m.0 (vec m.1) d)
      ∙ ground (arith, has_key-set_item h m.0 (vec m.1) d)

  find_misses-All :
      (d : Dict V) (queued : List Text) (cs : List ChunkToEmbed)
      → All IsMiss (find_misses w d queued cs)
  unfolding find_misses
  find_misses-All d queued [] = tt
  find_misses-All d queued (c ∷ cs) =
      elim (Bool-cases (has_key (w.content_hash c.text) d || mem (w.content_hash c.text) queued)) [
        | inl e ↦ rw (find_misses, e) (find_misses-All d queued cs)
        | inr e ↦
            rw (find_misses, e) (refl, find_misses-All d (queued ++ w.content_hash c.text ∷ []) cs)
      ]

  known :
      (d : Dict V) (queued : List Text) (c : ChunkToEmbed) (cs : List ChunkToEmbed)
      → (has_key (w.content_hash c.text) d || mem (w.content_hash c.text) queued) ≡ true
      → find_misses w d queued (c ∷ cs) ≡ find_misses w d queued cs
  unfolding find_misses
  known d queued c cs e = rw (find_misses, e) refl

  missing :
      (d : Dict V) (queued : List Text) (c : ChunkToEmbed) (cs : List ChunkToEmbed)
      → (has_key (w.content_hash c.text) d || mem (w.content_hash c.text) queued) ≡ false
      → find_misses w d queued (c ∷ cs)
        ≡ (w.content_hash c.text, c.text)
          ∷ find_misses w d (queued ++ w.content_hash c.text ∷ []) cs
  unfolding find_misses
  missing d queued c cs e = rw (find_misses, e) refl

  -- The hash is cached, queued before, or among the misses.
  abbrev Covered : Dict V → List Text → List (Text × Text) → Text → Type 0
  Covered d queued ms h =
      (has_key h d || (mem h queued || mem h (map (λ (m : Text × Text). m.0) ms))) ≡ true

  abbrev AllCovered : Dict V → List Text → List ChunkToEmbed → List (Text × Text) → Type 0
  AllCovered d queued cs ms =
      All (λ (c : ChunkToEmbed). Covered d queued ms (w.content_hash c.text)) cs

  find_misses-Covered :
      (d : Dict V) (queued : List Text) (cs : List ChunkToEmbed)
      → AllCovered d queued cs (find_misses w d queued cs)
  find_misses-Covered d queued [] = tt
  find_misses-Covered d queued (c ∷ cs) =
      let h = w.content_hash c.text in
      elim (Bool-cases (has_key h d || mem h queued)) [
        | inl e ↦
            subst (AllCovered d queued (c ∷ cs)) (sym (known d queued c cs e))
              (ground (arith, e), find_misses-Covered d queued cs)
        | inr e ↦
            let ms = find_misses w d (queued ++ h ∷ []) cs in
            subst (AllCovered d queued (c ∷ cs)) (sym (missing d queued c cs e)) (
              ground (arith, same_refl h),
              All-map _ _
                  (λ (b : ChunkToEmbed) k.
                    ground (arith, k, mem-snoc (w.content_hash b.text) h queued))
                  cs (find_misses-Covered d (queued ++ h ∷ []) cs),
            )
      ]

  embedding_rows-all :
      (d : Dict V) (cs : List ChunkToEmbed)
      → Sound d
      → All (λ (c : ChunkToEmbed). has_key (w.content_hash c.text) d ≡ true) cs
      → embedding_rows w d cs ≡ some (map (λ (c : ChunkToEmbed). (c.chunk_id, vec c.text)) cs)
  unfolding embedding_rows
  embedding_rows-all d [] h a = refl
  embedding_rows-all d (c ∷ cs) h a = elim (Option-cases (lookup (w.content_hash c.text) d)) [
    | inl e ↦ absurd (ground (arith, a.0, e))
    | inr (v, e) ↦
        let same_vector : v ≡ vec c.text = h c.text v e in
        rw (embedding_rows, e)
          (rw (embedding_rows-all d cs h a.1) (
            ap
              (λ u.
                some ((c.chunk_id, u) ∷ map (λ (b : ChunkToEmbed). (b.chunk_id, vec b.text)) cs))
              same_vector))
  ]

  zip-fresh :
      (ms : List (Text × Text))
      → zip (map (λ (m : Text × Text). m.0) ms) (map vec (map (λ (m : Text × Text). m.1) ms))
        ≡ fresh_items ms
  zip-fresh [] = refl
  zip-fresh (m ∷ ms) = ap (λ l. (m.0, vec m.1) ∷ l) (zip-fresh ms)

  module _ (n : ℕ) (storage : Bool) (cs : List ChunkToEmbed)
      (provides : (ts : List Text) → w.embed n ts ≡ vectors (map vec ts))
      (cached : (hs : List Text) (d : Dict V)
        → w.get_cached_embeddings n hs ≡ some d
        → Sound d) where
    embed_misses-vectors : (ts : List Text) → embed_misses w n ts ≡ done (map vec ts)
    unfolding embed_misses
    embed_misses-vectors [] = refl
    embed_misses-vectors (t ∷ ts) =
        let size : (length (map vec (t ∷ ts)) == length (t ∷ ts)) ≡ true =
          (==_iff _ _).1 (length-map (t ∷ ts)) in
        rw (embed_misses, provides (t ∷ ts)) (rw size refl)

    safe_cache_lookup-Sound : (b : Bool) (hs : List Text) → Sound (safe_cache_lookup w b n hs)
    unfolding safe_cache_lookup
    safe_cache_lookup-Sound false hs = Sound-nil
    safe_cache_lookup-Sound true hs = elim (Option-cases (w.get_cached_embeddings n hs)) [
      | inl e ↦ subst Sound {x = []} (sym (rw (safe_cache_lookup, e) refl)) Sound-nil
      | inr (d, e) ↦ subst Sound {x = d} (sym (rw (safe_cache_lookup, e) refl)) (cached hs d e)
    ]

    assembled :
        (d : Dict V) (ms : List (Text × Text)) {rows : List (Row V)}
        → embedding_rows w (update (fresh_items ms) d) cs ≡ some rows
        → ◌≡◌ {A = Attempt (List (Row V) × List (Text × V))}
            (let fresh =
                zip
                  (map (λ (m : Text × Text). m.0) ms)
                  (map vec (map (λ (m : Text × Text). m.1) ms)) in
              elim (embedding_rows w (update fresh d) cs) [
                | none ↦ raised
                | some rs ↦ done (rs, fresh)
              ])
            (done (rows, fresh_items ms))
    assembled d ms {rows} e =
        ap (gather d) (zip-fresh ms) ∙ rows_done (embedding_rows w (update (fresh_items ms) d) cs) e
      where
        gather : Dict V → List (Text × V) → Attempt (List (Row V) × List (Text × V))
        gather d fresh = elim (embedding_rows w (update fresh d) cs) [
          | none ↦ raised
          | some rs ↦ done (rs, fresh)
        ]

        rows_done :
            (o : Option (List (Row V)))
            → o ≡ some rows
            → ◌≡◌ {A = Attempt (List (Row V) × List (Text × V))}
                (elim o [ none ↦ raised | some rs ↦ done (rs, fresh_items ms) ])
                (done (rows, fresh_items ms))
        rows_done o q = rw q refl

    abbrev hits : Dict V
    hits = safe_cache_lookup w storage n (map (λ (c : ChunkToEmbed). w.content_hash c.text) cs)

    abbrev absent : List (Text × Text)
    absent = find_misses w hits [] cs

    all_there :
        All
          (λ (c : ChunkToEmbed).
            has_key (w.content_hash c.text) (update (fresh_items absent) hits) ≡ true)
          cs
    all_there =
        All-map _ _ (λ (c : ChunkToEmbed) k. has_key-update (w.content_hash c.text) absent hits ∙ k)
          cs (find_misses-Covered hits [] cs)

    -- An attempt at which the provider gives each text its vector, over a cache that holds no wrong
    -- vector, or whose lookup fails, or with no cache: the rows are those of embedding each text by
    -- itself, in the order of the chunks. Texts with one hash have one vector.
    pub embed_one_batch-plain :
        (fresh : List (Text × V)) × (embed_one_batch w storage n cs
          ≡ done (map (λ (c : ChunkToEmbed). (c.chunk_id, vec c.text)) cs, fresh))
    unfolding embed_one_batch
    embed_one_batch-plain = (
      fresh_items absent,
      rw (embed_one_batch, embed_misses-vectors (map (λ (m : Text × Text). m.1) absent))
          (assembled hits absent (
            embedding_rows-all (update (fresh_items absent) hits) cs
              (Sound-update absent hits (find_misses-All hits [] cs) (
                safe_cache_lookup-Sound storage
                  (map (λ (c : ChunkToEmbed). w.content_hash c.text) cs)))
              all_there)),
    )
