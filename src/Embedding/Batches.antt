-- ===== src/Embedding/Batches.antt =====
-- The batches of `embed_chunks` are the chunks, in order.
use dikw_core.Prelude.{
  ℕ, suc, ◌≤◌, ◌≡◌, refl, ◌∙◌, ap, List, [], ◌∷◌, ◌++◌, arith, length, take, drop, length-drop,
  take-append-drop, flatten,
}
use dikw_core.Embedding.{ChunkToEmbed, batches}

pub flatten-batches :
    (size fuel : ℕ) (cs : List ChunkToEmbed)
    → 1 ≤ size
    → length cs ≤ fuel
    → flatten (batches size fuel cs) ≡ cs
unfolding flatten batches
flatten-batches size fuel [] pos enough = refl
flatten-batches size ℕ.zero (c ∷ cs) pos enough = absurd (omega arith)
flatten-batches size (suc fuel) (c ∷ cs) pos enough =
    ap (λ l. take size (c ∷ cs) ++ l)
      (flatten-batches size fuel (drop size (c ∷ cs)) pos
        (omega (arith, length-drop size (c ∷ cs))))
    ∙ take-append-drop size (c ∷ cs)
