-- ===== src/Grouping/Sections.antt =====
-- `derive_sections_from_chunks` cuts the span of the chunks without loss.
use dikw_core.Prelude.{
  ℕ, suc, ◌+◌, ◌-◌, ◌≤◌, Text, ◌≡◌, refl, List, [], ◌∷◌, ◌++◌, map, arith, leb, take, drop,
  Bool-cases, inl, inr, append-nil, drop_join, ◌∙◌, sym, ap,
}
use dikw_core.Prelude.Sort.{sort}
use dikw_core.Grouping.{
  ChunkRecord, Section, slice, concat, seq_before, cut_section, cut_sections,
  derive_sections_from_chunks,
}

take_join : (n m : ℕ) (xs : Text) → take n xs ++ take m (drop n xs) ≡ take (n + m) xs
take_join ℕ.zero m xs = let e : 0 + m ≡ m = omega arith in rw e refl
take_join (suc n) ℕ.zero [] = let e : suc n + 0 ≡ suc n = omega arith in rw e refl
take_join (suc n) (suc m) [] = let e : suc n + suc m ≡ suc (n + suc m) = omega arith in rw e refl
take_join (suc n) m (x ∷ xs) =
    let e : suc n + m ≡ suc (n + m) = omega arith in rw e (ap (λ l. x ∷ l) (take_join n m xs))

slice_join :
    (body : Text) (a b c : ℕ) → a ≤ b → b ≤ c → slice body a b ++ slice body b c ≡ slice body a c
slice_join body a b c h k =
    let at_b : b ≡ a + (b - a) = omega arith in
    let whole : (b - a) + (c - b) ≡ c - a = omega arith in
    let tail : drop b body ≡ drop (b - a) (drop a body) =
      ap (λ n. drop n body) at_b ∙ sym (drop_join a (b - a) body) in
    ap (λ t. take (b - a) (drop a body) ++ take (c - b) t) tail
    ∙ (take_join (b - a) (c - b) (drop a body) ∙ ap (λ n. take n (drop a body)) whole)

-- The starts never fall, and the last chunk does not end before it starts.
abbrev pub Ascending : ChunkRecord → List ChunkRecord → Type 0
Ascending c [] = c.start ≤ c.stop
Ascending c (d ∷ cs) = (c.start ≤ d.start) × Ascending d cs

abbrev pub last_stop : ChunkRecord → List ChunkRecord → ℕ
last_stop c [] = c.stop
last_stop c (d ∷ cs) = last_stop d cs

start-last_stop :
    (c : ChunkRecord) (cs : List ChunkRecord) → Ascending c cs → c.start ≤ last_stop c cs
start-last_stop c [] h = h
start-last_stop c (d ∷ cs) h = omega (arith, start-last_stop d cs h.1, h.0)

module _ (extract_headings : Text → List Text) (count_tokens : Text → ℕ) (body : Text) where
  texts-cut_section :
      (a b : ℕ) (rest : List Section)
      → concat (map (λ s. s.text) (cut_section extract_headings count_tokens body a b rest))
        ≡ slice body a b ++ concat (map (λ (s : Section). s.text) rest)
  unfolding cut_section
  texts-cut_section a b rest = elim (Bool-cases (leb b a)) [
    | inl e ↦ let nothing : b - a ≡ 0 = ground arith in rw (e, nothing) refl
    | inr e ↦ rw e refl
  ]

  texts-cut_sections :
      (c : ChunkRecord) (cs : List ChunkRecord)
      → Ascending c cs
      → concat (map (λ s. s.text) (cut_sections extract_headings count_tokens body (c ∷ cs)))
        ≡ slice body c.start (last_stop c cs)
  unfolding cut_sections
  texts-cut_sections c [] h =
      texts-cut_section c.start c.stop [] ∙ append-nil (slice body c.start c.stop)
  texts-cut_sections c (d ∷ cs) h =
      texts-cut_section c.start d.start (cut_sections extract_headings count_tokens body (d ∷ cs))
      ∙ (ap (λ l. slice body c.start d.start ++ l) (texts-cut_sections d cs h.1)
          ∙ slice_join body c.start d.start (last_stop d cs) h.0 (start-last_stop d cs h.1))

  -- If the starts of the chunks, in the order of their numbers, never fall and the last one does not
  -- end before it starts, the texts of the sections joined are the body from the first start to the
  -- last end.
  pub derive_sections-span :
      (chunks : List ChunkRecord) (c : ChunkRecord) (cs : List ChunkRecord)
      → sort seq_before chunks ≡ c ∷ cs
      → Ascending c cs
      → concat (
          map (λ s. s.text) (derive_sections_from_chunks extract_headings count_tokens body chunks))
        ≡ slice body c.start (last_stop c cs)
  unfolding derive_sections_from_chunks
  derive_sections-span chunks c cs e h = rw e (texts-cut_sections c cs h)
