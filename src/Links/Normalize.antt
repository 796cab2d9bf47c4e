-- ===== src/Links/Normalize.antt =====
-- How links.py compares titles: `_stem_plural`, `_strip_trailing_boundary`, `_normalize_base` and
-- `_normalize_for_match`. Texts are sequences of code points; the Unicode tables behind
-- `unicodedata.normalize("NFKC", s)` and `str.casefold` are the parameters `nfkc` and `casefold`.
use dikw_core.Prelude.{
  ℕ, zero, suc, ◌≤◌, Text, ◌≡◌, refl, Bool, true, false, ◌&&◌, ◌||◌, not, Option, none, some, List,
  [], ◌∷◌, ◌++◌, map, arith, leb, ◌==◌, if◌then◌else◌, select, any, all, last?, codes, length,
  append_assoc, append-nil, Bool-cases, inl, inr, ap, sym, ◌∙◌,
}

-- `t[:-1]`
abbrev pub init {ℓ} : {A : Type ℓ} → List A → List A
init [] = []
init (c ∷ []) = []
init (c ∷ d ∷ t) = c ∷ init (d ∷ t)

abbrev pub is_empty {ℓ} : {A : Type ℓ} → List A → Bool
is_empty [] = true
is_empty (c ∷ t) = false

-- `str.isspace` of one character, by which `str.split` cuts
abbrev pub is_space : ℕ → Bool
is_space c =
    any (λ d. d == c)
      (9 ∷ 10 ∷ 11 ∷ 12 ∷ 13 ∷ 28 ∷ 29 ∷ 30 ∷ 31 ∷ 32 ∷ 133 ∷ 160 ∷ 5760 ∷ 8232 ∷ 8233 ∷ 8239 ∷ 8287
        ∷ 12288 ∷ [])
    || (leb 8192 c && leb c 8202)

abbrev pub boundary_punct : Text
boundary_punct = codes ".,!?;:\"'()[]{}<>。、《》〈〉「」『』【】“”‘’"

abbrev pub is_boundary : ℕ → Bool
is_boundary c = any (λ d. d == c) boundary_punct

abbrev pub is_ascii_letter : ℕ → Bool
is_ascii_letter c = (leb 65 c && leb c 90) || (leb 97 c && leb c 122)

abbrev pub ends_with_s : Text → Bool
ends_with_s t = elim (last? t) [ none ↦ false | some c ↦ c == 115 ]

-- On an ASCII text `isalpha` tests for the ASCII letters.
unfoldable pub stem_plural : Text → Text
stem_plural word =
    if leb (length word) 3
      || (not (all is_ascii_letter word) || (not (ends_with_s word) || ends_with_s (init word)))
    then word
    else init word

abbrev pub ends_in_boundary : Text → Bool
ends_in_boundary t = elim (last? t) [ none ↦ false | some c ↦ is_boundary c ]

-- The `while` loop; each round drops a character.
unfoldable pub strip_loop : ℕ → Text → Text
strip_loop zero token = token
strip_loop (suc n) token = elim (ends_in_boundary token) [
  | true ↦ strip_loop n (init token)
  | false ↦ token
]

unfoldable pub strip_trailing_boundary : Text → Text
unfolding strip_loop
strip_trailing_boundary token = strip_loop (length token) token

-- `s.split()`; `word` is the word so far.
abbrev pub add_word : Text → List Text → List Text
add_word [] ws = ws
add_word (c ∷ t) ws = (c ∷ t) ∷ ws

unfoldable pub split_words : Text → Text → List Text
split_words word [] = add_word word []
split_words word (c ∷ s) =
    if is_space c then add_word word (split_words [] s) else split_words (word ++ c ∷ []) s

-- `" ".join(tokens)`
unfoldable pub join_words : List Text → Text
join_words [] = []
join_words (w ∷ []) = w
join_words (w ∷ v ∷ ws) = w ++ 32 ∷ join_words (v ∷ ws)

-- `s.rpartition(" ")`, without the separator: the text before the last space and the one behind it.
unfoldable pub rpartition_space : Text → Option (Text × Text)
rpartition_space [] = none
rpartition_space (c ∷ s) = elim (rpartition_space s) [
  | none ↦ if c == 32 then some ([], s) else none
  | some (head, tail) ↦ some (c ∷ head, tail)
]

module _ (nfkc casefold : Text → Text) where
  unfoldable pub normalize_base : Text → Text
  unfolding strip_trailing_boundary split_words join_words
  normalize_base s = join_words (
      select (λ t. not (is_empty t))
        (map strip_trailing_boundary (split_words [] (casefold (nfkc s)))))

  unfoldable pub normalize_for_match : Text → Text
  unfolding normalize_base rpartition_space stem_plural
  normalize_for_match s =
      let base = normalize_base s in
      if is_empty base then [] else elim (rpartition_space base) [
        | none ↦ stem_plural base
        | some (head, tail) ↦ head ++ 32 ∷ stem_plural tail
      ]

split_last :
    (t : Text)
    → ends_in_boundary t ≡ true
    → (c : ℕ) × (t ≡ init t ++ c ∷ []) × (is_boundary c ≡ true) × (suc (length (init t)) ≡ length t)
split_last [] e = cc
split_last (c ∷ []) e = (c, refl, e, refl)
split_last (c ∷ d ∷ t) e =
    let (b, eq, bound, len) = split_last (d ∷ t) e in (b, ap (λ l. c ∷ l) eq, bound, ap suc len)

all-append : (p : ℕ → Bool) (s t : Text) → all p s ≡ true → all p t ≡ true → all p (s ++ t) ≡ true
all-append p [] t hs ht = ht
all-append p (c ∷ s) t hs ht = ground (arith, all-append p s t)

-- What is left of a text when punctuation is taken off its end.
abbrev pub Stripped : Text → Text → Type 0
Stripped token kept =
    (rest : Text) × (kept ++ rest ≡ token)
    × (all is_boundary rest ≡ true)
    × (ends_in_boundary kept ≡ false)

strip_loop-Stripped :
    (n : ℕ) (token : Text) → length token ≤ n → Stripped token (strip_loop n token)
unfolding strip_loop
strip_loop-Stripped zero [] h = ([], refl, refl, refl)
strip_loop-Stripped zero (c ∷ t) h = absurd (omega arith)
strip_loop-Stripped (suc n) token h = elim (Bool-cases (ends_in_boundary token)) [
  | inl e ↦
      let (c, eq, bound, len) = split_last token e in
      let (rest, whole, only, stop) = strip_loop-Stripped n (init token) (omega (arith, len)) in
      rw (strip_loop, e)
        (
          rest ++ c ∷ [],
          sym (append_assoc (strip_loop n (init token)) rest (c ∷ []))
              ∙ (ap (λ t. t ++ c ∷ []) whole ∙ sym eq),
          all-append is_boundary rest (c ∷ []) only (rw bound),
          stop,
        )
  | inr e ↦ rw (strip_loop, e) ([], append-nil token, refl, e)
]

-- `_strip_trailing_boundary` takes off the longest run of boundary punctuation at the end of the
-- token and nothing else: token = result + run, and the result does not end in such a character.
pub strip_trailing_boundary-Stripped :
    (token : Text) → Stripped token (strip_trailing_boundary token)
unfolding strip_trailing_boundary
strip_trailing_boundary-Stripped token = strip_loop-Stripped (length token) token (omega arith)
