-- ===== src/Trash/Safety.antt =====
-- What `move_to_trash` of trash.py promises, however it ends.
use dikw_core.Prelude.{
  String, codes, eq_iff, subst, ◌∷◌, [], if◌then◌else◌, str_eq, same, same→eq, ◌≡◌, refl, sym, ap,
  ◌∙◌, true, false, Option, none, some, List, inl, inr, arith, take, Bool-cases, Option-cases,
}
use dikw_core.Trash.{
  Post, System, in_trash, tmp_of, get, put, trashed, choose_dest, deposit, stamp, move_to_trash,
}
use dikw_core.Trash.Disk.{
  FilePath, same_path, Files, Failure, Step, ok, raised, read_text, Holds, bind-Holds,
}
use dikw_core.Trash.Stages.{Chosen, choose_dest-Chosen, outside-other}
use dikw_core.Trash.Moves.{put_stamped-Moved, put_stamped-Rests, move_as_is-Moved, move_as_is-Rests}

pub same_path→eq : (p q : FilePath) → same_path p q ≡ true → p ≡ q
unfolding same_path
same_path→eq p q h = ground (arith, same→eq p.parent q.parent, same→eq p.name q.name, h)

-- A free path is no path with a file.
taken-other :
    (q d : FilePath) (c : String) (fs : Files) → fs q ≡ some c → fs d ≡ none → same_path q d ≡ false
taken-other q d c fs h f = elim (Bool-cases (same_path q d)) [
  | inl e ↦ let g : fs q ≡ fs d = ap fs (same_path→eq q d e) in cc
  | inr e ↦ e
]

get-put :
    {V : Type 0} (k key : String) (v : V) (d : List (String × V))
    → get k (put key v d) ≡ (if str_eq key k then some v else get k d)
unfolding get put
get-put k key v [] = refl
get-put k key v ((j, w) ∷ d) = elim (Bool-cases (str_eq j key)) [
  | inl e ↦
      let q : j ≡ key = ground (arith, eq_iff j key, e) in
      rw (put, e) (rw q elim (Bool-cases (str_eq key k)) [ inl z ↦ rw z refl | inr z ↦ rw z refl ])
  | inr e ↦ elim (Bool-cases (str_eq j k)) [
    | inl z ↦
        let q : j ≡ k = ground (arith, eq_iff j k, z) in
        let z2 : str_eq key k ≡ false = ground (arith, eq_iff key k, eq_iff j key, e, q) in
        rw (put, e, get, z, z2) refl
    | inr z ↦ rw (put, e, get, z) (get-put k key v d)
  ]
]

same_parent-tmp : (d : FilePath) → (tmp_of d).parent ≡ d.parent
unfolding tmp_of
same_parent-tmp d = refl

-- A step is followed at two paths.
both :
    (fs0 : Files) (src d q : FilePath) (raw text : String) (K : Option String → Type 0)
    (v : Option String) (s : Step FilePath)
    → K (some text)
    → fs0 d ≡ none
    → Holds (λ a fs. (a ≡ d) × (fs src ≡ none) × (fs d ≡ some text)) (λ e fs. fs src ≡ some raw) s
    → Holds (λ a fs. fs q ≡ v) (λ e fs. fs q ≡ v) s
    → Holds
        (λ a fs. (fs0 a ≡ none) × (fs src ≡ none) × K (fs a) × (fs q ≡ v))
        (λ e fs. (fs src ≡ some raw) × (fs q ≡ v))
        s
both fs0 src d q raw text K v (ok a fs) kt f h k = rw h.0 (f, h.1, subst K (sym h.2) kt, k)
both fs0 src d q raw text K v (raised e fs) kt f h k = (h, k)

module _ {Value : Type 0} (loads : String → Option (Post Value)) (dumps : Post Value → String)
    (dict : List (String × String) → Value) (sys : System) (reason proposal_id : String) where
  -- What may stand in the trash for a text: the text as it was if it does not parse, or else a
  -- document with the same body whose metadata are the same but for the audit block.
  abbrev pub Marked : Option (Post Value) → String → String → Type 0
  Marked none raw text = text ≡ raw
  Marked (some post) raw text =
      (new : Post Value) × (text ≡ dumps new)
      × (new.content ≡ post.content)
      × ((key : String)
          → get key new.metadata ≡ (
              if str_eq "trashed" key
              then some (
                  dict (
                    ("at", sys.stamp_time)
                    ∷ ("reason", reason)
                    ∷ (if str_eq proposal_id "" then [] else ("proposal_id", proposal_id) ∷ [])))
              else get key post.metadata))

  abbrev pub Keeps : String → Option String → Type 0
  Keeps raw none = ⊥
  Keeps raw (some text) = Marked (loads raw) raw text

  stamp-Marked :
      (raw : String) (post : Post Value)
      → Marked (some post) raw (dumps (stamp loads dumps dict sys reason proposal_id post))
  unfolding stamp trashed
  stamp-Marked raw post = (
    stamp loads dumps dict sys reason proposal_id post,
    refl,
    refl,
    λ key.
        get-put key "trashed" (dict (trashed sys.stamp_time reason proposal_id)) post.metadata
        ∙ elim (Bool-cases (str_eq proposal_id "")) [ inl e ↦ rw e refl | inr e ↦ rw e refl ],
  )

  module _ (src : FilePath) (raw : String) (fs : Files) (other : FilePath) (c : String) where
    abbrev pub Trashed : FilePath → Files → Type 0
    Trashed d fs1 = (fs d ≡ none) × (fs1 src ≡ none) × Keeps raw (fs1 d) × (fs1 other ≡ some c)

    abbrev pub Unharmed : Failure → Files → Type 0
    Unharmed e fs1 = (fs1 src ≡ some raw) × (fs1 other ≡ some c)

  module _ (src rel : FilePath) (raw : String) (fs : Files) (other : FilePath) (c : String)
      (outside : same (take 6 src.parent) (codes "trash/") ≡ false) (there : fs src ≡ some raw)
      (stands : fs other ≡ some c) (apart : same_path other src ≡ false)
      (no_tmp : (d : FilePath) → same_path other (tmp_of d) ≡ false) where
    weaken :
        (s : Step FilePath)
        → Holds (Chosen (in_trash rel) fs) (λ e fs1. fs1 ≡ fs) s
        → Holds (Chosen (in_trash rel) fs) (Unharmed src raw fs other c) s
    weaken (ok d fs1) h = h
    weaken (raised e fs1) h = rw h (there, stands)

    deposit-Trashed :
        (d : FilePath) (fs1 : Files)
        → Chosen (in_trash rel) fs d fs1
        → Holds
            (Trashed src raw fs other c)
            (Unharmed src raw fs other c)
            (deposit loads dumps dict sys src d raw reason proposal_id fs1)
    unfolding deposit
    deposit-Trashed d fs1 h =
        let src_d = outside-other src rel d outside h.1 in
        let src_tmp = outside-other src rel (tmp_of d) outside (same_parent-tmp d ∙ h.1) in
        let other_d = taken-other other d c fs stands h.0 in
        let there1 = h.2 src src_d ∙ there in
        let stands1 = h.2 other other_d ∙ stands in
        elim (Option-cases (loads raw)) [
          | inl e ↦
              rw (deposit, e)
                (both fs src d other raw raw (Keeps raw) (some c) _ (rw e refl) h.0
                  (move_as_is-Moved sys src d raw src_d src_tmp fs1 there1)
                  (move_as_is-Rests sys src d other (some c) apart other_d (no_tmp d) fs1 stands1))
          | inr (post, e) ↦
              rw (deposit, e)
                (both fs src d other raw _ (Keeps raw) (some c) _ (rw e (stamp-Marked raw post)) h.0
                  (put_stamped-Moved sys src d raw src_d src_tmp _ fs1 there1)
                  (put_stamped-Rests sys src d other (some c) apart other_d (no_tmp d) _ fs1
                    stands1))
        ]

    -- However `move_to_trash` ends, no text is lost. If it returns a path, then no file stood there
    -- before, the source is gone, and the path holds the text as it was if it does not parse, or else
    -- a document with the same body and the same metadata but for the audit block. If it raises, the source holds its text as before. Any other file,
    -- unless its name is that of a temporary file, is kept in both cases. The source lies outside
    -- the trash.
    pub move_to_trash-moves :
        Holds
          (Trashed src raw fs other c)
          (Unharmed src raw fs other c)
          (move_to_trash loads dumps dict sys src rel reason proposal_id fs)
    unfolding move_to_trash read_text
    move_to_trash-moves = elim (Option-cases sys.reads) [
      | inr (e, h) ↦ rw (move_to_trash, h) (there, stands)
      | inl h ↦
          rw (move_to_trash, h, read_text, there)
            (bind-Holds (Chosen (in_trash rel) fs) (Trashed src raw fs other c)
              (Unharmed src raw fs other c) (choose_dest sys (in_trash rel) fs)
              (λ d fs1. deposit loads dumps dict sys src d raw reason proposal_id fs1)
              (weaken (choose_dest sys (in_trash rel) fs)
                (choose_dest-Chosen sys (in_trash rel) fs))
              deposit-Trashed)
    ]
