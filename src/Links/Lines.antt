-- ===== src/Links/Lines.antt =====
-- `_line_starts` and `_offset_to_line` of links.py.
use Prim.Native.Nat.{suc, zero}
use dikw_core.Prelude.{
  ℕ, ◌+◌, ◌-◌, Text, ◌≡◌, refl, [], ◌∷◌, arith, if◌then◌else◌, ltb, ◌==◌, take, Bool-cases, inl,
  inr,
}
use dikw_core.Links.Resolve.{newlines, line_starts, line_loop, offset_to_line}

-- The number of line ends in a text.
abbrev pub line_ends : Text → ℕ
line_ends [] = 0
line_ends (c ∷ s) = if c == 10 then suc (line_ends s) else line_ends s

line_loop-newlines :
    (offset line i : ℕ) (s : Text)
    → line_loop offset (suc line) (newlines i s) ≡ line + line_ends (take (offset - i) s)
unfolding line_loop
line_loop-newlines offset line i [] = ground (arith, ends_none (offset - i))
  where
    ends_none : (n : ℕ) → line_ends (take n []) ≡ 0
    ends_none zero = refl
    ends_none (suc n) = refl
line_loop-newlines offset line i (c ∷ s) = elim (Bool-cases (ltb offset (suc i))) [
  | inl e ↦
      let none_left : offset - i ≡ 0 = ground arith in
      let none_later : offset - suc i ≡ 0 = ground arith in
      rw none_left (ground (arith, e, line_loop-newlines offset line (suc i) s, none_later))
  | inr e ↦
      let more : offset - i ≡ suc (offset - suc i) = ground arith in
      rw more (
        ground (
          arith,
          e,
          line_loop-newlines offset line (suc i) s,
          line_loop-newlines offset (suc line) (suc i) s,
        ))
]

-- The line of an offset is one more than the number of line ends before it.
pub offset_to_line-line_starts :
    (offset : ℕ) (body : Text)
    → offset_to_line offset (line_starts body) ≡ suc (line_ends (take offset body))
unfolding offset_to_line line_starts line_loop
offset_to_line-line_starts offset body =
    let whole : offset - 0 ≡ offset = omega arith in
    ground (arith, line_loop-newlines offset 1 0 body, whole)
