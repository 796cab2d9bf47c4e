-- ===== src/Tasks/Routes/CursorTests.antt =====
-- A list cursor, on which the theorem on its coding is applied.
use dikw_core.Prelude.{
  ℕ, ◌+◌, ◌-◌, ◌*◌, ◌/◌, ◌%◌, Text, codes, same, ◌≡◌, refl, Option, none, some, List, [], ◌∷◌,
  if◌then◌else◌, ltb, ◌==◌,
}
use dikw_core.Tasks.Model.{Json}
use dikw_core.Tasks.Routes.Cursor.{
  b64encode, payload, encode_cursor, decode_cursor, cursor, decode_failed,
  decode_cursor-encode_cursor,
}

-- The place of a character in the URL-safe alphabet
abbrev value : ℕ → ℕ
value c =
    if c == 45
    then 62
    else if c == 95
    then 63
    else if ltb c 58
    then c + 4
    else if ltb c 91
    then c - 65
    else c - 71

abbrev unb64 : Text → Option (List ℕ)
unb64 [] = some []
unb64 (w ∷ x ∷ y ∷ z ∷ s) = elim (unb64 s) [
  | none ↦ none
  | some bytes ↦
      if y == 61
      then some ((value w * 4 + value x / 16) ∷ [])
      else if z == 61
      then some ((value w * 4 + value x / 16) ∷ (value x % 16 * 16 + value y / 4) ∷ [])
      else some (
          (value w * 4 + value x / 16)
          ∷ (value x % 16 * 16 + value y / 4)
          ∷ (value y % 4 * 64 + value z)
          ∷ bytes)
]
unb64 _ = none

abbrev written : List ℕ
written = codes "{\"created_at\":\"t\",\"task_id\":\"a\"}"

-- The JSON text of the one payload, and its reading
abbrev dumps : Json → List ℕ
dumps j = written

abbrev loads : List ℕ → Option Json
loads raw = if same raw written then some (payload "t" "a") else none

-- As Python prints it
encoded :
    encode_cursor dumps loads unb64 "t" "a" ≡ codes "eyJjcmVhdGVkX2F0IjoidCIsInRhc2tfaWQiOiJhIn0"
unfolding encode_cursor
encoded = refl

broken : decode_cursor dumps loads unb64 (codes "abc") ≡ decode_failed
unfolding decode_cursor same
broken = refl

decode_cursor-encode_cursor_example :
    decode_cursor dumps loads unb64 (encode_cursor dumps loads unb64 "t" "a") ≡ cursor "t" "a"
unfolding same b64encode
decode_cursor-encode_cursor_example =
    decode_cursor-encode_cursor dumps loads unb64 "t" "a" refl refl
