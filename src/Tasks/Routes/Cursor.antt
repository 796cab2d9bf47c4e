-- ===== src/Tasks/Routes/Cursor.antt =====
-- The text of a list cursor in routes_tasks.py: `_encode_cursor` and `_decode_cursor`. The JSON module
-- with UTF-8, and the reading of base64, are parameters; base64url itself is written out.
use dikw_core.Prelude.{
  ℕ, zero, suc, ◌+◌, ◌-◌, ◌*◌, ◌/◌, ◌%◌, String, Text, ◌≡◌, refl, false, Option, none, some, List,
  [], ◌∷◌, ◌++◌, if◌then◌else◌, str_eq, ltb, ◌==◌, length, arith,
}
use dikw_core.Tasks.Model.{Json, JsonFields, str, obj, end, field}

-- The URL-safe alphabet
unfoldable pub b64_char : ℕ → ℕ
b64_char n =
    if ltb n 26
    then 65 + n
    else if ltb n 52
    then 71 + n
    else if ltb n 62
    then n - 4
    else if n == 62
    then 45
    else 95

-- `base64.urlsafe_b64encode`
unfoldable pub b64encode : List ℕ → Text
unfolding b64_char
b64encode [] = []
b64encode (a ∷ []) = b64_char (a / 4) ∷ b64_char (a % 4 * 16) ∷ 61 ∷ 61 ∷ []
b64encode (a ∷ b ∷ []) =
    b64_char (a / 4) ∷ b64_char (a % 4 * 16 + b / 16) ∷ b64_char (b % 16 * 4) ∷ 61 ∷ []
b64encode (a ∷ b ∷ c ∷ bytes) =
    b64_char (a / 4)
    ∷ b64_char (a % 4 * 16 + b / 16)
    ∷ b64_char (b % 16 * 4 + c / 64)
    ∷ b64_char (c % 64)
    ∷ b64encode bytes

-- `s.rstrip("=")`
unfoldable pub rstrip_padding : Text → Text
rstrip_padding [] = []
rstrip_padding (c ∷ s) = elim (rstrip_padding s) [
  | [] ↦ if c == 61 then [] else c ∷ []
  | d ∷ t ↦ c ∷ d ∷ t
]

-- `"=" * n`
unfoldable pub padding : ℕ → Text
padding zero = []
padding (suc n) = 61 ∷ padding n

-- `token + "=" * (-len(token) % 4)`
unfoldable pub repad : Text → Text
unfolding padding
repad token = token ++ padding ((4 - length token % 4) % 4)

-- The two errors of `_decode_cursor`, both `BadRequest`
pub data Decoded : Type 0 where
  cursor : String → String → Decoded
  decode_failed : Decoded
  payload_shape : Decoded

-- `payload.get(key)`, where it is a string
unfoldable pub get_str : String → JsonFields → Option String
get_str key end = none
get_str key (field k v fs) =
    if str_eq k key then elim v [ str s ↦ some s | _ ↦ none ] else get_str key fs

unfoldable pub read_payload : Json → Decoded
unfolding get_str
read_payload (obj fs) = elim (get_str "created_at" fs) [
  | none ↦ payload_shape
  | some created_at ↦ elim (get_str "task_id" fs) [
    | none ↦ payload_shape
    | some task_id ↦ cursor created_at task_id
  ]
]
read_payload _ = payload_shape

abbrev pub payload : String → String → Json
payload created_at task_id =
    obj (field "created_at" (str created_at) (field "task_id" (str task_id) end))

module _ (dumps : Json → List ℕ) (loads : List ℕ → Option Json)
    (b64decode : Text → Option (List ℕ)) where
  unfoldable pub encode_cursor : String → String → Text
  unfolding rstrip_padding b64encode
  encode_cursor created_at task_id = rstrip_padding (b64encode (dumps (payload created_at task_id)))

  unfoldable pub decode_cursor : Text → Decoded
  unfolding repad read_payload
  decode_cursor token = elim (b64decode (repad token)) [
    | none ↦ decode_failed
    | some raw ↦ elim (loads raw) [ none ↦ decode_failed | some p ↦ read_payload p ]
  ]

b64_char-other : (n : ℕ) → (b64_char n == 61) ≡ false
unfolding b64_char
b64_char-other n = ground arith

rstrip_padding-cons :
    (c : ℕ) (s : Text) → (c == 61) ≡ false → rstrip_padding (c ∷ s) ≡ c ∷ rstrip_padding s
unfolding rstrip_padding
rstrip_padding-cons c s h = ground (arith, h)

repad-four : (w x y z : ℕ) (s : Text) → repad (w ∷ x ∷ y ∷ z ∷ s) ≡ w ∷ x ∷ y ∷ z ∷ repad s
unfolding repad
repad-four w x y z s =
    let e : (4 - suc (suc (suc (suc (length s)))) % 4) % 4 ≡ (4 - length s % 4) % 4 = omega arith in
    rw e refl

two_signs : (x y : ℕ) → repad (x ∷ y ∷ rstrip_padding (61 ∷ 61 ∷ [])) ≡ x ∷ y ∷ 61 ∷ 61 ∷ []
unfolding repad rstrip_padding padding
two_signs x y = refl

one_sign : (x y z : ℕ) → repad (x ∷ y ∷ z ∷ rstrip_padding (61 ∷ [])) ≡ x ∷ y ∷ z ∷ 61 ∷ []
unfolding repad rstrip_padding padding
one_sign x y z = refl

-- The padding that is taken off is put on again.
pub repad-rstrip_padding :
    (bytes : List ℕ) → repad (rstrip_padding (b64encode bytes)) ≡ b64encode bytes
unfolding b64encode repad rstrip_padding padding
repad-rstrip_padding [] = refl
repad-rstrip_padding (a ∷ []) =
    let x = b64_char-other (a / 4) in
    let y = b64_char-other (a % 4 * 16) in
    rw
      (
        rstrip_padding-cons _ (b64_char (a % 4 * 16) ∷ 61 ∷ 61 ∷ []) x,
        rstrip_padding-cons _ (61 ∷ 61 ∷ []) y,
      )
      (two_signs (b64_char (a / 4)) (b64_char (a % 4 * 16)))
repad-rstrip_padding (a ∷ b ∷ []) =
    let x = b64_char-other (a / 4) in
    let y = b64_char-other (a % 4 * 16 + b / 16) in
    let z = b64_char-other (b % 16 * 4) in
    rw
      (
        rstrip_padding-cons _ (b64_char (a % 4 * 16 + b / 16) ∷ b64_char (b % 16 * 4) ∷ 61 ∷ []) x,
        rstrip_padding-cons _ (b64_char (b % 16 * 4) ∷ 61 ∷ []) y,
        rstrip_padding-cons _ (61 ∷ []) z,
      )
      (one_sign (b64_char (a / 4)) (b64_char (a % 4 * 16 + b / 16)) (b64_char (b % 16 * 4)))
repad-rstrip_padding (a ∷ b ∷ c ∷ bytes) =
    let w = b64_char-other (a / 4) in
    let x = b64_char-other (a % 4 * 16 + b / 16) in
    let y = b64_char-other (b % 16 * 4 + c / 64) in
    let z = b64_char-other (c % 64) in
    let rest = b64encode bytes in
    rw
      (
        rstrip_padding-cons _
            (b64_char (a % 4 * 16 + b / 16)
              ∷ b64_char (b % 16 * 4 + c / 64)
              ∷ b64_char (c % 64)
              ∷ rest)
            w,
        rstrip_padding-cons _ (b64_char (b % 16 * 4 + c / 64) ∷ b64_char (c % 64) ∷ rest) x,
        rstrip_padding-cons _ (b64_char (c % 64) ∷ rest) y,
        rstrip_padding-cons _ rest z,
        repad-four (b64_char (a / 4)) (b64_char (a % 4 * 16 + b / 16))
            (b64_char (b % 16 * 4 + c / 64)) (b64_char (c % 64)) (rstrip_padding rest),
        repad-rstrip_padding bytes,
      )
      refl

-- Reading a list cursor gives back the creation time and the task id that were encoded, when the JSON
-- reader gives back the payload from its bytes and the base64 reader these bytes from base64url.
pub decode_cursor-encode_cursor :
    (dumps : Json → List ℕ) (loads : List ℕ → Option Json) (b64decode : Text → Option (List ℕ))
    (created_at task_id : String)
    → loads (dumps (payload created_at task_id)) ≡ some (payload created_at task_id)
    → b64decode (b64encode (dumps (payload created_at task_id)))
      ≡ some (dumps (payload created_at task_id))
    → decode_cursor dumps loads b64decode (encode_cursor dumps loads b64decode created_at task_id)
      ≡ cursor created_at task_id
unfolding decode_cursor encode_cursor read_payload get_str
decode_cursor-encode_cursor dumps loads b64decode created_at task_id read bytes =
    rw (decode_cursor, repad-rstrip_padding (dumps (payload created_at task_id)), bytes, read)
      (ground arith)
