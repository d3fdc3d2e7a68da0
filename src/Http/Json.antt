-- ===== src/Http/Json.antt =====
-- The JSON functions of http_conn.cpp, over the text of a C string; a pointer into it is the text from
-- there on. `strtof` is a parameter: the number it reads and the text that is left. A key has fewer
-- bytes than `search` has room for.
pub mod Floats
use ai_inference_gateway.Prelude.{
  ℕ, zero, suc, ◌+◌, ◌-◌, ◌*◌, ◌%◌, ◌^◌, Bool, true, false, ◌&&◌, ◌||◌, List, [], ◌∷◌, ◌++◌, Bytes,
  codes, Option, none, some, if◌then◌else◌, ltb, leb, ◌==◌, drop, take, length, min,
}
use ai_inference_gateway.Prelude.Int.{ℤ, pos, sub_ℕ}
use ai_inference_gateway.Http.CString.{span, index_of, parse_digits, is_digit}

-- Whether the text begins with the other one.
abbrev pub is_prefix : Bytes → Bytes → Bool
is_prefix [] s = true
is_prefix (p ∷ ps) [] = false
is_prefix (p ∷ ps) (b ∷ bs) = p == b && is_prefix ps bs

unfoldable pub strstr : Bytes → Bytes → Option Bytes
strstr [] search = if is_prefix search [] then some [] else none
strstr (b ∷ bs) search =
    let rest = strstr bs search in if is_prefix search (b ∷ bs) then some (b ∷ bs) else rest

abbrev pub is_ws : ℕ → Bool
is_ws b = b == b' ' || b == 9 || b == 10 || b == 13

unfoldable pub skip_ws : Bytes → Bytes
unfolding span
skip_ws p = drop (span is_ws p) p

-- The text after the key's colon and the white space there.
unfoldable pub value_of : Bytes → Bytes → Option Bytes
unfolding strstr skip_ws
value_of json key =
    let search = b'"' ∷ (key ++ b'"' ∷ b':' ∷ []) in
    elim (strstr json search) [
      | none ↦ none
      | some start ↦ some (skip_ws (drop (length search) start))
    ]

-- From the opening quote on.
unfoldable pub quoted : Bytes → Bytes
unfolding index_of
quoted [] = []
quoted (b ∷ start) =
    if b == b'"'
    then elim (index_of (λ c. c == b'"') start) [ none ↦ [] | some end ↦ take end start ]
    else []

unfoldable pub json_get_string : Bytes → Bytes → Bytes
unfolding value_of quoted
json_get_string json key = elim (value_of json key) [ none ↦ [] | some start ↦ quoted start ]

-- `static_cast<int>` of the `long` that `strtol` gives for digits.
unfoldable pub to_int : ℕ → ℤ
to_int n =
    let low = min n (2 ^ 63 - 1) % 2 ^ 32 in
    if ltb low (2 ^ 31) then pos low else sub_ℕ low (2 ^ 32)

unfoldable pub leading_int : ℤ → Bytes → ℤ
unfolding is_digit parse_digits to_int
leading_int default_val [] = default_val
leading_int default_val (b ∷ bs) =
    if is_digit b then to_int (parse_digits 0 (b ∷ bs)) else default_val

unfoldable pub json_get_int : Bytes → Bytes → ℤ → ℤ
unfolding value_of leading_int
json_get_int json key default_val = elim (value_of json key) [
  | none ↦ default_val
  | some start ↦ leading_int default_val start
]

abbrev pub is_separator : ℕ → Bool
is_separator b = b == b' ' || b == b','

module _ {F : Type 0} (strtof : Bytes → F × Bytes) where
  -- A round of the loop after the separators, with the loop as its first argument.
  unfoldable pub read_next : (Bytes → List F) → Bytes → List F
  read_next loop [] = []
  read_next loop (b ∷ bs) =
      let (val, end) = strtof (b ∷ bs) in
      let rest = loop end in
      if b == b']' then [] else if length end == length (b ∷ bs) then [] else val ∷ rest

  -- The while loop of `json_get_float_array`. Its own test for `]` and for the text's end is made
  -- again after the separators, and is left to that.
  unfoldable pub floats : ℕ → Bytes → List F
  unfolding span read_next
  floats zero start = []
  floats (suc fuel) start =
      read_next (λ end. floats fuel end) (drop (span is_separator start) start)

  unfoldable pub bracketed : Bytes → List F
  unfolding floats
  bracketed [] = []
  bracketed (b ∷ start) = if b == b'[' then floats (suc (length start)) start else []

  unfoldable pub json_get_float_array : Bytes → Bytes → List F
  unfolding value_of bracketed
  json_get_float_array json key = elim (value_of json key) [
    | none ↦ []
    | some start ↦ bracketed start
  ]
