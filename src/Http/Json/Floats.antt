-- ===== src/Http/Json/Floats.antt =====
-- The loop of `json_get_float_array` (http_conn.cpp): it ends, and reads back what is written.
use ai_inference_gateway.Prelude.{
  ℕ, zero, suc, ◌≤◌, ◌<◌, ◌≡◌, ◌⊎◌, inl, inr, refl, ap, ◌∙◌, true, false, List, [], ◌∷◌, ◌++◌,
  Bytes, some, ◌==◌, drop, length, length-append, length-drop, arith,
}
use ai_inference_gateway.Http.CString.{span}
use ai_inference_gateway.Http.Json.{
  is_prefix, is_separator, strstr, skip_ws, value_of, read_next, floats, bracketed,
  json_get_float_array,
}

-- `strtof` leaves the text as it was, or a shorter one.
pub record IsShrinking {F : Type 0} (strtof : Bytes → F × Bytes) : Type 0 where
  pub no_longer : (s : Bytes) → length (strtof s).1 ≤ length s

read_next_fuel :
    {F : Type 0} (strtof : Bytes → F × Bytes) (s : Bytes) (f g : Bytes → List F)
    → IsShrinking strtof
    → ((end : Bytes) → length end < length s → f end ≡ g end)
    → read_next strtof f s ≡ read_next strtof g s
unfolding read_next
read_next_fuel strtof [] f g v h = refl
read_next_fuel strtof (b ∷ bs) f g v h = ground (arith, h (strtof (b ∷ bs)).1, v.no_longer (b ∷ bs))

floats_fuels :
    {F : Type 0} (strtof : Bytes → F × Bytes) (f g : ℕ) (start : Bytes)
    → IsShrinking strtof
    → length start < f
    → length start < g
    → floats strtof f start ≡ floats strtof g start
unfolding floats
floats_fuels strtof zero g start v h k = absurd (omega arith)
floats_fuels strtof (suc f) zero start v h k = absurd (omega arith)
floats_fuels strtof (suc f) (suc g) start v h k =
    read_next_fuel strtof (drop (span is_separator start) start) _ _ v (λ end below.
      let left = length-drop (span is_separator start) start in
      floats_fuels strtof f g end v (omega (arith, below, left)) (omega (arith, below, left)))

-- With a `strtof` that leaves no more text than it gets, the loop of `json_get_float_array` ends: with more rounds than the text has bytes it has the result
-- that it has with any larger number of rounds.
pub floats_ends :
    {F : Type 0} (strtof : Bytes → F × Bytes) (fuel : ℕ) (start : Bytes)
    → IsShrinking strtof
    → length start < fuel
    → floats strtof fuel start ≡ floats strtof (suc (length start)) start
floats_ends strtof fuel start v h =
    floats_fuels strtof fuel (suc (length start)) start v h (omega arith)

-- A writer of numbers that `strtof` reads back, up to a comma or a bracket: `head` is a number's first
-- byte, which is neither, nor a space.
pub record IsReader {F : Type 0} (strtof : Bytes → F × Bytes) (head : F → ℕ) (tail : F → Bytes)
    : Type 0 where
  pub reads :
      (x : F) (c : ℕ) (r : Bytes)
      → (c ≡ b',') ⊎ (c ≡ b']')
      → strtof (head x ∷ (tail x ++ c ∷ r)) ≡ (x, c ∷ r)
  pub no_space : (x : F) → (head x == b' ') ≡ false
  pub no_comma : (x : F) → (head x == b',') ≡ false
  pub no_bracket : (x : F) → (head x == b']') ≡ false

-- The text of an array after its opening bracket, and after one of its numbers.
abbrev pub following : {F : Type 0} → (F → ℕ) → (F → Bytes) → List F → Bytes → Bytes
following head tail [] r = b']' ∷ r
following head tail (x ∷ xs) r = b',' ∷ head x ∷ (tail x ++ following head tail xs r)

abbrev pub array : {F : Type 0} → (F → ℕ) → (F → Bytes) → List F → Bytes → Bytes
array head tail [] r = b']' ∷ r
array head tail (x ∷ xs) r = head x ∷ (tail x ++ following head tail xs r)

read_number :
    {F : Type 0} (strtof : Bytes → F × Bytes) (head : F → ℕ) (tail : F → Bytes)
    (loop : Bytes → List F) (x : F) (xs : List F) (r : Bytes)
    → IsReader strtof head tail
    → read_next strtof loop (head x ∷ (tail x ++ following head tail xs r))
      ≡ x ∷ loop (following head tail xs r)
unfolding read_next
read_number strtof head tail loop x [] r v =
    ground (arith, v.reads x b']' r (inr refl), v.no_bracket x, length-append (tail x) (b']' ∷ r))
read_number strtof head tail loop x (y ∷ xs) r v =
    let rest = head y ∷ (tail y ++ following head tail xs r) in
    ground
      (arith, v.reads x b',' rest (inl refl), v.no_bracket x, length-append (tail x) (b',' ∷ rest))

floats-following :
    {F : Type 0} (strtof : Bytes → F × Bytes) (head : F → ℕ) (tail : F → Bytes) (fuel : ℕ)
    (xs : List F) (r : Bytes)
    → IsReader strtof head tail
    → length xs < fuel
    → floats strtof fuel (following head tail xs r) ≡ xs
unfolding floats read_next
floats-following strtof head tail zero xs r v h = absurd (omega arith)
floats-following strtof head tail (suc fuel) [] r v h = refl
floats-following strtof head tail (suc fuel) (x ∷ xs) r v h =
    rw (v.no_space x, v.no_comma x)
      (read_number strtof head tail (λ end. floats strtof fuel end) x xs r v
        ∙ ap (λ l. x ∷ l) (floats-following strtof head tail fuel xs r v (omega arith)))

length-following :
    {F : Type 0} (head : F → ℕ) (tail : F → Bytes) (xs : List F) (r : Bytes)
    → length xs < length (following head tail xs r)
length-following head tail [] r = omega arith
length-following head tail (x ∷ xs) r =
    omega
      (arith, length-following head tail xs r, length-append (tail x) (following head tail xs r))

bracketed-array :
    {F : Type 0} (strtof : Bytes → F × Bytes) (head : F → ℕ) (tail : F → Bytes) (xs : List F)
    (r : Bytes)
    → IsReader strtof head tail
    → bracketed strtof (b'[' ∷ array head tail xs r) ≡ xs
unfolding bracketed floats read_next
bracketed-array strtof head tail [] r v = refl
bracketed-array strtof head tail (x ∷ xs) r v =
    rw (v.no_space x, v.no_comma x)
      (read_number strtof head tail (λ end. floats strtof (length (array head tail (x ∷ xs) r)) end)
          x xs r v
        ∙ ap (λ l. x ∷ l)
            (floats-following strtof head tail (length (array head tail (x ∷ xs) r)) xs r v (
              omega (
                arith,
                length-following head tail xs r,
                length-append (tail x) (following head tail xs r),
              ))))

is_prefix-append : (s t : Bytes) → is_prefix s (s ++ t) ≡ true
is_prefix-append [] t = refl
is_prefix-append (x ∷ s) t = ground (arith, is_prefix-append s t)

drop-length : (s t : Bytes) → drop (length s) (s ++ t) ≡ t
drop-length [] t = refl
drop-length (x ∷ s) t = drop-length s t

-- The text of a key and of what follows.
abbrev pub with_key : Bytes → Bytes → Bytes
with_key key rest = b'"' ∷ ((key ++ b'"' ∷ b':' ∷ []) ++ rest)

value_of_first : (key rest : Bytes) → value_of (b'{' ∷ with_key key rest) key ≡ some (skip_ws rest)
unfolding value_of strstr
value_of_first key rest =
    rw
      (
        is_prefix-append (key ++ b'"' ∷ b':' ∷ []) rest,
        drop-length (key ++ b'"' ∷ b':' ∷ []) rest,
        value_of,
        strstr,
      )
      refl

-- An object that begins with an array of numbers, as a writer prints it whose numbers `strtof` reads,
-- gives those numbers back under its key, whatever follows the array.
pub json_get_float_array_lem :
    {F : Type 0} (strtof : Bytes → F × Bytes) (head : F → ℕ) (tail : F → Bytes) (key : Bytes)
    (xs : List F) (r : Bytes)
    → IsReader strtof head tail
    → json_get_float_array strtof (b'{' ∷ with_key key (b'[' ∷ array head tail xs r)) key ≡ xs
unfolding json_get_float_array skip_ws
json_get_float_array_lem strtof head tail key xs r v =
    rw (value_of_first key (b'[' ∷ array head tail xs r), json_get_float_array)
      (bracketed-array strtof head tail xs r v)
