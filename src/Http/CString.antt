-- ===== src/Http/CString.antt =====
-- The C string functions that http_conn.cpp calls, over the bytes from an index of a buffer on. A
-- string ends before the first zero byte, or where the buffer does.
use ai_inference_gateway.Prelude.{
  ℕ, zero, suc, ◌+◌, ◌-◌, ◌*◌, Bool, true, false, ◌&&◌, ◌||◌, [], ◌∷◌, Bytes, Option, none, some,
  if◌then◌else◌, leb, ◌==◌, drop,
}
use mathlib.Core.Option
use ai_inference_gateway.Prelude.Int.{ℤ, pos, negsuc}

-- The string of bytes itself.
unfoldable pub c_str : Bytes → Bytes
c_str [] = []
c_str (b ∷ bs) = if b == 0 then [] else b ∷ c_str bs

unfoldable pub str_at : Bytes → ℕ → Bytes
unfolding c_str
str_at buf i = c_str (drop i buf)

unfoldable pub is_blank : ℕ → Bool
is_blank b = b == b' ' || b == 9

-- The offset of the first byte that passes, in `strpbrk(s, " \t")` and `strchr(s, '/')`.
unfoldable pub index_of : (ℕ → Bool) → Bytes → Option ℕ
index_of test [] = none
index_of test (b ∷ bs) = if test b then some 0 else Option.map suc (index_of test bs)

unfoldable pub strpbrk_blank : Bytes → ℕ → Option ℕ
unfolding index_of is_blank str_at
strpbrk_blank buf i = Option.map (λ k. i + k) (index_of is_blank (str_at buf i))

unfoldable pub strchr : Bytes → ℕ → ℕ → Option ℕ
unfolding index_of str_at
strchr buf i ch = Option.map (λ k. i + k) (index_of (λ b. b == ch) (str_at buf i))

-- How many bytes pass at the beginning: `strspn(s, " \t")`.
unfoldable pub span : (ℕ → Bool) → Bytes → ℕ
span test [] = 0
span test (b ∷ bs) = if test b then suc (span test bs) else 0

unfoldable pub strspn_blank : Bytes → ℕ → ℕ
unfolding span is_blank str_at
strspn_blank buf i = span is_blank (str_at buf i)

unfoldable pub to_lower : ℕ → ℕ
to_lower b = if leb b'A' b && leb b b'Z' then b + 32 else b

-- `strcasecmp(s, t) == 0`
unfoldable pub equal_nocase : Bytes → Bytes → Bool
unfolding to_lower
equal_nocase [] [] = true
equal_nocase [] (y ∷ ys) = false
equal_nocase (x ∷ xs) [] = false
equal_nocase (x ∷ xs) (y ∷ ys) = to_lower x == to_lower y && equal_nocase xs ys

-- `strncasecmp(s, prefix, strlen(prefix)) == 0`
unfoldable pub prefix_nocase : Bytes → Bytes → Bool
unfolding to_lower
prefix_nocase [] s = true
prefix_nocase (p ∷ ps) [] = false
prefix_nocase (p ∷ ps) (b ∷ bs) = to_lower p == to_lower b && prefix_nocase ps bs

unfoldable pub is_digit : ℕ → Bool
is_digit b = leb b'0' b && leb b b'9'

-- The digits at the beginning, after the value so far.
unfoldable pub parse_digits : ℕ → Bytes → ℕ
unfolding is_digit
parse_digits value [] = value
parse_digits value (b ∷ bs) =
    let rest = parse_digits (value * 10 + (b - b'0')) bs in if is_digit b then rest else value

unfoldable pub is_space : ℕ → Bool
is_space b = b == b' ' || leb 9 b && leb b 13

-- `-n`
abbrev minus : ℕ → ℤ
minus zero = pos 0
minus (suc n) = negsuc n

-- `atol` after the white space; the number is taken to fit a `long`.
unfoldable pub parse_signed : Bytes → ℤ
unfolding parse_digits
parse_signed [] = pos 0
parse_signed (b ∷ bs) =
    if b == b'-'
    then minus (parse_digits 0 bs)
    else if b == b'+'
    then pos (parse_digits 0 bs)
    else pos (parse_digits 0 (b ∷ bs))

unfoldable pub atol : Bytes → ℤ
unfolding parse_signed is_space span
atol s = parse_signed (drop (span is_space s) s)
