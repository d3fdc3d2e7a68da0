-- ===== src/Log/Files.antt =====
-- Which file a line of log.cpp goes to: one for each day, and a numbered one after every
-- `m_split_lines` lines.
use ai_inference_gateway.Prelude.{
  ℕ, zero, suc, ◌+◌, ◌*◌, ◌/◌, ◌%◌, ◌≤◌, ◌<◌, ◌≡◌, ◌≢◌, ◌⊎◌, refl, sym, ap, ◌∙◌, subst, Bool, true,
  false, List, [], ◌∷◌, ◌++◌, Option, none, some, if◌then◌else◌, leb, ◌==◌, Bytes, codes, length,
  take, arith, Bool-cases, inl, inr,
}
use native.Mathlib.Nat.{div-eq_of_lt-le, div-add-mod', mul-mod_left, mod-lt, div-eq_of_lt}
use ai_inference_gateway.Http.Response.{decimal}
use ai_inference_gateway.Log.{Log, Tm, date, fopen, open_new, rotate}
use ai_inference_gateway.Log.Lines.{Yields}

-- The file number `k` of the day `t`.
abbrev pub file_name : Log → Tm → ℕ → Bytes
file_name l t zero = l.dir_name ++ take 15 (date t) ++ l.log_name
file_name l t (suc k) = l.dir_name ++ take 15 (date t) ++ l.log_name ++ codes "." ++ decimal (suc k)

-- The log is in the file of the day `t` that its count stands for.
pub record IsAt (l : Log) (t : Tm) : Type 0 where
  pub splits : 0 < l.m_split_lines
  pub today : l.m_today ≡ t.tm_mday
  pub opened : l.m_fp ≡ some (file_name l t (l.m_count / l.m_split_lines))

take-all : {A : Type 0} (n : ℕ) (xs : List A) → length xs ≤ n → take n xs ≡ xs
take-all zero [] h = refl
take-all zero (x ∷ xs) h = absurd (omega arith)
take-all (suc n) [] h = refl
take-all (suc n) (x ∷ xs) h = ap (λ ys. x ∷ ys) (take-all n xs (omega arith))

open_new_lem :
    (opens : Bytes → Bool) (name old : Bytes) (l : Log)
    → ((n : Bytes) → opens n ≡ true)
    → l.m_fp ≡ some old
    → length name < 256
    → open_new opens name l ≡ some (record l { m_fp = some name })
unfolding open_new fopen
open_new_lem opens name old l can e short =
    let same = take-all 298 name (omega (arith, short)) in
    ap
      (λ fp. elim fp [
        | none ↦ none
        | some o ↦
            if leb 256 (length (take 298 name))
            then none
            else some (record l { m_fp = fopen opens (take 298 name) })
      ])
      e
    ∙ ap (λ n. if leb 256 (length n) then none else some (record l { m_fp = fopen opens n })) same
    ∙ fits (length name) (some (record l { m_fp = fopen opens name })) short
    ∙ ap (λ b. some (record l { m_fp = if b then some name else none })) (can name)
  where
    fits : {A : Type 0} (n : ℕ) (a : Option A) → n < 256 → (if leb 256 n then none else a) ≡ a
    fits n a h = ground arith

one_more : (k s : ℕ) → (k + 1) * s ≡ k * s + s
one_more k s = omega arith

div-next : (c s : ℕ) → 0 < s → ((c + 1) % s == 0) ≡ false → (c + 1) / s ≡ c / s
div-next c s p e =
    let whole : c + 1 ≢ c / s * s + s = λ q.
      absurd
        (not_zero (ap (λ n. n % s) (q ∙ sym (one_more (c / s) s)) ∙ mul-mod_left (c / s + 1) s)) in
    div-eq_of_lt-le {k = c / s} s (omega (arith, div-add-mod' c s)) (
      subst (λ n. c + 1 < n) (sym (one_more (c / s) s))
        (omega (arith, div-add-mod' c s, mod-lt c {m = s} p, whole)))
  where
    not_zero : (c + 1) % s ≡ 0 → ⊥
    not_zero q = ground (arith, q, e)

file_name-pos :
    (l : Log) (t : Tm) (k : ℕ)
    → 0 < k
    → l.dir_name ++ take 15 (date t) ++ l.log_name ++ codes "." ++ decimal k ≡ file_name l t k
file_name-pos l t zero h = absurd (omega arith)
file_name-pos l t (suc k) h = refl

file_name-date : (l : Log) (t u : Tm) (k : ℕ) → date t ≡ date u → file_name l t k ≡ file_name l u k
file_name-date l t u zero e = ap (λ d. l.dir_name ++ take 15 d ++ l.log_name) e
file_name-date l t u (suc k) e =
    ap (λ d. l.dir_name ++ take 15 d ++ l.log_name ++ codes "." ++ decimal (suc k)) e

-- A date that may come after `t`: the same, or another day of the month.
abbrev pub IsNext : Tm → Tm → Type 0
IsNext t u = ((date t ≡ date u) × (t.tm_mday ≡ u.tm_mday)) ⊎ (t.tm_mday ≢ u.tm_mday)

-- The names of the files that a line may open fit their buffer.
abbrev pub AreShort : Log → Tm → Type 0
AreShort l u =
    (length (file_name l u 0) < 256)
    × (length (file_name l u ((l.m_count + 1) / l.m_split_lines)) < 256)

pub record Rotated (l : Log) (u : Tm) (l' : Log) : Type 0 where
  pub at : IsAt l' u
  pub queue : l'.m_log_queue ≡ l.m_log_queue
  pub disk : l'.disk ≡ l.disk
  pub size : l'.m_log_buf_size ≡ l.m_log_buf_size

rotate_day :
    (opens : Bytes → Bool) (t u : Tm) (l : Log)
    → ((n : Bytes) → opens n ≡ true)
    → IsAt l t
    → AreShort l u
    → (l.m_today == u.tm_mday) ≡ false
    → Yields (rotate opens u l) (λ l'. Rotated l u l')
unfolding rotate
rotate_day opens t u l can i short e =
    rw
      (
        e,
        open_new_lem opens (file_name l u 0) (file_name l t (l.m_count / l.m_split_lines))
            (record l { m_today = u.tm_mday; m_count = 0 }) can i.opened short.0,
      )
      (record {
        at = record {
          splits = i.splits;
          today = refl;
          opened = ap (λ k. some (file_name l u k)) (sym (div-eq_of_lt i.splits));
        };
        queue = refl;
        disk = refl;
        size = refl;
      })

rotate_lines :
    (opens : Bytes → Bool) (t u : Tm) (l : Log)
    → ((n : Bytes) → opens n ≡ true)
    → IsAt l t
    → AreShort l u
    → (l.m_today == u.tm_mday) ≡ true
    → ((l.m_count + 1) % l.m_split_lines == 0) ≡ true
    → Yields (rotate opens u l) (λ l'. Rotated l u l')
unfolding rotate
rotate_lines opens t u l can i short e f =
    let k = (l.m_count + 1) / l.m_split_lines in
    let name = file_name-pos l u k (positive l.m_count l.m_split_lines f) in
    rw
      (
        e,
        f,
        ap (λ n. open_new opens n (record l { m_count = l.m_count + 1 })) name
            ∙ open_new_lem opens (file_name l u k) (file_name l t (l.m_count / l.m_split_lines))
                (record l { m_count = l.m_count + 1 }) can i.opened short.1,
      )
      (record {
        at = record { splits = i.splits; today = same-day l.m_today u.tm_mday e; opened = refl };
        queue = refl;
        disk = refl;
        size = refl;
      })
  where
    same-day : (a b : ℕ) → (a == b) ≡ true → a ≡ b
    same-day a b e = ground (arith, e)

    positive : (c s : ℕ) → ((c + 1) % s == 0) ≡ true → 0 < (c + 1) / s
    positive c s f = nonzero ((c + 1) / s) refl
      where
        nonzero : (k : ℕ) → k ≡ (c + 1) / s → 0 < k
        nonzero zero q =
            let whole : (c + 1) % s ≡ 0 = same-day ((c + 1) % s) 0 f in
            absurd (omega (arith, div-add-mod' (c + 1) s, ap (λ k. k * s) q, whole))
        nonzero (suc k) q = omega arith

rotate_stays :
    (opens : Bytes → Bool) (t u : Tm) (l : Log)
    → IsAt l t
    → date t ≡ date u
    → (l.m_today == u.tm_mday) ≡ true
    → ((l.m_count + 1) % l.m_split_lines == 0) ≡ false
    → Yields (rotate opens u l) (λ l'. Rotated l u l')
unfolding rotate
rotate_stays opens t u l i d e f =
    rw (e, f)
      (record {
        at = record {
          splits = i.splits;
          today = ground (arith, e);
          opened =
              i.opened
              ∙ ap some (file_name-date l t u (l.m_count / l.m_split_lines) d)
              ∙ ap (λ k. some (file_name l u k))
                  (sym (div-next l.m_count l.m_split_lines i.splits f));
        };
        queue = refl;
        disk = refl;
        size = refl;
      })

pub rotate_lem :
    (opens : Bytes → Bool) (t u : Tm) (l : Log)
    → ((n : Bytes) → opens n ≡ true)
    → IsAt l t
    → AreShort l u
    → IsNext t u
    → Yields (rotate opens u l) (λ l'. Rotated l u l')
rotate_lem opens t u l can i short (inr other) =
    rotate_day opens t u l can i short (ground (arith, i.today, other))
rotate_lem opens t u l can i short (inl (d, m)) =
    let today : (l.m_today == u.tm_mday) ≡ true = ground (arith, i.today, m) in
    elim (Bool-cases ((l.m_count + 1) % l.m_split_lines == 0)) [
      | inl f ↦ rotate_lines opens t u l can i short today f
      | inr f ↦ rotate_stays opens t u l i d today f
    ]
