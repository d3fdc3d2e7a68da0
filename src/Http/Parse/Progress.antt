-- ===== src/Http/Parse/Progress.antt =====
-- The loops of `parse_line` and `process_read` (http_conn.cpp) end, and stay within what was read.
use ai_inference_gateway.Prelude.{
  ℕ, zero, suc, ◌+◌, ◌-◌, ◌≤◌, ◌<◌, ◌≡◌, ◌≢◌, refl, inl, inr, Bool, Option, none, some, length,
  length-set, arith, set, Bool-cases, Option-cases, codes,
}
use ai_inference_gateway.Prelude.Int.{pos, ◌+ℤ◌, leb_ℤ}
use ai_inference_gateway.Http.{
  HttpConn, HttpCode, CheckState, requestline, header, content, LineStatus, line_ok, line_bad,
  line_open, no_request, get_request, bad_request,
}
use ai_inference_gateway.Http.CString.{strpbrk_blank, strspn_blank, str_at, equal_nocase}
use ai_inference_gateway.Http.Parse.{
  parse_line_from, parse_line, parse_request_line, parse_version, parse_url, check_path, method_of,
  strip_scheme, parse_headers, parse_content, end_body, Parsed, returns, spins, after_request_line,
  after_headers, after_content, handle_line, read_loop,
}

-- What `parse_line` leaves as it was.
pub record Kept (c d : HttpConn) : Type 0 where
  pub read_idx : d.m_read_idx ≡ c.m_read_idx
  pub start_line : d.m_start_line ≡ c.m_start_line
  pub state : d.m_check_state ≡ c.m_check_state
  pub buf_size : length d.m_read_buf ≡ length c.m_read_buf
  pub size : d.m_read_buf_size ≡ c.m_read_buf_size

-- How far it gets: past a line's end when it finds one, and never past what was read.
abbrev pub Checked : LineStatus → HttpConn → HttpConn → Type 0
Checked line_ok c d = (c.m_checked_idx < d.m_checked_idx) × (d.m_checked_idx ≤ c.m_read_idx)
Checked line_bad c d = (c.m_checked_idx ≤ d.m_checked_idx) × (d.m_checked_idx < c.m_read_idx)
Checked line_open c d = (c.m_checked_idx ≤ d.m_checked_idx) × (d.m_checked_idx ≤ c.m_read_idx)

parse_line_from_lem :
    (left : ℕ) (c : HttpConn)
    → left ≡ c.m_read_idx - c.m_checked_idx
    → c.m_checked_idx ≤ c.m_read_idx
    → let (status, d) = parse_line_from left c in Checked status c d × Kept c d
unfolding parse_line_from
parse_line_from_lem zero c e h = ground arith
parse_line_from_lem (suc left) c e h =
    let i = c.m_checked_idx in
    ground (
      arith,
      parse_line_from_lem left (record c { m_checked_idx = i + 1 }),
      length-set c.m_read_buf i 0,
      length-set (set c.m_read_buf i 0) (i + 1) 0,
      length-set c.m_read_buf (i - 1) 0,
      length-set (set c.m_read_buf (i - 1) 0) i 0,
    )

-- Where no more bytes are checked than were read, `parse_line` stays within what was read, keeps the buffer's length and the rest of the parser's
-- state, and moves on when it finds a line.
pub parse_line_lem :
    (c : HttpConn)
    → c.m_checked_idx ≤ c.m_read_idx
    → let (status, d) = parse_line c in Checked status c d × Kept c d
unfolding parse_line
parse_line_lem c h = parse_line_from_lem (c.m_read_idx - c.m_checked_idx) c refl h

-- The handlers leave the two indices alone.
abbrev Indices : HttpConn → HttpConn → Type 0
Indices c d = (d.m_read_idx ≡ c.m_read_idx) × (d.m_checked_idx ≡ c.m_checked_idx)

abbrev OptionIndices : HttpConn → Option (HttpCode × HttpConn) → Type 0
OptionIndices c none = Unit
OptionIndices c (some (code, d)) = Indices c d

check_path-Indices : (o : Option ℕ) (c : HttpConn) → Indices c (check_path o c).1
unfolding check_path
check_path-Indices none c = (refl, refl)
check_path-Indices (some url) c = ground arith

parse_url-Indices : (url : ℕ) (c : HttpConn) → OptionIndices c (parse_url url c)
unfolding parse_url
parse_url-Indices url c = go (strip_scheme (codes "http://") 7 c.m_read_buf url)
  where
    go :
        (o : Option ℕ)
        → OptionIndices c (elim o [
          | none ↦ none
          | some u ↦ some (check_path (strip_scheme (codes "https://") 8 c.m_read_buf u) c)
        ])
    go none = tt
    go (some u) = check_path-Indices _ c

parse_version-Indices : (url : ℕ) (c : HttpConn) → OptionIndices c (parse_version url c)
unfolding parse_version
parse_version-Indices url c = elim (Option-cases (strpbrk_blank c.m_read_buf url)) [
  | inl e ↦ rw (e, parse_version) (refl, refl)
  | inr (blank, e) ↦
      let buf = set c.m_read_buf blank 0 in
      let version = blank + 1 + strspn_blank buf (blank + 1) in
      let c' = record c { m_read_buf = buf; m_version = some version } in
      elim (Bool-cases (equal_nocase (str_at buf version) (codes "HTTP/1.1"))) [
        | inl same ↦ rw (e, parse_version, same) (parse_url-Indices url c')
        | inr other ↦ rw (e, parse_version, other) (refl, refl)
      ]
]

parse_request_line-Indices : (text : ℕ) (c : HttpConn) → OptionIndices c (parse_request_line text c)
unfolding parse_request_line
parse_request_line-Indices text c = elim (Option-cases (strpbrk_blank c.m_read_buf text)) [
  | inl e ↦ rw (e, parse_request_line) (refl, refl)
  | inr (blank, e) ↦
      let buf = set c.m_read_buf blank 0 in
      let c' = record c { m_read_buf = buf; m_url = some (blank + 1) } in
      elim (Option-cases (method_of (str_at buf text))) [
        | inl bad ↦ rw (e, parse_request_line, bad) (refl, refl)
        | inr (m, good) ↦
            let url = blank + 1 + strspn_blank buf (blank + 1) in
            rw (e, parse_request_line, good)
              (parse_version-Indices url (record c' { m_method = m; m_url = some url }))
      ]
]

parse_headers-Indices : (text : ℕ) (c : HttpConn) → Indices c (parse_headers text c).1
unfolding parse_headers
parse_headers-Indices text c = ground arith

-- `after_*` and the loop: what does not spin after its steps does not spin.
after_request_line_ends :
    (c : HttpConn) (r : Option (HttpCode × HttpConn)) (loop : HttpConn → Parsed)
    → OptionIndices c r
    → ((d : HttpConn) → Indices c d → loop d ≢ spins)
    → after_request_line r loop ≢ spins
unfolding after_request_line
after_request_line_ends c none loop k h = λ e. cc
after_request_line_ends c (some (bad_request, d)) loop k h = λ e. cc
after_request_line_ends c (some (_, d)) loop k h = h d k

after_headers_ends :
    (c : HttpConn) (r : HttpCode × HttpConn) (loop : HttpConn → Parsed)
    → Indices c r.1
    → ((d : HttpConn) → Indices c d → loop d ≢ spins)
    → after_headers r loop ≢ spins
unfolding after_headers
after_headers_ends c (bad_request, d) loop k h = λ e. cc
after_headers_ends c (get_request, d) loop k h = λ e. cc
after_headers_ends c (_, d) loop k h = h d k

-- Once the body is not complete the loop ends at its next test.
read_loop_open :
    (fuel : ℕ) (state : CheckState) (c : HttpConn)
    → 0 < fuel
    → state ≡ content
    → read_loop fuel state line_open c ≢ spins
unfolding read_loop
read_loop_open zero state c h e = absurd (omega arith)
read_loop_open (suc fuel) content c h e = λ e'. cc
read_loop_open (suc fuel) requestline c h e = cc
read_loop_open (suc fuel) header c h e = cc

content_ends :
    (fuel text : ℕ) (c : HttpConn)
    → 0 < fuel
    → c.m_check_state ≡ content
    → after_content (parse_content text c) (λ d. read_loop fuel d.m_check_state line_open d) ≢ spins
unfolding parse_content after_content
content_ends fuel text c h e = elim (Bool-cases complete) [
  | inl whole ↦ elim (Option-cases (end_body (pos text +ℤ c.m_content_length) c)) [
    | inl outside ↦ rw (whole, outside) (λ e'. cc)
    | inr (d, inside) ↦ rw (whole, inside) (λ e'. cc)
  ]
  | inr more ↦ rw more (read_loop_open fuel c.m_check_state c h e)
]
  where
    complete : Bool
    complete = leb_ℤ (c.m_content_length +ℤ pos c.m_checked_idx) (pos c.m_read_idx)

-- Any state but the last is one more line.
line_ends :
    (fuel : ℕ) (state : CheckState) (r : LineStatus × HttpConn) (c : HttpConn)
    → Checked r.0 c r.1
    → Kept c r.1
    → c.m_read_idx - c.m_checked_idx + 2 ≤ suc fuel
    → ((d : HttpConn)
        → d.m_checked_idx ≤ d.m_read_idx
        → d.m_read_idx - d.m_checked_idx + 2 ≤ fuel
        → read_loop fuel d.m_check_state line_ok d ≢ spins)
    → ◌≢◌ {A = Parsed}
        (elim (r.0) [
          | line_ok ↦ handle_line state r.1 (λ d. read_loop fuel d.m_check_state line_ok d)
          | line_bad ↦ returns no_request r.1
          | line_open ↦ returns no_request r.1
        ])
        spins
unfolding handle_line
line_ends fuel state (line_bad, d) c k kept h loop = λ e. cc
line_ends fuel state (line_open, d) c k kept h loop = λ e. cc
line_ends fuel requestline (line_ok, d) c k kept h loop =
    let d' = record d { m_start_line = d.m_checked_idx } in
    after_request_line_ends d' _ _ (parse_request_line-Indices d.m_start_line d')
      (λ f i. loop f (omega (arith, i, kept, k)) (omega (arith, i, kept, k)))
line_ends fuel header (line_ok, d) c k kept h loop =
    let d' = record d { m_start_line = d.m_checked_idx } in
    after_headers_ends d' _ _ (parse_headers-Indices d.m_start_line d')
      (λ f i. loop f (omega (arith, i, kept, k)) (omega (arith, i, kept, k)))
line_ends fuel content (line_ok, d) c k kept h loop = λ e. cc

-- Where no more bytes are checked than were read, the loop of `process_read` ends: two rounds more
-- than there are bytes to check are enough.
pub read_loop_ends :
    (fuel : ℕ) (state : CheckState) (c : HttpConn)
    → c.m_check_state ≡ state
    → c.m_checked_idx ≤ c.m_read_idx
    → c.m_read_idx - c.m_checked_idx + 2 ≤ fuel
    → read_loop fuel state line_ok c ≢ spins
unfolding read_loop
read_loop_ends zero state c e h f = absurd (omega arith)
read_loop_ends (suc fuel) content c e h f =
    content_ends fuel c.m_start_line (record c { m_start_line = c.m_checked_idx }) (omega arith) e
read_loop_ends (suc fuel) requestline c e h f =
    let (k, kept) = parse_line_lem c h in
    line_ends fuel requestline (parse_line c) c k kept f
      (λ d. read_loop_ends fuel d.m_check_state d refl)
read_loop_ends (suc fuel) header c e h f =
    let (k, kept) = parse_line_lem c h in
    line_ends fuel header (parse_line c) c k kept f
      (λ d. read_loop_ends fuel d.m_check_state d refl)
