-- ===== src/Http/Parse.antt =====
-- The request parser of http_conn.cpp. A function is `none` where the source reads through a null
-- pointer or writes outside the read buffer.
pub mod Progress
pub mod Faults
use ai_inference_gateway.Prelude.{
  ℕ, zero, suc, ◌+◌, ◌-◌, Bool, true, false, ◌&&◌, List, [], ◌∷◌, Bytes, codes, Option, none, some,
  if◌then◌else◌, ltb, leb, ◌==◌, get_or, set,
}
use ai_inference_gateway.Prelude.Int.{ℤ, pos, negsuc, ◌+ℤ◌, leb_ℤ}
use ai_inference_gateway.Http.{
  HttpConn, HttpCode, Method, get, post, CheckState, requestline, header, content, LineStatus,
  line_ok, line_bad, line_open, no_request, get_request, bad_request, internal_error,
}
use ai_inference_gateway.Http.CString.{
  str_at, strpbrk_blank, strchr, strspn_blank, equal_nocase, prefix_nocase, atol,
}

-- `m_read_buf[i]`
abbrev pub byte_at : HttpConn → ℕ → ℕ
byte_at c i = get_or c.m_read_buf i 0

-- The loop of `parse_line`, by the number of bytes that are not checked yet.
unfoldable pub parse_line_from : ℕ → HttpConn → LineStatus × HttpConn
parse_line_from zero c = (line_open, c)
parse_line_from (suc left) c =
    let i = c.m_checked_idx in
    let rest = parse_line_from left (record c { m_checked_idx = i + 1 }) in
    if byte_at c i == 13
    then (if i + 1 == c.m_read_idx
        then (line_open, c)
        else if byte_at c (i + 1) == 10
        then (
          line_ok,
          record c { m_read_buf = set (set c.m_read_buf i 0) (i + 1) 0; m_checked_idx = i + 2 },
        )
        else (line_bad, c))
    else if byte_at c i == 10
    then (if ltb 1 i && byte_at c (i - 1) == 13
        then (
          line_ok,
          record c { m_read_buf = set (set c.m_read_buf (i - 1) 0) i 0; m_checked_idx = i + 1 },
        )
        else (line_bad, c))
    else rest

unfoldable pub parse_line : HttpConn → LineStatus × HttpConn
unfolding parse_line_from
parse_line c = parse_line_from (c.m_read_idx - c.m_checked_idx) c

-- `if (strncasecmp(m_url, scheme, n) == 0) { m_url += n; m_url = strchr(m_url, '/'); }`: `none` is the
-- null pointer that `strchr` may give.
unfoldable pub strip_scheme : Bytes → ℕ → Bytes → ℕ → Option ℕ
strip_scheme scheme n buf url =
    if prefix_nocase scheme (str_at buf url) then strchr buf (url + n) b'/' else some url

-- The last test of `parse_request_line`.
unfoldable pub check_path : Option ℕ → HttpConn → HttpCode × HttpConn
check_path none c = (bad_request, record c { m_url = none })
check_path (some url) c =
    let c' = record c { m_url = some url } in
    if byte_at c url == b'/'
    then (no_request, record c' { m_check_state = header })
    else (bad_request, c')

-- From the test of "http://" on.
unfoldable pub parse_url : ℕ → HttpConn → Option (HttpCode × HttpConn)
unfolding strip_scheme check_path
parse_url url c = elim (strip_scheme (codes "http://") 7 c.m_read_buf url) [
  | none ↦ none
  | some url' ↦ some (check_path (strip_scheme (codes "https://") 8 c.m_read_buf url') c)
]

-- From the second `strpbrk` on.
unfoldable pub parse_version : ℕ → HttpConn → Option (HttpCode × HttpConn)
unfolding parse_url
parse_version url c = elim (strpbrk_blank c.m_read_buf url) [
  | none ↦ some (bad_request, record c { m_version = none })
  | some blank ↦
      let buf = set c.m_read_buf blank 0 in
      let version = blank + 1 + strspn_blank buf (blank + 1) in
      let c' = record c { m_read_buf = buf; m_version = some version } in
      if equal_nocase (str_at buf version) (codes "HTTP/1.1")
      then parse_url url c'
      else some (bad_request, c')
]

unfoldable pub method_of : Bytes → Option Method
method_of s =
    if equal_nocase s (codes "GET")
    then some get
    else if equal_nocase s (codes "POST")
    then some post
    else none

unfoldable pub parse_request_line : ℕ → HttpConn → Option (HttpCode × HttpConn)
unfolding parse_version method_of
parse_request_line text c = elim (strpbrk_blank c.m_read_buf text) [
  | none ↦ some (bad_request, record c { m_url = none })
  | some blank ↦
      let buf = set c.m_read_buf blank 0 in
      let c' = record c { m_read_buf = buf; m_url = some (blank + 1) } in
      elim (method_of (str_at buf text)) [
        | none ↦ some (bad_request, c')
        | some m ↦
            let url = blank + 1 + strspn_blank buf (blank + 1) in
            parse_version url (record c' { m_method = m; m_url = some url })
      ]
]

-- The start of a header's value.
abbrev value_at : HttpConn → ℕ → ℕ
value_at c i = i + strspn_blank c.m_read_buf i

-- `m_content_length != 0`
abbrev pub is_zero : ℤ → Bool
is_zero (pos zero) = true
is_zero (pos (suc n)) = false
is_zero (negsuc n) = false

unfoldable pub parse_headers : ℕ → HttpConn → HttpCode × HttpConn
parse_headers text c =
    let line = str_at c.m_read_buf text in
    if byte_at c text == 0
    then (if is_zero c.m_content_length
        then (get_request, c)
        else (no_request, record c { m_check_state = content }))
    else if prefix_nocase (codes "Connection:") line
    then (if equal_nocase (str_at c.m_read_buf (value_at c (text + 11))) (codes "keep-alive")
        then (no_request, record c { m_linger = true })
        else (no_request, c))
    else if prefix_nocase (codes "Content-length:") line
    then (
      no_request,
      record c { m_content_length = atol (str_at c.m_read_buf (value_at c (text + 15))) },
    )
    else if prefix_nocase (codes "Host:") line
    then (no_request, record c { m_host = some (value_at c (text + 5)) })
    else (no_request, c)

-- `text[m_content_length] = '\0'`
unfoldable pub end_body : ℤ → HttpConn → Option HttpConn
end_body (negsuc n) c = none
end_body (pos i) c =
    if ltb i c.m_read_buf_size then some (record c { m_read_buf = set c.m_read_buf i 0 }) else none

unfoldable pub parse_content : ℕ → HttpConn → Option (HttpCode × HttpConn)
unfolding end_body
parse_content text c =
    if leb_ℤ (c.m_content_length +ℤ pos c.m_checked_idx) (pos c.m_read_idx)
    then elim (end_body (pos text +ℤ c.m_content_length) c) [
      | none ↦ none
      | some c' ↦ some (get_request, c')
    ]
    else some (no_request, c)

-- How `process_read` goes on: it returns a code, calls `do_request`, or has met a fault; `spins` is
-- the end of the fuel.
pub data Parsed : Type 0 where
  returns : HttpCode → HttpConn → Parsed
  requests : HttpConn → Parsed
  faults spins : Parsed

-- The switch, with the loop as its last argument.
unfoldable pub after_request_line : Option (HttpCode × HttpConn) → (HttpConn → Parsed) → Parsed
after_request_line none loop = faults
after_request_line (some (bad_request, c)) loop = returns bad_request c
after_request_line (some (_, c)) loop = loop c

unfoldable pub after_headers : HttpCode × HttpConn → (HttpConn → Parsed) → Parsed
after_headers (bad_request, c) loop = returns bad_request c
after_headers (get_request, c) loop = requests c
after_headers (_, c) loop = loop c

unfoldable pub after_content : Option (HttpCode × HttpConn) → (HttpConn → Parsed) → Parsed
after_content none loop = faults
after_content (some (get_request, c)) loop = requests c
after_content (some (_, c)) loop = loop c

-- A line that has been found is handled in the state of the parser.
unfoldable pub handle_line : CheckState → HttpConn → (HttpConn → Parsed) → Parsed
unfolding after_request_line after_headers
handle_line requestline c loop =
    after_request_line
      (parse_request_line c.m_start_line (record c { m_start_line = c.m_checked_idx })) loop
handle_line header c loop =
    after_headers (parse_headers c.m_start_line (record c { m_start_line = c.m_checked_idx })) loop
handle_line content c loop = returns internal_error c

-- The while loop of `process_read`.
unfoldable pub read_loop : ℕ → CheckState → LineStatus → HttpConn → Parsed
unfolding handle_line after_content
read_loop zero state status c = spins
read_loop (suc fuel) content line_ok c =
    after_content (parse_content c.m_start_line (record c { m_start_line = c.m_checked_idx }))
      (λ c'. read_loop fuel c'.m_check_state line_open c')
read_loop (suc fuel) content _ c = returns no_request c
read_loop (suc fuel) state status c =
    let (found, c') = parse_line c in
    elim found [
      | line_ok ↦ handle_line state c' (λ d. read_loop fuel d.m_check_state line_ok d)
      | line_bad ↦ returns no_request c'
      | line_open ↦ returns no_request c'
    ]
