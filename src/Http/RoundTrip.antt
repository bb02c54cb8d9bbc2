-- ===== src/Http/RoundTrip.antt =====
-- A request as RFC 9112 writes it, and what `http_parse_request` reads of it.
pub mod Lines
pub mod Words
use ott_quic.Common.{
  ℕ, ◌≡◌, refl, ◌<◌, ◌∙◌, ap, Bool, true, false, not, ◌&&◌, ◌||◌, Option, some, List, [], ◌∷◌, ◌++◌,
  ◌==◌, length, length-append, All, map, arith,
}
use ott_quic.Text.{Text, codes, is_space}
use ott_quic.Http.{
  HttpHeader, HttpRequest, max_headers, header_loop, lines, parse_lines, parse_request,
  without_returns, c_string, header_block, scan_line,
}
use ott_quic.Http.Bounds.{RequestFits}
use ott_quic.Http.RoundTrip.Lines.{IsLine, plain, wire, wire-header_block, wire-lines}
use ott_quic.Http.RoundTrip.Words.{
  IsPrintable, scan_line-words, header_line, header_loop-header_line, header_line-IsLine,
  append-All,
}

-- A word of the request line: some characters, none of them NUL.
abbrev IsToken : Text → Type 0
IsToken text = (0 < length text) × All (λ c. plain c ≡ true) text

abbrev request_line : HttpRequest → Text
request_line req = req.method ++ (b' ' ∷ (req.path ++ (b' ' ∷ (req.version ++ []))))

-- A request, with its body.
abbrev pub print_request : HttpRequest → Text → Text
print_request req body = wire (request_line req ∷ map header_line req.headers) body

-- A request that fits and that can be written so.
pub record PrintableRequest (req : HttpRequest) : Type 0 where
  pub fits : RequestFits req
  pub method : IsToken req.method
  pub path : IsToken req.path
  pub version : IsToken req.version
  pub headers : All IsPrintable req.headers

request_line-IsLine : (req : HttpRequest) → PrintableRequest req → IsLine (request_line req)
request_line-IsLine req p =
    let (m, ms) = p.method in
    let (q, ps) = p.path in
    let (v, vs) = p.version in
    let tail = b' ' ∷ (req.path ++ (b' ' ∷ (req.version ++ []))) in
    (
      omega (arith, length-append req.method tail),
      append-All req.method tail ms (
        refl,
        append-All req.path (b' ' ∷ (req.version ++ [])) ps (refl, append-All req.version [] vs tt),
      ),
    )

header_lines-IsLine :
    (headers : List HttpHeader) → All IsPrintable headers → All IsLine (map header_line headers)
header_lines-IsLine [] h = tt
header_lines-IsLine (x ∷ headers) (p, h) = (header_line-IsLine x p, header_lines-IsLine headers h)

parse_lines-print :
    (req : HttpRequest)
    → PrintableRequest req
    → parse_lines (request_line req ∷ map header_line req.headers) ≡ some req
unfolding parse_lines
parse_lines-print req p =
    let fits = p.fits in
    let first =
      scan_line-words req.method req.path req.version p.method.0 p.path.0 p.version.0 fits.method
        fits.path fits.version in
    let others = header_loop-header_line max_headers req.headers fits.count p.headers in
    rw (first, parse_lines) (rw others refl)

-- A request that is written with "\r\n" behind each line is read back, whatever its body is; the
-- request fits into `http_request_t`, its three words have characters, its header names are in lower case
-- and have no colon, its values do not begin with a blank, and none holds NUL, "\r" or "\n".
pub parse_request-print_request :
    (req : HttpRequest) (body : Text)
    → PrintableRequest req
    → parse_request true (print_request req body) ≡ some req
unfolding parse_request
parse_request-print_request req body p =
    let line = request_line req in
    let others = map header_line req.headers in
    let is_line = request_line-IsLine req p in
    let are_lines = header_lines-IsLine req.headers p.headers in
    let found = wire-header_block line others body is_line are_lines in
    rw (found, parse_request)
      (rw (wire-lines line others is_line are_lines) (parse_lines-print req p))
