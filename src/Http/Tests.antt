-- ===== src/Http/Tests.antt =====
-- Requests.
use ott_quic.Common.{◌≡◌, refl, true, some, none, [], ◌∷◌, arith}
use ott_quic.Text.{codes}
use ott_quic.Http.{HttpRequest, parse_request}
use ott_quic.Http.Bounds.{AnyFits, RequestFits, parse_request-AnyFits}
use ott_quic.Http.RoundTrip.{print_request, PrintableRequest, parse_request-print_request}

abbrev sample : HttpRequest
sample = record {
  method = codes "GET";
  path = codes "/ws";
  version = codes "HTTP/1.1";
  headers = record { name = codes "host"; value = codes "a: b" } ∷ [];
}

-- Only "\r\n\r\n" ends the header; a line without a colon is passed over, a name put in lower case.
parse_request_lower :
    parse_request true (codes "GET /ws HTTP/1.1\r\nnothing\r\n\nHost:\ta: b\r\n\r\nrest")
    ≡ some sample
unfolding parse_request
parse_request_lower = refl

parse_request_unended : parse_request true (codes "GET /ws HTTP/1.1\nHost: a\n\n") ≡ none
unfolding parse_request
parse_request_unended = refl

sample-RequestFits : RequestFits sample
sample-RequestFits = record {
  method = (omega arith, (refl, (refl, (refl, tt))));
  path = (omega arith, (refl, (refl, (refl, tt))));
  version = (omega arith, (refl, (refl, (refl, (refl, (refl, (refl, (refl, (refl, tt)))))))));
  count = omega arith;
  all = ((omega arith, (refl, (refl, (refl, (refl, tt)))), omega arith), tt);
}

sample-PrintableRequest : PrintableRequest sample
sample-PrintableRequest = record {
  fits = sample-RequestFits;
  method = (omega arith, (refl, (refl, (refl, tt))));
  path = (omega arith, (refl, (refl, (refl, tt))));
  version = (omega arith, (refl, (refl, (refl, (refl, (refl, (refl, (refl, (refl, tt)))))))));
  headers = (
    (
      (omega arith, (refl, (refl, (refl, (refl, tt)))), omega arith),
      (refl, (refl, (refl, (refl, tt)))),
      (refl, (refl, (refl, (refl, tt)))),
      refl,
    ),
    tt,
  );
}

parse_request-AnyFits_example :
    AnyFits (parse_request true (codes "GET /ws HTTP/1.1\r\nHost: a\r\n\r\n"))
parse_request-AnyFits_example =
    parse_request-AnyFits true (codes "GET /ws HTTP/1.1\r\nHost: a\r\n\r\n")

parse_request-print_request_example :
    parse_request true (print_request sample (codes "x=1")) ≡ some sample
parse_request-print_request_example =
    parse_request-print_request sample (codes "x=1") sample-PrintableRequest
