-- ===== src/Api/Rows.antt =====
-- The list of the videos that `handle_admin_list` sends.
use ott_quic.Common.{
  ◌≡◌, refl, true, List, ◌++◌, leb, if◌then◌else◌, length, map, Bool-cases, inl, inr, arith,
}
use ott_quic.Text.{codes}
use ott_quic.Text.Rows.{separated, rows_text-separated}
use ott_quic.Api.Reply.{reply}
use ott_quic.Api.Backend.{VideoRow}
use ott_quic.Api.Account.{internal_error, status_ok}
use ott_quic.Api.Admin.{row_text, list_reply, list_size}

-- `handle_admin_list` sends all rows, with commas between them, if their text with the opening is
-- shorter than 8190 bytes, and else the reply "response-too-large": nothing is ever cut.
pub list_reply-separated :
    (rows : List VideoRow)
    → let text = codes "{\"items\":[" ++ separated true (map row_text rows) in
      list_reply rows ≡ (
        if leb 8190 (length text)
        then internal_error (codes "response-too-large")
        else reply status_ok (codes "Content-Type: application/json\r\n") (text ++ codes "]}"))
unfolding list_reply
list_reply-separated rows =
    let opening = codes "{\"items\":[" in
    let text = opening ++ separated true (map row_text rows) in
    let whole = rows_text-separated list_size opening (map row_text rows) (omega arith) in
    elim (Bool-cases (leb 8190 (length text))) [
      | inl e ↦ rw (whole, list_reply) (rw e refl)
      | inr e ↦ rw (whole, list_reply) (rw e refl)
    ]
