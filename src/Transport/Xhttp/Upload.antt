-- ===== src/Transport/Xhttp/Upload.antt =====
-- internal/transport/xhttp/server.go: where a request goes, and what an upload POST hands to its
-- session. `strconv.ParseInt` is a parameter. What `Validate` makes of the request is an argument.
use nightveil.Prelude.{
  Bool, Bytes, Option, Result, err, if◌then◌else◌, leb, length, none, ok, pos, pos_part, some, take,
  true, ℕ, ℤ, ◌+ℤ◌,
}
use nightveil.Session.Tunnel.{Session, push_upload}

pub data Method : Type 0 where
  post get other : Method

-- The parts of a request that the handlers read. `stream` is whether `X-NV-Mode` is "stream",
-- `body_fails` whether the body ends in an error and not in `io.EOF`.
pub record Request : Type 0 where
  pub method : Method
  pub stream : Bool
  pub seq : Bytes
  pub body : Bytes
  pub body_fails : Bool

-- Where `ServeHTTP` sends a request.
pub data Route : Type 0 where
  fallback : Route
  upload upload_stream download : ℕ → Route

unfoldable pub serve_http : Option ℕ → Request → Route
serve_http none r = fallback
serve_http (some id) r = elim r.method [
  | post ↦ if r.stream then upload_stream id else upload id
  | get ↦ download id
  | other ↦ fallback
]

-- `io.ReadAll` of an `io.LimitReader`: an error that stands beyond the limit is not met.
unfoldable pub read_limited : ℕ → Request → Option Bytes
read_limited limit r =
    if leb limit (length r.body)
    then some (take limit r.body)
    else if r.body_fails
    then none
    else some r.body

module _ (parse_int : Bytes → Option ℤ) where
  -- What `handleUpload` pushes, or the status with which it refuses. The limit is the server's
  -- `MaxChunkSize`, to which it adds 1024.
  unfoldable pub received : ℤ → Request → Result ℕ (ℤ × Bytes)
  unfolding read_limited
  received max_chunk_size r = elim (parse_int r.seq) [
    | none ↦ err 400
    | some seq ↦ elim (read_limited (pos_part (max_chunk_size +ℤ pos 1024)) r) [
      | none ↦ err 500
      | some body ↦ ok (seq, body)
    ]
  ]

  -- `handleUpload` on the session that `GetOrCreate` returns, up to `tryEmit`; a refused request
  -- does not get there. `none` is the panic of `PushUpload`.
  unfoldable pub handle_upload : ℤ → Session → Request → Option (Session × ℕ)
  unfolding received
  handle_upload max_chunk_size s r = elim (received max_chunk_size r) [
    | err status ↦ some (s, status)
    | ok (seq, body) ↦ elim (push_upload s seq body) [
      | none ↦ none
      | some s' ↦ some (record s' { has_upload = true }, 200)
    ]
  ]
