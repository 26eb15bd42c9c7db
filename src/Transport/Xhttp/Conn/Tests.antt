-- ===== src/Transport/Xhttp/Conn/Tests.antt =====
-- A connection with two chunks of uploads.
use nightveil.Prelude.{Bytes, List, Option, [], none, pos, some, ℕ, ◌∷◌}
use nightveil.Session.Tunnel.{Session, new_session}
use nightveil.Transport.Xhttp.Conn.{PipeError, new_split_conn, reads}
use nightveil.Transport.Xhttp.Conn.Lossless.{IsLossless, reads-IsLossless}

abbrev fresh : Session
fresh = new_session 7 0 (pos 0)

abbrev sess : Session
sess = record fresh { upload_buf = some ((pos 0, 1 ∷ 2 ∷ 3 ∷ []) ∷ (pos 1, 4 ∷ []) ∷ []) }

abbrev rooms : List (ℕ × Bytes × Option PipeError)
rooms = (2, [], none) ∷ (2, [], none) ∷ (2, [], none) ∷ []

reads-IsLossless_example : IsLossless (new_split_conn sess) (reads (new_split_conn sess) rooms)
reads-IsLossless_example = reads-IsLossless (new_split_conn sess) rooms
