-- ===== src/Session/Error.antt =====
-- The errors of internal/session/manager.go.
pub data Error : Type 0 where
  session_closed offset_too_old : Error
