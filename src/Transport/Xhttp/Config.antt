-- ===== src/Transport/Xhttp/Config.antt =====
-- internal/transport/xhttp/config.go: the configuration and its defaults.
use nightveil.Prelude.{Bytes, [], codes, if◌then◌else◌, leb_ℤ, pos, ℕ, ℤ, ◌*◌, ◌++◌, ◌∷◌}

pub record Config : Type 0 where
  pub path_prefix : Bytes
  pub upload_path : Bytes
  pub download_path : Bytes
  pub session_key_name : Bytes
  pub max_chunk_size : ℤ
  pub session_timeout : ℤ
  pub download_buffer_bytes : ℤ
  pub upload_mode : Bytes

abbrev pub or_text : Bytes → Bytes → Bytes
or_text [] d = d
or_text (c ∷ s) d = c ∷ s

abbrev pub or_default : ℤ → ℕ → ℤ
or_default n d = if leb_ℤ n (pos 0) then pos d else n

unfoldable pub defaults : Config → Config
defaults c = record {
  path_prefix = or_text c.path_prefix (codes "/api");
  upload_path = or_text c.upload_path (codes "/u");
  download_path = or_text c.download_path (codes "/d");
  session_key_name = or_text c.session_key_name (codes "sid");
  max_chunk_size = or_default c.max_chunk_size 14_336;
  session_timeout = or_default c.session_timeout 30;
  download_buffer_bytes = or_default c.download_buffer_bytes (4 * 1024 * 1024);
  upload_mode = or_text c.upload_mode (codes "auto");
}

unfoldable pub full_upload_path : Config → Bytes
full_upload_path c = c.path_prefix ++ c.upload_path

unfoldable pub full_download_path : Config → Bytes
full_download_path c = c.path_prefix ++ c.download_path
