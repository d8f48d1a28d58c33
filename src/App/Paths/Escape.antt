-- ===== src/App/Paths/Escape.antt =====
-- app/src/transfer.rs: where a download goes.
use m_kestrel.Prelude.{◌∷◌, Text, codes, ◌≡◌, refl, strip_prefix-append, starts_with}
use m_kestrel.Ui.Enqueue.{download_path}
use m_kestrel.App.Paths.{resolve_local}

-- A remote entry whose name starts with a slash is downloaded to that absolute path, wherever the
-- download directory is.
pub resolve_local_absolute :
    (downloads rest : Text) → resolve_local downloads (download_path (b'/' ∷ rest)) ≡ b'/' ∷ rest
unfolding resolve_local starts_with
resolve_local_absolute downloads rest =
    rw (strip_prefix-append (codes "/Downloads/") (b'/' ∷ rest), resolve_local) refl
