-- ===== src/Connection/Sockets.antt =====
-- The names of the sockets (`_connect`): one for each mode of a host, and a clash of two hosts.
use ansible_go.Base.{◌≡◌, ◌≢◌, sym, ap, String, ◌<>◌, true, false}
use text.Mathlib.TextLemmas.{append_assoc, append_cancel_left}
use ansible_go.Connection.{remote_socket, local_socket}

-- For one host, the local and the remote socket of a play with become differ from those of a play
-- without it.
pub local_socket-separates :
    (host : String)
    → (local_socket host true ≢ local_socket host false)
      × (remote_socket true ≢ remote_socket false)
local_socket-separates host = (
  λ e. clash (append_cancel_left host _ _ (append_cancel_left "/tmp/fastagent-local-" _ _ e)),
  λ e. cc,
)
  where
    clash : ◌≡◌ {A = String} "-root-0.8.3.sock" "-0.8.3.sock" → ⊥
    clash e = cc

-- The local socket of a host with become is that of the host whose name has `-root` behind it,
-- without become.
pub local_socket-collides :
    (host : String) → local_socket host true ≡ local_socket (host <> "-root") false
local_socket-collides host =
    ap (λ s. "/tmp/fastagent-local-" <> s) (sym (append_assoc host "-root" "-0.8.3.sock"))
