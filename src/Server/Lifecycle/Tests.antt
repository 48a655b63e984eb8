-- ===== src/Server/Lifecycle/Tests.antt =====
-- Servers over a network in which addresses are the listeners.
use cruiser.Base.{
  if◌then◌else◌, String, true, [], ◌∷◌, Option, none, some, ◌==◌, is_some, ok, other, server_closed,
  deadline_exceeded, ◌≡◌, ◌≢◌, refl, inr,
}
use cruiser.Server.Lifecycle.{
  Net, Server, http2, closed, new_server, with_listener_protocol, with_listener_address,
  with_tls_config, with_http_handler, with_shutdown_timeout, listen, serve, open_server,
  close_server,
}
use cruiser.Server.Lifecycle.Closing.{close_result, close-open}

-- The handler "old" cannot be configured for HTTP/2.
abbrev net : Net
net = record {
  Listener = String;
  TlsConfig = String;
  Handler = String;
  tls_listen = λ a c. ok a;
  net_listen = λ a. ok a;
  h2c_handler = λ h. h;
  configure_server = λ h. if h == "old" then some (other "http2") else none;
}

abbrev server : Option (Option String) → String → Server net
server config handler = new_server (
    with_listener_address "0.0.0.0:4880"
    ∷ with_shutdown_timeout 20
    ∷ with_listener_protocol http2
    ∷ with_http_handler (some handler)
    ∷ with_tls_config config
    ∷ [])

abbrev secure : Server net
secure = server (some (some "tls")) "new"

runs : Unit {0}
unfolding open_server listen serve close_server
runs = tt

opens : (open_server secure).1 ≡ ok tt
unfolding runs
opens = refl

abbrev old : Server net
old = server (some (some "tls")) "old"

old_fails : (open_server old).1 ≢ ok tt
unfolding runs
old_fails e = cc

close-open_example :
    close_server (some deadline_exceeded) none server_closed (open_server secure).0
    ≡ (record (open_server secure).0 { close_channel = closed }, some (close_result server_closed))
close-open_example =
    close-open secure (some deadline_exceeded) none server_closed opens (inr (refl, refl))

old_made : is_some (open_server old).0.http_server ≡ true
unfolding runs
old_made = refl
