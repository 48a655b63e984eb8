-- ===== src/Server/Lifecycle/Opening.antt =====
-- What `Open` does.
use cruiser.Base.{
  true, false, none, ◌==◌, is_some, ok, err, panic, non_empty_listener, ◌≡◌, ◌≢◌, arith,
}
use cruiser.Base.Run.{and_then-ok}
use cruiser.Server.Lifecycle.{Net, Server, serving, listen, serve, open_server, is_http2}

module _ {N : Net} where
  -- A server that is open, and what was left as it was.
  pub record IsOpen (s t : Server N) : Type 0 where
    pub listening : is_some t.listener ≡ true
    pub answering : is_some t.http_server ≡ true
    pub serves : t.close_channel ≡ serving
    pub protocol : t.listener_protocol ≡ s.listener_protocol
    pub address : t.listener_address ≡ s.listener_address
    pub config : t.tls_config ≡ s.tls_config
    pub handler : t.http_handler ≡ s.http_handler

  -- What `Open` needs of the server that it is called on.
  pub record IsReady (s : Server N) : Type 0 where
    pub address : (s.listener_address == "") ≡ false
    pub config : is_some s.tls_config ≡ true
    pub new_listener : s.listener ≡ none
    pub new_server : s.http_server ≡ none
    pub handler : is_some s.http_handler ≡ true

  -- A listen that succeeds sets the listener, and nothing else.
  listen-ok :
      (s : Server N)
      → (listen s).1 ≡ ok tt
      → ((s.listener_address == "") ≡ false)
        × (is_some s.tls_config ≡ true)
        × (s.listener ≡ none)
        × (is_some (listen s).0.listener ≡ true)
        × ((listen s).0 ≡ record s { listener = (listen s).0.listener })
  unfolding listen
  listen-ok s h = ground arith

  serve-ok :
      (s : Server N)
      → (serve s).1 ≡ ok tt
      → (s.http_server ≡ none)
        × (is_some s.http_handler ≡ true)
        × (is_some (serve s).0.http_server ≡ true)
        × ((serve s).0
            ≡ record s { http_server = (serve s).0.http_server; close_channel = serving })
  unfolding serve
  serve-ok s h = ground arith

  open_server-ok :
      (s : Server N)
      → (open_server s).1 ≡ ok tt
      → ((listen s).1 ≡ ok tt)
        × ((serve (listen s).0).1 ≡ ok tt)
        × (open_server s ≡ serve (listen s).0)
  unfolding open_server
  open_server-ok s h = and_then-ok (listen s) (λ _. serve) h

  -- If `Open` succeeds then the server was ready for it: it had an address, a TLS function, a
  -- handler, and neither a listener nor an HTTP server. It then has both, the goroutine that
  -- serves is started, and what was configured is as it was.
  pub open_server-IsOpen :
      (s : Server N) → (open_server s).1 ≡ ok tt → IsReady s × IsOpen s (open_server s).0
  open_server-IsOpen s h =
      let (p, q, same) = open_server-ok s h in
      let a = listen-ok s p in let b = serve-ok (listen s).0 q in ground arith

  -- A server without a TLS function, for a protocol other than HTTP2, panics in `Open`: the
  -- function is called although it is nil.
  pub open_server_panics :
      (s : Server N)
      → (s.listener_address == "") ≡ false
      → is_http2 s.listener_protocol ≡ false
      → s.tls_config ≡ none
      → s.listener ≡ none
      → open_server s ≡ (s, panic)
  unfolding open_server listen
  open_server_panics s a p c l = ground arith

  listening_refused :
      (t : Server N)
      → (t.listener_address == "") ≡ false
      → is_some t.tls_config ≡ true
      → is_some t.listener ≡ true
      → open_server t ≡ (t, err non_empty_listener)
  unfolding open_server listen
  listening_refused t a c l = ground arith

  -- After an `Open` that succeeded a second one is refused with ErrNonEmptyListener, and changes
  -- nothing.
  pub reopen_refused :
      (s : Server N)
      → (open_server s).1 ≡ ok tt
      → open_server (open_server s).0 ≡ ((open_server s).0, err non_empty_listener)
  reopen_refused s h =
      let (ready, opened) = open_server-IsOpen s h in
      listening_refused (open_server s).0 (rw opened.address ready.address)
        (rw opened.config ready.config) opened.listening

  -- An `Open` that does not succeed starts no goroutine.
  pub open_server_starts_nothing :
      (s : Server N) → (open_server s).1 ≢ ok tt → (open_server s).0.close_channel ≡ s.close_channel
  unfolding open_server listen serve
  open_server_starts_nothing s h = ground arith
