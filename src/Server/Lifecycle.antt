-- ===== src/Server/Lifecycle.antt =====
-- pkg/server/server.go, and `NewServer` with its options of pkg/server/builder.go.
pub mod Opening
pub mod Closing
mod Tests
use cruiser.Base.{
  ℕ, String, Bool, true, false, Option, none, some, ◌==◌, is_some, ◌&&◌, not, List, [], ◌∷◌,
  Outcome, ok, err, panic, Error, empty_listener_address, empty_http2_tls_config, empty_listener,
  non_empty_listener, non_empty_http_server, empty_http_handler, server_closed, deadline_exceeded,
  if◌then◌else◌,
}
use cruiser.Base.Run.{Run, pure, fail, panics, lift, modify, get, ◌>>=◌, ◌>>◌}

-- `ListenerProtocol` is an int with two named values.
pub data ListenerProtocol : Type 0 where
  http2 h2c : ListenerProtocol
  unnamed : ℕ → ListenerProtocol

abbrev pub is_http2 : ListenerProtocol → Bool
is_http2 http2 = true
is_http2 _ = false

-- What the code uses of the packages net, crypto/tls, net/http and x/net/http2.
pub record Net : Type 1 where
  pub Listener : Type 0
  pub TlsConfig : Type 0
  pub Handler : Type 0
  -- `tls.Listen("tcp", address, config)` and `net.Listen("tcp", address)`
  pub tls_listen : String → TlsConfig → Outcome Listener
  pub net_listen : String → Outcome Listener
  -- `h2c.NewHandler`
  pub h2c_handler : Handler → Handler
  -- `http2.ConfigureServer`: the error, if any
  pub configure_server : Handler → Option Error

-- The channel that `Close` waits on: no goroutine sends on it, the goroutine of `serve` sends what
-- `Serve` returns, or it is closed.
pub data CloseChannel : Type 0 where
  idle serving closed : CloseChannel

-- `tls_config` is `none` where the function is nil; the function may return a nil configuration.
-- `http_server` is the handler of the `http.Server`, which is nil in a new one.
pub record Server (N : Net) : Type 0 where
  pub listener_protocol : ListenerProtocol
  pub listener_address : String
  pub tls_config : Option (Option N.TlsConfig)
  pub listener : Option N.Listener
  pub http_server : Option (Option N.Handler)
  pub http_handler : Option N.Handler
  pub shutdown_timeout : ℕ
  pub close_channel : CloseChannel

module _ {N : Net} where
  -- `NewServer`, before its options.
  abbrev pub unset : Server N
  unset = record {
    listener_protocol = http2;
    listener_address = "";
    tls_config = none;
    listener = none;
    http_server = none;
    http_handler = none;
    shutdown_timeout = 0;
    close_channel = idle;
  }

  abbrev pub with_listener_protocol : ListenerProtocol → Server N → Server N
  with_listener_protocol p s = record s { listener_protocol = p }

  abbrev pub with_listener_address : String → Server N → Server N
  with_listener_address a s = record s { listener_address = a }

  abbrev pub with_tls_config : Option (Option N.TlsConfig) → Server N → Server N
  with_tls_config c s = record s { tls_config = c }

  abbrev pub with_http_handler : Option N.Handler → Server N → Server N
  with_http_handler h s = record s { http_handler = h }

  abbrev pub with_shutdown_timeout : ℕ → Server N → Server N
  with_shutdown_timeout t s = record s { shutdown_timeout = t }

  -- The loop over the options.
  abbrev apply_all : List (Server N → Server N) → Server N → Server N
  apply_all [] s = s
  apply_all (option ∷ options) s = apply_all options (option s)

  abbrev pub new_server : List (Server N → Server N) → Server N
  new_server options = apply_all options unset

  unfoldable pub assert_listen : Run (Server N) (Unit {0})
  assert_listen s =
      if s.listener_address == ""
      then fail empty_listener_address s
      else if is_http2 s.listener_protocol && not (is_some s.tls_config)
      then fail empty_http2_tls_config s
      else if is_some s.listener
      then fail non_empty_listener s
      else pure tt s

  abbrev set_listener : N.Listener → Run (Server N) (Unit {0})
  set_listener l = modify (λ s. record s { listener = some l })

  -- `s.tlsConfig()` panics where the function is nil.
  unfoldable pub listen : Run (Server N) (Unit {0})
  unfolding assert_listen
  listen = do
    assert_listen
    s ← get
    elim s.tls_config [
      | none ↦ panics
      | some (some config) ↦ do l ← lift (N.tls_listen s.listener_address config); set_listener l
      | some none ↦ do l ← lift (N.net_listen s.listener_address); set_listener l
    ]

  unfoldable pub assert_serve : Run (Server N) (Unit {0})
  assert_serve s =
      if is_some s.listener
      then if is_some s.http_server
        then fail non_empty_http_server s
        else if is_some s.http_handler
        then pure tt s
        else fail empty_http_handler s
      else fail empty_listener s

  -- `assertServe` has made sure that there is a handler.
  unfoldable pub serve_http2 : Run (Server N) (Unit {0})
  serve_http2 s = elim s.http_handler [
    | none ↦ panics s
    | some h ↦ elim (N.configure_server h) [
      | none ↦ pure tt (record s { http_server = some (some h) })
      | some e ↦ fail e (record s { http_server = some (some h) })
    ]
  ]

  unfoldable pub serve_h2c : Run (Server N) (Unit {0})
  serve_h2c s = elim s.http_handler [
    | none ↦ panics s
    | some h ↦ pure tt (record s { http_server = some (some (N.h2c_handler h)) })
  ]

  abbrev serve_protocol : ListenerProtocol → Run (Server N) (Unit {0})
  serve_protocol http2 = serve_http2
  serve_protocol h2c = serve_h2c
  serve_protocol (unnamed n) = pure tt

  unfoldable pub serve : Run (Server N) (Unit {0})
  unfolding assert_serve serve_http2 serve_h2c
  serve = do
    assert_serve
    modify (λ s. record s { http_server = some none })
    s ← get
    serve_protocol s.listener_protocol
    modify (λ s. record s { close_channel = serving })

  unfoldable pub open_server : Run (Server N) (Unit {0})
  open_server = do listen; serve

  -- `none`: it waits for ever. `served` is what `Serve` returned to the goroutine.
  unfoldable pub wait_close_channel : Error → Server N → Server N × Option (Outcome (Unit {0}))
  wait_close_channel served s = elim s.close_channel [
    | idle ↦ (s, none)
    | serving ↦ (
      record s { close_channel = closed },
      some (elim served [ server_closed ↦ ok tt | e ↦ err e ]),
    )
    | closed ↦ (s, some panic)
  ]

  -- `shut` is the result of `Shutdown` and `forced` that of `http.Server.Close`.
  unfoldable pub close_server :
      Option Error → Option Error → Error → Server N → Server N × Option (Outcome (Unit {0}))
  unfolding wait_close_channel
  close_server shut forced served s = elim s.http_server [
    | none ↦ (s, some (ok tt))
    | some _ ↦ elim shut [
      | none ↦ wait_close_channel served s
      | some deadline_exceeded ↦ elim forced [
        | none ↦ wait_close_channel served s
        | some e ↦ (s, some (err e))
      ]
      | some e ↦ (s, some (err e))
    ]
  ]
