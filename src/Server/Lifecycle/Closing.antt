-- ===== src/Server/Lifecycle/Closing.antt =====
-- What `Close` does, and runs of `Open` and `Close`.
use cruiser.Base.{
  true, Option, none, some, is_some, Outcome, ok, err, panic, Error, server_closed,
  deadline_exceeded, ◌≡◌, ◌≢◌, refl, arith, inl, ◌⊎◌, ◌∙◌,
}
use cruiser.Server.Lifecycle.{Net, Server, idle, serving, closed, open_server, close_server}
use cruiser.Server.Lifecycle.Opening.{open_server-IsOpen, open_server_starts_nothing}

-- What `Close` makes of the error that `Serve` returned.
abbrev pub close_result : Error → Outcome (Unit {0})
close_result server_closed = ok tt
close_result e = err e

module _ {N : Net} where
  close_serving :
      (t : Server N) (shut forced : Option Error) (served : Error)
      → is_some t.http_server ≡ true
      → t.close_channel ≡ serving
      → (shut ≡ none) ⊎ ((shut ≡ some deadline_exceeded) × (forced ≡ none))
      → close_server shut forced served t
        ≡ (record t { close_channel = closed }, some (close_result served))
  unfolding close_server
  close_serving t shut forced served m c e = ground arith

  close_closed :
      (t : Server N) (forced : Option Error) (served : Error)
      → is_some t.http_server ≡ true
      → t.close_channel ≡ closed
      → close_server none forced served t ≡ (t, some panic)
  unfolding close_server
  close_closed t forced served m c = ground arith

  close_idle :
      (t : Server N) (forced : Option Error) (served : Error)
      → is_some t.http_server ≡ true
      → t.close_channel ≡ idle
      → close_server none forced served t ≡ (t, none)
  unfolding close_server
  close_idle t forced served m c = ground arith

  -- `Close` behind an `Open` that succeeded, where `Shutdown` succeeds, or runs into its deadline
  -- and the server is then closed by force: it ends, closes the channel, and returns no error if
  -- `Serve` ended with ErrServerClosed and the error of `Serve` otherwise.
  pub close-open :
      (s : Server N) (shut forced : Option Error) (served : Error)
      → (open_server s).1 ≡ ok tt
      → (shut ≡ none) ⊎ ((shut ≡ some deadline_exceeded) × (forced ≡ none))
      → close_server shut forced served (open_server s).0
        ≡ (record (open_server s).0 { close_channel = closed }, some (close_result served))
  close-open s shut forced served h e =
      let (ready, opened) = open_server-IsOpen s h in
      close_serving (open_server s).0 shut forced served opened.answering opened.serves e

  -- A second `Close` whose `Shutdown` succeeds panics: it closes the channel again.
  pub close_twice_panics :
      (s : Server N) (forced again : Option Error) (served : Error)
      → (open_server s).1 ≡ ok tt
      → (close_server none again served (close_server none forced served (open_server s).0).0).1
        ≡ some panic
  close_twice_panics s forced again served h =
      let (ready, opened) = open_server-IsOpen s h in
      rw (close-open s none forced served h (inl refl)) (
        rw (
          close_closed (record (open_server s).0 { close_channel = closed }) again served
            opened.answering refl))

  -- If `Open` got as far as making the HTTP server and then failed, as it does where HTTP/2 cannot
  -- be configured, then a `Close` whose `Shutdown` succeeds waits for ever.
  pub close_waits :
      (s : Server N) (forced : Option Error) (served : Error)
      → s.close_channel ≡ idle
      → (open_server s).1 ≢ ok tt
      → is_some (open_server s).0.http_server ≡ true
      → close_server none forced served (open_server s).0 ≡ ((open_server s).0, none)
  close_waits s forced served idle_channel h made =
      close_idle (open_server s).0 forced served made
        (open_server_starts_nothing s h ∙ idle_channel)
