-- ===== src/Aws/Checks.antt =====
-- pkg/providers/aws/provider.go: `HealthCheckHandlers` with its goroutines, and the provider that
-- pkg/providers/aws/builder.go makes. A step is what one goroutine does between two operations
-- that others can see. One goroutine calls `HealthCheckHandlers`, as cmd/router.go does.
pub mod Counting
pub mod Rounds
pub mod Blocking
mod Tests
use cruiser.Base.{
  ℕ, String, suc, ◌<◌, ◌≡◌, Bool, true, false, List, [], ◌∷◌, ◌++◌, Option, Error, length, eqb,
  ◌||◌, ok,
}
use cruiser.Proto.{Handler}
use cruiser.Aws.Lambda.{InvokeOutput}
use cruiser.Aws.Health.{HealthEnv, Invocations, check_handler}

-- What the options of `NewProvider` set.
pub record Config : Type 0 where
  pub dynamodb_endpoint : String
  pub health_check_interval : ℕ
  pub health_check_parallelism : ℕ

abbrev pub with_dynamodb_endpoint : String → Config → Config
with_dynamodb_endpoint endpoint c = record c { dynamodb_endpoint = endpoint }

abbrev pub with_health_check_interval : ℕ → Config → Config
with_health_check_interval interval c = record c { health_check_interval = interval }

abbrev pub with_health_check_parallelism : ℕ → Config → Config
with_health_check_parallelism parallelism c = record c { health_check_parallelism = parallelism }

abbrev apply_all : List (Config → Config) → Config → Config
apply_all [] c = c
apply_all (option ∷ options) c = apply_all options (option c)

-- `NewProvider` up to the clients: the channel has the parallelism for its capacity.
abbrev pub new_provider : List (Config → Config) → Config
new_provider options =
    apply_all options
      record { dynamodb_endpoint = ""; health_check_interval = 0; health_check_parallelism = 4 }

-- The goroutine that calls: it is in no call, or it sends on `stopHealthCheckCh`, which has no
-- buffer, before it starts the round for its handlers.
pub data Caller : Type 0 where
  free : Caller
  stopping : List Handler → Caller

-- The goroutine that a call starts: there is none, or it has returned; it sends the handlers that
-- are left on `healthCheckCh`; it has sent one and not yet started the goroutine that checks; it is
-- at `healthCheckWg.Wait()`; or at the `select`.
pub data Round : Type 0 where
  ended : Round
  sending adding : (left : List Handler) → Round
  waiting selecting : Round

-- `stop_made`: `stopHealthCheckCh` is not nil. `buffer` is that of `healthCheckCh`, and `wg` the
-- counter of the wait group. Of the goroutines that check, `receiving` wait for a handler, and
-- `checking` are the handlers of those that have one. `asked` and `checked` are those that were
-- handed to a round and those whose check has ended.
pub record Checks : Type 0 where
  pub caller : Caller
  pub stop_made : Bool
  pub round : Round
  pub buffer : List Handler
  pub wg : ℕ
  pub receiving : ℕ
  pub checking : List Handler
  pub asked : List Handler
  pub checked : List Handler

abbrev pub new_checks : Checks
new_checks = record {
  caller = free;
  stop_made = false;
  round = ended;
  buffer = [];
  wg = 0;
  receiving = 0;
  checking = [];
  asked = [];
  checked = [];
}

module _ (E : HealthEnv) (c : Config) where
  -- The first test of `HealthCheckHandlers`.
  abbrev pub ignores : List Handler → Bool
  ignores handlers = eqb (length handlers) 0 || eqb c.health_check_interval 0

  pub data Step : Checks → Checks → Type 0 where
    ignored :
        {s : Checks} (handlers : List Handler)
        → s.caller ≡ free
        → ignores handlers ≡ true
        → Step s s
    -- The first call makes the channel.
    first :
        {s : Checks} (handlers : List Handler)
        → s.caller ≡ free
        → ignores handlers ≡ false
        → s.stop_made ≡ false
        → Step s
            (record s { stop_made = true; round = sending handlers; asked = s.asked ++ handlers })
    stop :
        {s : Checks} (handlers : List Handler)
        → s.caller ≡ free
        → ignores handlers ≡ false
        → s.stop_made ≡ true
        → Step s (record s { caller = stopping handlers })
    -- The round at the `select` receives, and returns.
    stopped :
        {s : Checks} (handlers : List Handler)
        → s.caller ≡ stopping handlers
        → s.round ≡ selecting
        → Step s (record s { caller = free; round = sending handlers; asked = s.asked ++ handlers })
    -- `p.healthCheckCh <- h`
    send :
        {s : Checks} (h : Handler) (left : List Handler)
        → s.round ≡ sending (h ∷ left)
        → length s.buffer < c.health_check_parallelism
        → Step s (record s { round = adding left; buffer = s.buffer ++ h ∷ [] })
    -- A channel without a buffer hands over to a goroutine that receives.
    hand_over :
        {s : Checks} (h : Handler) (left : List Handler) (r : ℕ)
        → s.round ≡ sending (h ∷ left)
        → c.health_check_parallelism ≡ 0
        → s.receiving ≡ suc r
        → Step s (record s { round = adding left; receiving = r; checking = h ∷ s.checking })
    -- `p.healthCheckWg.Add(1)` and `go p.doHealthCheck(ctx)`
    add :
        {s : Checks} (left : List Handler)
        → s.round ≡ adding left
        → Step s (record s { round = sending left; wg = suc s.wg; receiving = suc s.receiving })
    sent : {s : Checks} → s.round ≡ sending [] → Step s (record s { round = waiting })
    -- `h := <-p.healthCheckCh`
    receive :
        {s : Checks} (h : Handler) (rest : List Handler) (r : ℕ)
        → s.buffer ≡ h ∷ rest
        → s.receiving ≡ suc r
        → Step s (record s { buffer = rest; receiving = r; checking = h ∷ s.checking })
    -- A check that does not panic, and `Done`, which panics where the counter is zero.
    check :
        {s : Checks} (before : List Handler) (h : Handler) (after : List Handler) (w : ℕ)
        (answer : Option InvokeOutput × Option Error)
        → s.checking ≡ before ++ h ∷ after
        → s.wg ≡ suc w
        → (check_handler E answer h []).1 ≡ ok tt
        → Step s (record s { wg = w; checking = before ++ after; checked = h ∷ s.checked })
    waited : {s : Checks} → s.round ≡ waiting → s.wg ≡ 0 → Step s (record s { round = selecting })
    -- `<-ctx.Done()`, and `<-time.After(p.healthCheckInterval)`
    cancelled elapsed : {s : Checks} → s.round ≡ selecting → Step s (record s { round = ended })

  pub data Steps (s : Checks) : Checks → Type 0 where
    here : Steps s s
    next : {t u : Checks} → Steps s t → Step t u → Steps s u
