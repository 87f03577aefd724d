-- ===== src/Fraud/Consumer.antt =====
-- fraud-detection/main.py, `main`: connect, subscribe, watch the connection, and reconnect. The
-- two loops are one machine: a phase is the place in the `try` block where the next call is made.
pub mod Laws
use datadog_sample_finance.Shared.{
  ℕ, zero, suc, Bool, true, false, ◌||◌, List, [], ◌∷◌, ◌++◌, if◌then◌else◌,
}
use datadog_sample_finance.Python.{
  Io, Result, ok, raised, Exception, connect_failed, not_connected, keyboard_interrupt, pure, lift,
  gets, modify, recover, ◌>>=◌, ◌>>◌,
}

-- The calls that `main` makes: each may raise, an interrupt included, as a KeyboardInterrupt can
-- arrive in any of them. `create` is `stomp.Connection(…)` with `set_listener`.
pub record Stomp : Type 1 where
  pub State : Type 0
  pub create : State → Result (Unit {0}) × State
  pub connect : State → Result (Unit {0}) × State
  pub subscribe : State → Result (Unit {0}) × State
  pub is_connected : State → Result Bool × State
  pub disconnect : State → Result (Unit {0}) × State
  pub sleep : ℕ → State → Result (Unit {0}) × State

-- The log messages of `main`.
pub data Notice : Type 0 where
  starting subscribed lost shutting_down retrying unexpected : Notice

-- The connection's surroundings, whether `conn` is not None, and the log.
pub record Process (S : Type 0) : Type 0 where
  pub stomp : S
  pub has_conn : Bool
  pub log : List Notice

-- At the head of the outer loop, at the head of the inner one, or behind the `break`.
pub data Phase : Type 0 where
  connecting watching stopped : Phase

-- The first two `except` clauses' exceptions.
abbrev pub is_broker_error : Exception → Bool
is_broker_error connect_failed = true
is_broker_error not_connected = true
is_broker_error e = false

abbrev pub is_interrupt : Exception → Bool
is_interrupt keyboard_interrupt = true
is_interrupt e = false

module _ (B : Stomp) where
  abbrev W : Type 0
  W = Process B.State

  abbrev pub notice : Notice → Io W (Unit {0})
  notice n = modify (λ w. record w { log = w.log ++ n ∷ [] })

  abbrev pub call : {A : Type 0} → (B.State → Result A × B.State) → Io W A
  call f w = let (r, s) = f w.stomp in (r, record w { stomp = s })

  abbrev connected : Bool → Io W Bool
  connected false = pure false
  connected true = call B.is_connected

  -- The `except KeyboardInterrupt` clause.
  unfoldable pub shut_down : Io W Phase
  shut_down = do
    notice shutting_down
    known ← gets (λ w. w.has_conn)
    alive ← connected known
    if alive then call B.disconnect else pure tt
    pure stopped

  -- The other two clauses.
  unfoldable pub retry_after : Notice → Io W Phase
  retry_after n = do notice n; call (B.sleep 5); pure connecting

  unfoldable pub handle : Exception → Io W Phase
  handle e =
      if is_interrupt e
      then shut_down
      else if is_broker_error e
      then retry_after retrying
      else retry_after unexpected

  -- The `try` block up to the inner loop.
  unfoldable pub establish : Io W Phase
  establish = do
    call B.create
    modify (λ w. record w { has_conn = true })
    call B.connect
    call B.subscribe
    notice subscribed
    pure watching

  -- What follows a test of the inner loop.
  abbrev after_test : Bool → Io W Phase
  after_test true = do call (B.sleep 1); pure watching
  after_test false = do notice lost; call (B.sleep 5); pure connecting

  -- One test of the inner loop.
  unfoldable pub watch : Io W Phase
  watch = do alive ← call B.is_connected; after_test alive

  abbrev pub body : Phase → Io W Phase
  body connecting = establish
  body watching = watch
  body stopped = pure stopped

  -- One step of the loops, with the `except` clauses around it.
  unfoldable pub step : Phase → Io W Phase
  step phase w = let (r, w') = body phase w in recover r (λ e. true) handle w'

  -- `n` steps of `main`.
  unfoldable pub run : ℕ → Phase → Io W Phase
  run zero phase = pure phase
  run (suc n) phase = step phase >>= run n

  unfoldable pub main : ℕ → Io W Phase
  main n = do notice starting; run n connecting
