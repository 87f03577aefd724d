-- ===== src/Fraud/Consumer/Laws.antt =====
-- fraud-detection/main.py: what ends the consumer, and what does not.
use datadog_sample_finance.Shared.{
  sym, Bool-cases, ◌⊎◌, ◌⊎◌, ℕ, zero, suc, ◌≡◌, ◌≢◌, refl, inl, inr, true, [], ◌∷◌, ◌++◌, arith,
  subst, if◌then◌else◌,
}
use datadog_sample_finance.Python.{Result-cases, Result, ok, raised, Exception, keyboard_interrupt}
use datadog_sample_finance.Fraud.Consumer.{
  Stomp, Process, Phase, connecting, watching, stopped, Notice, starting, shutting_down, retrying,
  unexpected, is_broker_error, establish, watch, handle, retry_after, shut_down, step, run, main,
  body, is_interrupt,
}

module _ (B : Stomp) where
  -- The consumer goes on: no exception has left `main`, and the loop is not over.
  abbrev pub GoesOn : Result Phase → Type 0
  GoesOn (ok stopped) = ⊥
  GoesOn (ok p) = Unit
  GoesOn (raised e) = ⊥

  -- The call is never interrupted.
  abbrev pub Uninterrupted : {A : Type 0} → (B.State → Result A × B.State) → Type 0
  Uninterrupted f = (s : B.State) → (f s).0 ≢ raised keyboard_interrupt

  -- The call never raises.
  abbrev pub Quiet : {A : Type 0} → (B.State → Result A × B.State) → Type 0
  Quiet f = (s : B.State) → (e : Exception) → (f s).0 ≢ raised e

  module _ (opens : Uninterrupted B.create) (connects : Uninterrupted B.connect)
      (subscribes : Uninterrupted B.subscribe) (tests : Uninterrupted B.is_connected)
      (sleeps : (n : ℕ) → Quiet (B.sleep n)) where
    establish-raised :
        (w : Process B.State) (e : Exception)
        → (establish B w).0 ≡ raised e
        → e ≢ keyboard_interrupt
    unfolding establish
    establish-raised w e h = grind (arith, opens, connects, subscribes)

    establish-ok : (w : Process B.State) (p : Phase) → (establish B w).0 ≡ ok p → p ≡ watching
    unfolding establish
    establish-ok w p h = ground arith

    watch-raised :
        (w : Process B.State) (e : Exception) → (watch B w).0 ≡ raised e → e ≢ keyboard_interrupt
    unfolding watch
    watch-raised w e h = grind (arith, tests, sleeps)

    watch-ok : (w : Process B.State) (p : Phase) → (watch B w).0 ≡ ok p → p ≢ stopped
    unfolding watch
    watch-ok w p h = ground arith

    handle-GoesOn :
        (e : Exception) (w : Process B.State) → e ≢ keyboard_interrupt → GoesOn (handle B e w).0
    unfolding handle retry_after
    handle-GoesOn e w h = grind (arith, sleeps)

    step-GoesOn : (p : Phase) (w : Process B.State) → GoesOn (ok p) → GoesOn (step B p w).0
    unfolding step
    step-GoesOn connecting w g = elim (Result-cases (establish B w).0) [
      | inl (p, e) ↦ rw e (ground (arith, establish-ok w p))
      | inr (err, e) ↦
          rw e (ground (arith, establish-raised w err, handle-GoesOn err (establish B w).1))
    ]
    step-GoesOn watching w g = elim (Result-cases (watch B w).0) [
      | inl (p, e) ↦ rw e (ground (arith, watch-ok w p))
      | inr (err, e) ↦ rw e (ground (arith, watch-raised w err, handle-GoesOn err (watch B w).1))
    ]
    step-GoesOn stopped w g = absurd g

    run-GoesOn : (n : ℕ) (p : Phase) (w : Process B.State) → GoesOn (ok p) → GoesOn (run B n p w).0
    unfolding run
    run-GoesOn zero p w g = g
    run-GoesOn (suc n) p w g = elim (Result-cases (step B p w).0) [
      | inl (q, e) ↦
          ground (arith, e, run-GoesOn n q (step B p w).1 (subst GoesOn e (step-GoesOn p w g)))
      | inr (err, e) ↦ absurd (subst GoesOn e (step-GoesOn p w g))
    ]

    -- If no call is interrupted and no sleep fails, then whatever else the broker's calls raise,
    -- the consumer never ends: after any number of steps `main` is still connecting or watching.
    pub main_survives : (n : ℕ) (w : Process B.State) → GoesOn (main B n w).0
    unfolding main
    main_survives n w = run-GoesOn n connecting (record w { log = w.log ++ starting ∷ [] }) tt

  interrupt_of : (e : Exception) → is_interrupt e ≡ true → e ≡ keyboard_interrupt
  interrupt_of keyboard_interrupt h = refl
  interrupt_of _ h = ground (arith, h)

  handle_ends :
      (e : Exception) (w : Process B.State)
      → (GoesOn (handle B e w).0 → ⊥)
      → (e ≡ keyboard_interrupt) ⊎ ((e' : Exception) × ((B.sleep 5 w.stomp).0 ≡ raised e'))
  unfolding handle retry_after
  handle_ends e w h = elim (Result-cases (B.sleep 5 w.stomp).0) [
    | inr (e', s) ↦ inr (e', s)
    | inl (u, s) ↦ elim (Bool-cases (is_interrupt e)) [
      | inl b ↦ inl (interrupt_of e b)
      | inr b ↦
          let goes : (handle B e w).0 ≡ ok connecting = ground (arith, b, s) in
          absurd (h (subst GoesOn (sym goes) tt))
    ]
  ]

  body_goes :
      (p q : Phase) (w : Process B.State) → GoesOn (ok p) → (body B p w).0 ≡ ok q → GoesOn (ok q)
  unfolding establish watch
  body_goes connecting q w going b =
      let e : q ≡ watching = ground (arith, b) in subst (λ x. GoesOn (ok x)) (sym e) tt
  body_goes watching connecting w going b = tt
  body_goes watching watching w going b = tt
  body_goes watching stopped w going b = ground (arith, b)
  body_goes stopped q w going b = absurd going

  -- Where the loops end, be it with `main` or by an exception that leaves it, the `try` block raised
  -- a KeyboardInterrupt, or it raised another exception and the pause after that one raised.
  pub step_stops :
      (p : Phase) (w : Process B.State)
      → GoesOn (ok p)
      → (GoesOn (step B p w).0 → ⊥)
      → (e : Exception) × ((body B p w).0 ≡ raised e)
        × ((e ≡ keyboard_interrupt)
            ⊎ ((e' : Exception) × ((B.sleep 5 (body B p w).1.stomp).0 ≡ raised e')))
  unfolding step
  step_stops p w going h = elim (Result-cases (body B p w).0) [
    | inl (q, b) ↦
        let same : (step B p w).0 ≡ ok q = ground (arith, b) in
        absurd (h (subst GoesOn (sym same) (body_goes p q w going b)))
    | inr (e, b) ↦
        let same : (step B p w).0 ≡ (handle B e (body B p w).1).0 = ground (arith, b) in
        (e, b, handle_ends e (body B p w).1 (λ g. h (subst GoesOn (sym same) g)))
  ]

  -- An interrupt of the `try` block, while `conn` is connected and its disconnect succeeds: the
  -- shutdown is logged, the connection is disconnected, and the loops are over.
  pub step_shuts_down :
      (p : Phase) (w w' : Process B.State) (s s' : B.State)
      → body B p w ≡ (raised keyboard_interrupt, w')
      → w'.has_conn ≡ true
      → B.is_connected w'.stomp ≡ (ok true, s)
      → B.disconnect s ≡ (ok tt, s')
      → step B p w ≡ (ok stopped, record w' { stomp = s'; log = w'.log ++ shutting_down ∷ [] })
  unfolding step handle shut_down
  step_shuts_down p w w' s s' h known alive closed = rw h (ground arith)

  -- What a retry logs.
  abbrev pause_notice : Exception → Notice
  pause_notice e = if is_broker_error e then retrying else unexpected

  -- An interrupt of the pause that follows another exception leaves `main` as it is: it is not
  -- caught, the shutdown is not logged, and the connection is not disconnected.
  pub step_interrupted_pause :
      (p : Phase) (w w' : Process B.State) (e : Exception) (s : B.State)
      → body B p w ≡ (raised e, w')
      → e ≢ keyboard_interrupt
      → B.sleep 5 w'.stomp ≡ (raised keyboard_interrupt, s)
      → (n : Notice) × (n ≢ shutting_down)
        × (step B p w
            ≡ (raised keyboard_interrupt, record w' { stomp = s; log = w'.log ++ n ∷ [] }))
  unfolding step handle retry_after
  step_interrupted_pause p w w' e s h other woken =
      (pause_notice e, ground arith, rw h (ground arith))
