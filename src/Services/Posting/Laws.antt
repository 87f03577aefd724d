-- ===== src/Services/Posting/Laws.antt =====
-- transaction-service: what a new payment does, whatever the ledger and the broker do.
use datadog_sample_finance.Shared.{
  ℕ, zero, suc, ◌≤◌, ◌≡◌, refl, ◌⊎◌, inl, inr, String, List, [], ◌∷◌, ◌++◌, true, false, arith,
  Bool-cases, ap, sym,
}
use datadog_sample_finance.Shared.Json.{Fields}
use datadog_sample_finance.Services.Payments.{create_payment, put}
use datadog_sample_finance.Services.Posting.{
  Backends, Message, Process, Payload, payload_of, payment_of, message_of, send, publish, commit,
  post_payment, lacks_field,
}

abbrev pub copies : ℕ → Message → List Message
copies zero m = []
copies (suc n) m = m ∷ copies n m

append_snoc : (a b : List Message) (m : Message) → (a ++ m ∷ []) ++ b ≡ a ++ m ∷ b
append_snoc [] b m = refl
append_snoc (x ∷ a) b m = ap (λ l. x ∷ l) (append_snoc a b m)

pub append_nil : (a : List Message) → a ++ [] ≡ a
append_nil [] = refl
append_nil (x ∷ a) = ap (λ l. x ∷ l) (append_nil a)

module _ (B : Backends) where
  -- The process has sent the payload to the scoring queue, at most `n` times, and nothing else.
  abbrev pub Published : ℕ → Payload → List Message → List Message → Type 0
  Published n p before after =
      (k : ℕ) × (k ≤ n) × (after ≡ before ++ copies k (message_of B "fraud.score.queue" p))

  publish-Published :
      (n : ℕ) (p : Payload) (w : Process B.State)
      → ((publish B n p w).payments ≡ w.payments) × Published n p w.sent (publish B n p w).sent
  unfolding publish send
  publish-Published zero p w = (refl, (0, omega arith, sym (append_nil w.sent)))
  publish-Published (suc n) p w = elim (Bool-cases (B.connect w.backends).0) [
    | inl e ↦
        let m : Message = message_of B "fraud.score.queue" p in
        let w' : Process B.State = record w {
          backends = (B.connect w.backends).1;
          sent = w.sent ++ m ∷ [];
        } in
        let (kept, (k, le, q)) = publish-Published n p w' in
        (
          ground (arith, e, kept),
          (suc k, omega (arith, le), ground (arith, e, q, append_snoc w.sent (copies k m) m)),
        )
    | inr e ↦ (ground (arith, e), (0, omega arith, ground (arith, e, append_nil w.sent)))
  ]

  -- Whatever the ledger and the broker do, a new payment is answered and stored as `create_payment`
  -- says: either a field is missing, the answer is 400 and nothing is done, or the answer is 201
  -- and the payment's message was sent to the scoring queue at most `duplicate_factor` times.
  pub post_payment_lem :
      (duplicate_factor : ℕ) (fresh now : String) (body : Fields) (w : Process B.State)
      → let r = post_payment B duplicate_factor fresh now body w in
        (r.0 ≡ (create_payment fresh now body w.payments).0)
        × (r.1.payments ≡ (create_payment fresh now body w.payments).1)
        × (((r.0.status_code ≡ 400) × (r.1 ≡ w))
            ⊎ ((r.0.status_code ≡ 201)
                × Published duplicate_factor (payload_of fresh body) w.sent r.1.sent))
  unfolding post_payment create_payment
  post_payment_lem n fresh now body w = elim (Bool-cases (lacks_field body)) [
    | inl e ↦ (ground (arith, e), ground (arith, e), inl (ground (arith, e), ground (arith, e)))
    | inr e ↦
        let p : Payload = payload_of fresh body in
        let w' : Process B.State = record w {
          backends = (commit B p w.backends).1;
          payments = put p.payment_id (payment_of now p) w.payments;
        } in
        let (kept, (k, le, q)) = publish-Published n p w' in
        (
          ground (arith, e),
          ground (arith, e, kept),
          inr (ground (arith, e), (k, le, ground (arith, e, q))),
        )
  ]

  publish_all :
      (n : ℕ) (p : Payload) (w : Process B.State)
      → ((s : B.State) → (B.connect s).0 ≡ true)
      → (publish B n p w).sent ≡ w.sent ++ copies n (message_of B "fraud.score.queue" p)
  unfolding publish send
  publish_all zero p w up = sym (append_nil w.sent)
  publish_all (suc n) p w up =
      let m : Message = message_of B "fraud.score.queue" p in
      let w' : Process B.State = record w {
        backends = (B.connect w.backends).1;
        sent = w.sent ++ m ∷ [];
      } in
      ground (arith, up w.backends, publish_all n p w' up, append_snoc w.sent (copies n m) m)

  -- With a broker that always takes connections, a payment that has its fields is published exactly
  -- `duplicate_factor` times, also where the ledger fails.
  pub post_payment_published :
      (duplicate_factor : ℕ) (fresh now : String) (body : Fields) (w : Process B.State)
      → ((s : B.State) → (B.connect s).0 ≡ true)
      → lacks_field body ≡ false
      → (post_payment B duplicate_factor fresh now body w).1.sent
        ≡ w.sent
          ++ copies duplicate_factor (message_of B "fraud.score.queue" (payload_of fresh body))
  unfolding post_payment
  post_payment_published n fresh now body w up e =
      let p : Payload = payload_of fresh body in
      let w' : Process B.State = record w {
        backends = (commit B p w.backends).1;
        payments = put p.payment_id (payment_of now p) w.payments;
      } in
      ground (arith, e, publish_all n p w' up)
