-- ===== src/Nats/Ids.antt =====
-- The identities that the broker gives messages (internal/modules/natsbus/module.go).
use shiro_distributed_system.Common.{
  ◌≡◌, ◌≢◌, inl, inr, refl, sym, ap, ◌∙◌, ℕ, true, false, [], ◌∷◌, ◌++◌, Text, arith, Result-cases,
  ok,
}
use shiro_distributed_system.Common.Decimal.{
  are_digits, decimal, decimal-are_digits, decimal_injective,
}
use shiro_distributed_system.Nats.{NatsSettings, PubAck, Client, NatsState, broker_id, publish_nats}

abbrev uncons : Text → ℕ × Text
uncons [] = (0, [])
uncons (c ∷ s) = (c, s)

-- What stands after a text and a colon is no row of digits.
colon-are_digits : (s d : Text) → are_digits (s ++ b':' ∷ d) ≡ false
unfolding are_digits
colon-are_digits [] d = refl
colon-are_digits (c ∷ s) d = ground (arith, colon-are_digits s d)

not_both : true ≢ false
not_both e = cc

no_digits : (s d e : Text) → are_digits e ≡ true → e ≢ s ++ b':' ∷ d
no_digits s d e h same = absurd (not_both (sym h ∙ ap are_digits same ∙ colon-are_digits s d))

-- The last colon divides the identity.
split_last :
    (s t d e : Text)
    → are_digits d ≡ true
    → are_digits e ≡ true
    → s ++ b':' ∷ d ≡ t ++ b':' ∷ e
    → (s ≡ t) × (d ≡ e)
split_last [] [] d e hd he same = (refl, ap (λ x. (uncons x).1) same)
split_last [] (b ∷ t) d e hd he same = absurd (no_digits t e d hd (ap (λ x. (uncons x).1) same))
split_last (a ∷ s) [] d e hd he same =
    absurd (no_digits s d e he (sym (ap (λ x. (uncons x).1) same)))
split_last (a ∷ s) (b ∷ t) d e hd he same =
    let (tails, ends) = split_last s t d e hd he (ap (λ x. (uncons x).1) same) in
    let heads = ap (λ x. (uncons x).0) same in (rw (heads, tails) refl, ends)

broker_id_injective :
    (a b : PubAck) → broker_id a ≡ broker_id b → (a.stream ≡ b.stream) × (a.sequence ≡ b.sequence)
unfolding broker_id
broker_id_injective a b same =
    let (streams, numbers) =
      split_last a.stream b.stream (decimal a.sequence) (decimal b.sequence)
        (decimal-are_digits a.sequence) (decimal-are_digits b.sequence) same in
    (streams, decimal_injective a.sequence b.sequence numbers)

module _ {World : Type 0} (client : Client World) (m : NatsSettings) where
  -- A publish that returns an identity got an acknowledgement, from which the identity is made.
  publish_nats-acknowledged :
      (subject payload id broker : Text) (s : NatsState client m)
      → (publish_nats client m subject payload id s).0 ≡ ok broker
      → (a : PubAck) × ((client.publish_msg
            (record { subject = subject; payload = payload; msg_id = id })
            s.1).0
          ≡ ok a)
        × (broker ≡ broker_id a)
  unfolding publish_nats
  publish_nats-acknowledged subject payload id broker s h =
      let sent =
        client.publish_msg (record { subject = subject; payload = payload; msg_id = id }) s.1 in
      elim (Result-cases sent.0) [
        | inl (a, e) ↦ (a, e, ground (arith, h, e))
        | inr (x, e) ↦ absurd (ground (arith, h, e))
      ]

  -- Two publishes that return the same identity were acknowledged by the same stream with the same
  -- sequence number, whatever colons and digits the name of a stream has.
  pub publish_nats_injective :
      (subject subject' payload payload' id id' broker : Text) (s s' : NatsState client m)
      → (publish_nats client m subject payload id s).0 ≡ ok broker
      → (publish_nats client m subject' payload' id' s').0 ≡ ok broker
      → (a : PubAck) × (a' : PubAck) × ((client.publish_msg
            (record { subject = subject; payload = payload; msg_id = id })
            s.1).0
          ≡ ok a)
        × ((client.publish_msg
              (record { subject = subject'; payload = payload'; msg_id = id' })
              s'.1).0
            ≡ ok a')
        × (a.stream ≡ a'.stream)
        × (a.sequence ≡ a'.sequence)
  publish_nats_injective subject subject' payload payload' id id' broker s s' h h' =
      let (a, e, made) = publish_nats-acknowledged subject payload id broker s h in
      let (a', e', made') = publish_nats-acknowledged subject' payload' id' broker s' h' in
      let (streams, numbers) = broker_id_injective a a' (sym made ∙ made') in
      (a, a', e, e', streams, numbers)
