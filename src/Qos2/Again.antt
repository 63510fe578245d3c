-- ===== src/Qos2/Again.antt =====
-- A PUBREL that a client repeats is answered once more and has no other effect.
use adaptive_mqtt_transmit_p.Common.{ℕ, ◌≡◌, refl, ap, [], inl, inr, ◌⊎◌, ◌≢◌, arith, List}
use adaptive_mqtt_transmit_p.Broker.Types.{ClientMsg, Rc, success, not_found}
use adaptive_mqtt_transmit_p.Broker.Util.{increment_quota}
use adaptive_mqtt_transmit_p.Qos2.{State, context_of, message_release_incoming}
use adaptive_mqtt_transmit_p.Qos2.Handlers.{
  PacketIo, send_pubcomp, answer, answer_unless, complete_pubrel,
}
use adaptive_mqtt_transmit_p.Qos2.Release.{Holds, without, release-Holds, release-again, put_Holds}

module _ (io : PacketIo) (i mid : ℕ) where
  answer-Holds :
      (ms : List ClientMsg) (x : State) → Holds i ms x.1 → Holds i ms (answer io i mid x).0.1
  unfolding answer increment_quota send_pubcomp
  answer-Holds ms x h = put_Holds i ms (send_pubcomp io (context_of i x) mid).0 x.1 h

  -- The handler answers where the message was released or was not there, and only there.
  complete_pubrel_cases :
      (x : State) (rc : Rc)
      → (message_release_incoming io.surroundings i mid x).1 ≡ rc
      → ((rc ≡ success) ⊎ (rc ≡ not_found))
          × (complete_pubrel io i mid x
              ≡ answer io i mid (message_release_incoming io.surroundings i mid x).0)
        ⊎ ((complete_pubrel io i mid x).1 ≢ success)
  unfolding complete_pubrel
  complete_pubrel_cases x success e = inl (inl refl, rw (complete_pubrel, e) refl)
  complete_pubrel_cases x not_found e = inl (inr refl, rw (complete_pubrel, e) refl)
  complete_pubrel_cases x _ e = inr (rw (complete_pubrel, e) (ground arith))

  completed-Holds :
      (x : State)
      → (context_of i x).msgs_in.queued ≡ []
      → (complete_pubrel io i mid x).1 ≡ success
      → Holds i (without mid (context_of i x).msgs_in.inflight) (complete_pubrel io i mid x).0.1
  completed-Holds x none_waits done =
      let rc = (message_release_incoming io.surroundings i mid x).1 in
      elim (complete_pubrel_cases x rc refl) [
        | inl (f, e) ↦ rw e (
            answer-Holds (without mid (context_of i x).msgs_in.inflight)
              (message_release_incoming io.surroundings i mid x).0
              (release-Holds io.surroundings i mid x rc none_waits refl f))
        | inr n ↦ ground (arith, n done)
      ]

  not_found-answer :
      (x : State)
      → message_release_incoming io.surroundings i mid x ≡ (x, not_found)
      → complete_pubrel io i mid x ≡ answer io i mid x
  unfolding complete_pubrel
  not_found-answer x e = ap (answer_unless io i mid) e

  -- If no incoming message of the client waits and handle__pubrel has succeeded, behind the reading
  -- of the packet, then a second PUBREL with the same identifier only has PUBCOMP sent again: it
  -- hands nothing on, and nothing but the connection and the receive quota of the client changes.
  pub complete_pubrel-again :
      (x : State)
      → (context_of i x).msgs_in.queued ≡ []
      → (complete_pubrel io i mid x).1 ≡ success
      → let x' = (complete_pubrel io i mid x).0 in complete_pubrel io i mid x' ≡ answer io i mid x'
  complete_pubrel-again x none_waits done =
      let x' = (complete_pubrel io i mid x).0 in
      not_found-answer x' (
        release-again io.surroundings i mid (context_of i x).msgs_in.inflight x'
          (completed-Holds x none_waits done))
