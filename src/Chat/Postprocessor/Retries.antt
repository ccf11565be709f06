-- ===== src/Chat/Postprocessor/Retries.antt =====
-- The retry loop against a writer that is not connected for a while.
use tillerinobot.Prelude.{
  ℕ, zero, suc, ◌<◌, ◌≡◌, refl, Bool, Option, some, ◌∷◌, String, arith, ap, subst, sym, true, false,
  ◌∙◌,
}
use tillerinobot.Chat.Response.{message}
use tillerinobot.Chat.Event.{GameChatEvent}
use tillerinobot.Chat.Postprocessor.{
  Error, timeout, unknown, retry, ping_death, ok, err, Writer, Ending, completed, interrupted,
  Postprocessor, handle_response, after_try, after_sleep, send, sent_message, sent, retry_limit,
}

module _ (writer : Writer) (msg nick : String) where
  -- The errors after which the loop tries again, and the way to the next try: a sleep that is not
  -- interrupted, if the error asks for one.
  abbrev pub TriesAgain : Error → writer.World → writer.World → Type 0
  TriesAgain (retry millis) w v = writer.sleep millis w ≡ (false, v)
  TriesAgain (ping_death millis) w v = w ≡ v
  TriesAgain timeout w v = ⊥
  TriesAgain unknown w v = ⊥

  -- The writer refuses the message `k` times in a row, on the way from `w` to `v`.
  abbrev pub Refuses : ℕ → writer.World → writer.World → Type 0
  Refuses zero w v = w ≡ v
  Refuses (suc k) w v =
      (e : Error) × (w' w'' : writer.World) × (writer.message msg nick w ≡ (err e, w'))
      × TriesAgain e w' w''
      × Refuses k w'' v

module _ (writer : Writer) (event : GameChatEvent) (now : ℕ) (is_recommend : Bool)
    (msg : String) where
  -- The message is written, and one notice of it added.
  pub record Delivered (ping : Option ℕ) (v : writer.World) (s : Postprocessor writer)
      (x : Ending × Postprocessor writer) : Type 0 where
    pub ending : x.0 ≡ completed
    pub world : x.1.world ≡ v
    pub live : x.1.live_activity ≡ (event.nick, event.event_id, ping) ∷ s.live_activity
    pub time : x.1.last_sent_message ≡ some now

  -- It is dropped without a trace.
  pub record Dropped (v : writer.World) (s : Postprocessor writer)
      (x : Ending × Postprocessor writer) : Type 0 where
    pub ending : x.0 ≡ completed
    pub world : x.1.world ≡ v
    pub live : x.1.live_activity ≡ s.live_activity
    pub time : x.1.last_sent_message ≡ s.last_sent_message

  -- The interruption of a sleep ends the loop, and nothing is noticed.
  pub record Stopped (v : writer.World) (s : Postprocessor writer)
      (x : Ending × Postprocessor writer) : Type 0 where
    pub ending : x.0 ≡ interrupted
    pub world : x.1.world ≡ v
    pub live : x.1.live_activity ≡ s.live_activity
    pub time : x.1.last_sent_message ≡ s.last_sent_message

  -- What the loop does does not depend on how long it slept.
  send_delivers :
      (k rounds : ℕ) (s : Postprocessor writer) {v v' : writer.World} (ping : Option ℕ)
      → k < rounds
      → Refuses writer msg event.nick k s.world v
      → writer.message msg event.nick v ≡ (ok ping, v')
      → Delivered ping v' s (send writer event now is_recommend rounds (message msg) s)
  unfolding send handle_response after_try after_sleep sent_message sent
  send_delivers k zero s ping h r e = elim h [ ]
  send_delivers zero (suc rounds) s {v} ping h r e =
      let first = ap (writer.message msg event.nick) r ∙ e in
      record {
        ending = ground (arith, first);
        world = ground (arith, first);
        live = ground (arith, first);
        time = ground (arith, first);
      }
  send_delivers (suc k) (suc rounds) s ping h (retry millis, w, w', m, t, r) e =
      let d =
        send_delivers k rounds (record s { world = w'; slept = millis ∷ s.slept }) ping
          (omega arith) r e in
      rw (m, t) (record { ending = d.ending; world = d.world; live = d.live; time = d.time })
  send_delivers (suc k) (suc rounds) s {v} ping h (ping_death millis, w, w', m, t, r) e =
      let d =
        send_delivers k rounds (record s { world = w }) ping (omega arith)
          (subst (λ u. Refuses writer msg event.nick k u v) (sym t) r) e in
      rw (m) (record { ending = d.ending; world = d.world; live = d.live; time = d.time })
  send_delivers (suc k) (suc rounds) s ping h (timeout, w, w', m, t, r) e = absurd t
  send_delivers (suc k) (suc rounds) s ping h (unknown, w, w', m, t, r) e = absurd t

  send_stops :
      (k rounds : ℕ) (s : Postprocessor writer) {v v' v'' : writer.World} (millis' : ℕ)
      → k < rounds
      → Refuses writer msg event.nick k s.world v
      → writer.message msg event.nick v ≡ (err (retry millis'), v')
      → writer.sleep millis' v' ≡ (true, v'')
      → Stopped v'' s (send writer event now is_recommend rounds (message msg) s)
  unfolding send handle_response after_try after_sleep sent_message sent
  send_stops k zero s millis' h r e q = elim h [ ]
  send_stops zero (suc rounds) s {v} millis' h r e q =
      let first = ap (writer.message msg event.nick) r ∙ e in
      rw (first, q) (record { ending = refl; world = refl; live = refl; time = refl })
  send_stops (suc k) (suc rounds) s millis' h (retry millis, w, w', m, t, r) e q =
      let d =
        send_stops k rounds (record s { world = w'; slept = millis ∷ s.slept }) millis'
          (omega arith) r e q in
      rw (m, t) (record { ending = d.ending; world = d.world; live = d.live; time = d.time })
  send_stops (suc k) (suc rounds) s {v} millis' h (ping_death millis, w, w', m, t, r) e q =
      let d =
        send_stops k rounds (record s { world = w }) millis' (omega arith)
          (subst (λ u. Refuses writer msg event.nick k u v) (sym t) r) e q in
      rw (m) (record { ending = d.ending; world = d.world; live = d.live; time = d.time })
  send_stops (suc k) (suc rounds) s millis' h (timeout, w, w', m, t, r) e q = absurd t
  send_stops (suc k) (suc rounds) s millis' h (unknown, w, w', m, t, r) e q = absurd t

  send_drops :
      (rounds : ℕ) (s : Postprocessor writer) {v : writer.World}
      → Refuses writer msg event.nick rounds s.world v
      → Dropped v s (send writer event now is_recommend rounds (message msg) s)
  unfolding send handle_response after_try after_sleep sent_message
  send_drops zero s r = record { ending = refl; world = r; live = refl; time = refl }
  send_drops (suc rounds) s (retry millis, w, w', m, t, r) =
      let d = send_drops rounds (record s { world = w'; slept = millis ∷ s.slept }) r in
      rw (m, t) (record { ending = d.ending; world = d.world; live = d.live; time = d.time })
  send_drops (suc rounds) s {v} (ping_death millis, w, w', m, t, r) =
      let d =
        send_drops rounds (record s { world = w })
          (subst (λ u. Refuses writer msg event.nick rounds u v) (sym t) r) in
      rw (m) (record { ending = d.ending; world = d.world; live = d.live; time = d.time })
  send_drops (suc rounds) s (timeout, w, w', m, t, r) = absurd t
  send_drops (suc rounds) s (unknown, w, w', m, t, r) = absurd t

-- A message that the writer refuses up to nine times with "retry", without interrupting the
-- sleep behind it, or "ping death", and then takes is written once and noticed once; if it is refused ten times, it is dropped without a notice.
-- Either way the loop ends normally, in the writer's state behind the last try. If the sleep behind
-- one of the ten refusals is interrupted, the loop is, without a notice.
pub send_message_lem :
    (writer : Writer) (event : GameChatEvent) (now : ℕ) (is_recommend : Bool) (msg : String) (k : ℕ)
    (s : Postprocessor writer) (v : writer.World)
    → Refuses writer msg event.nick k s.world v
    → ((v' : writer.World) (ping : Option ℕ)
        → k < 10
        → writer.message msg event.nick v ≡ (ok ping, v')
        → Delivered writer event now is_recommend msg ping v' s (
            send writer event now is_recommend
              (retry_limit writer event now is_recommend)
              (message msg)
              s))
      × ((v' v'' : writer.World) (millis : ℕ)
          → k < 10
          → writer.message msg event.nick v ≡ (err (retry millis), v')
          → writer.sleep millis v' ≡ (true, v'')
          → Stopped writer event now is_recommend msg v'' s (
              send writer event now is_recommend
                (retry_limit writer event now is_recommend)
                (message msg)
                s))
      × (k ≡ 10
          → Dropped writer event now is_recommend msg v s (
              send writer event now is_recommend
                (retry_limit writer event now is_recommend)
                (message msg)
                s))
send_message_lem writer event now is_recommend msg k s v r = (
  λ v' ping h e. send_delivers writer event now is_recommend msg k 10 s ping h r e,
  λ v' v'' millis h e q. send_stops writer event now is_recommend msg k 10 s millis h r e q,
  λ h.
      send_drops writer event now is_recommend msg 10 s
        (subst (λ n. Refuses writer msg event.nick n s.world v) h r),
)
