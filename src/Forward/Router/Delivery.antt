-- ===== src/Forward/Router/Delivery.antt =====
-- A batch for a route is queued or counted as dropped.
use otel_logger.Prelude.{
  ◌+◌, ◌%◌, ◌^◌, ◌≡◌, ◌⊎◌, inl, inr, refl, none, some, [], ◌∷◌, ◌++◌, Bool, true, false,
  Option-cases,
}
use otel_logger.Channel.{Channel, TrySend, sent, full, closed}
use otel_logger.Forward.Router.{
  TelemetryRecord, Matcher, accepts_signal, signal, filter_record, RouteLane, on_sent,
  send_filtered, notify_lane,
}

module _ {D L T M : Type 0} (ch : Channel (TelemetryRecord D L T M)) where
  -- The lane has one more request in its queue, or one more dropped.
  abbrev pub Queued : TelemetryRecord D L T M → RouteLane ch → RouteLane ch → Type 0
  Queued request before after =
      (ch.contents after.sender ≡ ch.contents before.sender ++ (request ∷ []))
      × (after.dropped_total ≡ before.dropped_total)

  abbrev pub Dropped : RouteLane ch → RouteLane ch → Type 0
  Dropped before after =
      (after.sender ≡ before.sender) × (after.dropped_total ≡ (before.dropped_total + 1) % 2 ^ 64)

  on_sent_lem :
      (request : TelemetryRecord D L T M) (r : TrySend ch.Chan) (lane : RouteLane ch)
      → ch.try_send request lane.sender ≡ r
      → Queued request lane (on_sent ch r lane) ⊎ Dropped lane (on_sent ch r lane)
  unfolding on_sent
  on_sent_lem request (sent tx) lane e = inl ((ch.sent_lem request lane.sender tx e).0, refl)
  on_sent_lem request full lane e = inr (refl, refl)
  on_sent_lem request closed lane e = inr (refl, refl)

  module _ (rec : TelemetryRecord D L T M) (m : Matcher) (lane : RouteLane ch) where
    -- The route takes the signal, its filter keeps a request, and that is queued or counted.
    abbrev pub Offered : Type 0
    Offered =
        (request : TelemetryRecord D L T M) × (accepts_signal lane.route (signal rec) ≡ true)
        × (filter_record rec m lane.route ≡ some request)
        × (Queued request lane (notify_lane ch rec m lane)
            ⊎ Dropped lane (notify_lane ch rec m lane))

    -- The route takes no such signal, or its filter keeps nothing, and the lane is as it was.
    abbrev pub Skipped : Type 0
    Skipped =
        ((accepts_signal lane.route (signal rec) ≡ false) ⊎ (filter_record rec m lane.route ≡ none))
        × (notify_lane ch rec m lane ≡ lane)

    by_signal : (b : Bool) → accepts_signal lane.route (signal rec) ≡ b → Offered ⊎ Skipped
    unfolding notify_lane send_filtered
    by_signal false off = inr (inl off, rw off refl)
    by_signal true on = elim (Option-cases (filter_record rec m lane.route)) [
      | inl nothing ↦ inr (inr nothing, rw (on, nothing) refl)
      | inr (request, kept) ↦ inl (
        request,
        on,
        kept,
        rw (on, kept) (on_sent_lem request (ch.try_send request lane.sender) lane refl),
      )
    ]

    -- When the route takes the record's signal and its filter keeps a request, that request
    -- is queued or counted as dropped, and not both; when the route does not take the signal, or the
    -- filter keeps nothing, the lane is as it was.
    pub notify_lane_accounts : Offered ⊎ Skipped
    notify_lane_accounts = by_signal (accepts_signal lane.route (signal rec)) refl
