-- ===== src/Forward/Router.antt =====
-- src/forward/router.rs, and the check of the routes' service names in src/cli.rs.
pub mod Matching
pub mod Delivery
use otel_logger.Prelude.{
  ℕ, zero, suc, ◌+◌, ◌-◌, ◌%◌, ◌^◌, ◌≡◌, Option, none, some, List, [], ◌∷◌, Bool, true, false, ◌==◌,
  ◌||◌, if◌then◌else◌, bytes_of, bytes_eq, update, map, u64_max, Result, ok, err,
}
use otel_logger.Otlp.{Entry, Text, Resource, string_attr}
use otel_logger.Channel.{Channel, TrySend, sent, full, closed}

pub data ProxySignal : Type 0 where
  logs traces metrics : ProxySignal

-- `TelemetryRecord` and `ExportRequest`: a signal's entries.
pub data TelemetryRecord (D L T M : Type 0) : Type 0 where
  of_logs : List (Entry D L) → TelemetryRecord D L T M
  of_traces : List (Entry D T) → TelemetryRecord D L T M
  of_metrics : List (Entry D M) → TelemetryRecord D L T M

pub record ProxyRoute : Type 0 where
  pub name : Text
  pub service_names : List Text
  pub signals : List ProxySignal

-- `HashMap<String, usize>`
abbrev pub Matcher : Type 0
Matcher = Text → Option ℕ

-- `usize::MAX`
abbrev pub no_index : ℕ
no_index = u64_max

unfoldable pub insert_names : ℕ → List Text → Matcher → Matcher
insert_names i [] m = m
insert_names i (sn ∷ names) m = insert_names i names (update m sn (some i))

-- The loop of `ProxyRouter::new` over the routes of the lanes, from an index.
unfoldable pub build : ℕ → List ProxyRoute → Matcher → Matcher
build i [] m = m
build i (route ∷ routes) m = build (i + 1) routes (insert_names i route.service_names m)

unfoldable pub matcher_of : List ProxyRoute → Matcher
matcher_of routes = build 0 routes (λ s. none)

unfoldable pub or_empty : Option Text → Text
or_empty none = []
or_empty (some s) = s

unfoldable pub same_signal : ProxySignal → ProxySignal → Bool
same_signal logs logs = true
same_signal traces traces = true
same_signal metrics metrics = true
same_signal _ _ = false

unfoldable pub accepts : List ProxySignal → ProxySignal → Bool
accepts [] signal = false
accepts (s ∷ ss) signal = same_signal s signal || accepts ss signal

-- `ProxyRoute::accepts_signal`
unfoldable pub accepts_signal : ProxyRoute → ProxySignal → Bool
accepts_signal route signal = accepts route.signals signal

unfoldable pub first_some : Option ℕ → ℕ → ℕ
first_some (some i) rest = i
first_some none rest = rest

unfoldable pub first_index : Matcher → List Text → ℕ
first_index m [] = no_index
first_index m (s ∷ names) = first_some (m s) (first_index m names)

unfoldable pub lane_index : Matcher → ProxyRoute → ℕ
lane_index m route = first_index m route.service_names

unfoldable pub is_index : Option ℕ → ℕ → Bool
is_index none lane = false
is_index (some i) lane = i == lane

module _ {D : Type 0} where
  unfoldable pub extract_service_name : Option (Resource D) → Text
  extract_service_name none = []
  extract_service_name (some r) = or_empty (string_attr r.attributes (bytes_of "service.name"))

  unfoldable pub service_name_matches_lane : Option (Resource D) → Matcher → ProxyRoute → Bool
  service_name_matches_lane resource m route =
      is_index (m (extract_service_name resource)) (lane_index m route)

  module _ {P : Type 0} where
    -- `iter().filter(…).cloned().collect()`
    unfoldable pub matching : Matcher → ProxyRoute → List (Entry D P) → List (Entry D P)
    matching m route [] = []
    matching m route (e ∷ es) =
        let rest = matching m route es in
        if service_name_matches_lane e.resource m route then e ∷ rest else rest

    unfoldable pub non_empty : List (Entry D P) → Option (List (Entry D P))
    non_empty [] = none
    non_empty (e ∷ es) = some (e ∷ es)

    -- A route with no service name has no lane to send on.
    unfoldable pub filter_entries :
        List Text → Matcher → ProxyRoute → List (Entry D P) → Option (List (Entry D P))
    filter_entries [] m route es = none
    filter_entries (s ∷ names) m route es = non_empty (matching m route es)

module _ {D L T M : Type 0} where
  unfoldable pub signal : TelemetryRecord D L T M → ProxySignal
  signal (of_logs es) = logs
  signal (of_traces es) = traces
  signal (of_metrics es) = metrics

  unfoldable pub filter_logs :
      List (Entry D L) → Matcher → ProxyRoute → Option (TelemetryRecord D L T M)
  filter_logs req m route = elim (filter_entries route.service_names m route req) [
    | none ↦ none
    | some es ↦ some (of_logs es)
  ]

  unfoldable pub filter_traces :
      List (Entry D T) → Matcher → ProxyRoute → Option (TelemetryRecord D L T M)
  filter_traces req m route = elim (filter_entries route.service_names m route req) [
    | none ↦ none
    | some es ↦ some (of_traces es)
  ]

  unfoldable pub filter_metrics :
      List (Entry D M) → Matcher → ProxyRoute → Option (TelemetryRecord D L T M)
  filter_metrics req m route = elim (filter_entries route.service_names m route req) [
    | none ↦ none
    | some es ↦ some (of_metrics es)
  ]

  -- The `match record` of `notify`.
  unfoldable pub filter_record :
      TelemetryRecord D L T M → Matcher → ProxyRoute → Option (TelemetryRecord D L T M)
  filter_record (of_logs req) m route = filter_logs req m route
  filter_record (of_traces req) m route = filter_traces req m route
  filter_record (of_metrics req) m route = filter_metrics req m route

  module _ (ch : Channel (TelemetryRecord D L T M)) where
    pub record RouteLane : Type 0 where
      pub route : ProxyRoute
      pub sender : ch.Chan
      pub dropped_total : ℕ

    unfoldable pub on_sent : TrySend ch.Chan → RouteLane → RouteLane
    on_sent (sent tx) lane = record lane { sender = tx }
    on_sent full lane = record lane { dropped_total = (lane.dropped_total + 1) % 2 ^ 64 }
    on_sent closed lane = record lane { dropped_total = (lane.dropped_total + 1) % 2 ^ 64 }

    unfoldable pub send_filtered : Option (TelemetryRecord D L T M) → RouteLane → RouteLane
    send_filtered none lane = lane
    send_filtered (some request) lane = on_sent (ch.try_send request lane.sender) lane

    unfoldable pub notify_lane : TelemetryRecord D L T M → Matcher → RouteLane → RouteLane
    notify_lane rec m lane =
        if accepts_signal lane.route (signal rec)
        then send_filtered (filter_record rec m lane.route) lane
        else lane

    unfoldable pub routes_of : List RouteLane → List ProxyRoute
    routes_of [] = []
    routes_of (lane ∷ lanes) = lane.route ∷ routes_of lanes

    -- `ProxyRouter::notify`, with the matcher that `ProxyRouter::new` built.
    unfoldable pub notify : TelemetryRecord D L T M → List RouteLane → List RouteLane
    notify rec lanes = map (notify_lane rec (matcher_of (routes_of lanes))) lanes

-- The check of `resolve_proxy_settings`: no service name is empty, or claimed twice.
pub data RouteError : Type 0 where
  empty_name : RouteError
  claimed_twice : Text → RouteError

unfoldable pub check_names : List Text → (Text → Bool) → Result RouteError (Text → Bool)
check_names [] seen = ok seen
check_names ([] ∷ names) seen = err empty_name
check_names (svc ∷ names) seen =
    let rest = check_names names (update seen svc true) in
    if seen svc then err (claimed_twice svc) else rest

unfoldable pub check_from : List ProxyRoute → (Text → Bool) → Result RouteError (Text → Bool)
check_from [] seen = ok seen
check_from (route ∷ routes) seen = elim (check_names route.service_names seen) [
  | err e ↦ err e
  | ok seen' ↦ check_from routes seen'
]

unfoldable pub check_services : List ProxyRoute → Result RouteError (Text → Bool)
check_services routes = check_from routes (λ s. false)
