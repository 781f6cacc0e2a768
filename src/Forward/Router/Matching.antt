-- ===== src/Forward/Router/Matching.antt =====
-- Routes that the settings accept share no service name, so a resource goes to the one route that
-- names its service.
use otel_logger.Prelude.{
  ℕ, zero, suc, ◌+◌, ◌≤◌, ◌≡◌, refl, ap, ◌∙◌, inl, inr, Option, none, some, List, [], ◌∷◌, Bool,
  true, false, ◌==◌, ◌||◌, if◌then◌else◌, bytes_eq, bytes_eq_refl, eq_of_bytes_eq, update,
  get_elem?, Bool-cases, Option-cases, Result-cases, ok, arith,
}
use otel_logger.Otlp.{Entry, Text, Resource}
use otel_logger.Forward.Router.{
  ProxyRoute, Matcher, matching, non_empty, filter_entries, insert_names, build, matcher_of,
  first_some, first_index, lane_index, is_index, extract_service_name, service_name_matches_lane,
  check_names, check_from, check_services,
}

unfoldable pub contains : List Text → Text → Bool
contains [] s = false
contains (n ∷ names) s = bytes_eq n s || contains names s

abbrev pub names_service : ProxyRoute → Text → Bool
names_service route s = contains route.service_names s

unfoldable pub claimed : List ProxyRoute → Text → Bool
claimed [] s = false
claimed (r ∷ rs) s = names_service r s || claimed rs s

-- No service name is empty, and none stands in two routes.
abbrev pub IsDisjoint : List ProxyRoute → Type 0
IsDisjoint [] = Unit
IsDisjoint (r ∷ rs) =
    ((s : Text) → names_service r s ≡ true → claimed rs s ≡ false)
    × (names_service r [] ≡ false)
    × IsDisjoint rs

cons_ne_nil : (b : ℕ) (bs : List ℕ) → bytes_eq (b ∷ bs) [] ≡ false
unfolding bytes_eq
cons_ne_nil b bs = refl

check_names_ok :
    (names : List Text) (seen seen' : Text → Bool) (s : Text)
    → check_names names seen ≡ ok seen'
    → (seen' s ≡ contains names s || seen s)
      × (contains names [] ≡ false)
      × (contains names s ≡ true → seen s ≡ false)
unfolding check_names contains
check_names_ok [] seen seen' s e = ground arith
check_names_ok ([] ∷ names) seen seen' s e = cc
check_names_ok ((b ∷ bs) ∷ names) seen seen' s e = elim (Bool-cases (seen (b ∷ bs))) [
  | inl used ↦ absurd (ground arith)
  | inr fresh ↦
      let ih = check_names_ok names (update seen (b ∷ bs) true) seen' s (ground arith) in
      elim (Bool-cases (bytes_eq (b ∷ bs) s)) [
        | inl same ↦
            let e' : b ∷ bs ≡ s = eq_of_bytes_eq (b ∷ bs) s same in
            let f : seen s ≡ false = rw (← e') fresh in ground (arith, cons_ne_nil b bs)
        | inr other ↦ ground (arith, cons_ne_nil b bs)
      ]
]

-- The check goes through only if no name is empty, none stands in two routes, and none was seen.
check_from_ok :
    (routes : List ProxyRoute) (seen seen' : Text → Bool)
    → check_from routes seen ≡ ok seen'
    → IsDisjoint routes × ((s : Text) → claimed routes s ≡ true → seen s ≡ false)
unfolding check_from claimed
check_from_ok [] seen seen' e = (tt, λ s h. cc)
check_from_ok (r ∷ rs) seen seen' e = elim (Result-cases (check_names r.service_names seen)) [
  | inl (now, p) ↦
      let (rest, fresh) = check_from_ok rs now seen' (ground arith) in
      (
        (
          λ s own. elim (Bool-cases (claimed rs s)) [
            | inl taken ↦
                absurd (ground (arith, fresh s taken, check_names_ok r.service_names seen now s p))
            | inr free ↦ free
          ],
          (check_names_ok r.service_names seen now [] p).1,
          rest,
        ),
        λ s h. ground (arith, fresh s, check_names_ok r.service_names seen now s p),
      )
  | inr (x, p) ↦ absurd (ground arith)
]

check_services-IsDisjoint :
    (routes : List ProxyRoute) (seen : Text → Bool)
    → check_services routes ≡ ok seen
    → IsDisjoint routes
unfolding check_services
check_services-IsDisjoint routes seen e = (check_from_ok routes (λ s. false) seen e).0

insert_names_other :
    (i : ℕ) (names : List Text) (m : Matcher) (s : Text)
    → contains names s ≡ false
    → insert_names i names m s ≡ m s
unfolding insert_names contains
insert_names_other i [] m s h = refl
insert_names_other i (n ∷ names) m s h =
    ground (arith, insert_names_other i names (update m n (some i)) s)

insert_names_own :
    (i : ℕ) (names : List Text) (m : Matcher) (s : Text)
    → contains names s ≡ true
    → insert_names i names m s ≡ some i
unfolding insert_names contains
insert_names_own i [] m s h = cc
insert_names_own i (n ∷ names) m s h = elim (Bool-cases (contains names s)) [
  | inl later ↦ insert_names_own i names (update m n (some i)) s later
  | inr none_later ↦ ground (arith, insert_names_other i names (update m n (some i)) s none_later)
]

build_other :
    (k : ℕ) (routes : List ProxyRoute) (m : Matcher) (s : Text)
    → claimed routes s ≡ false
    → build k routes m s ≡ m s
unfolding build claimed
build_other k [] m s h = refl
build_other k (r ∷ rs) m s h = ground (
  arith,
  build_other (k + 1) rs (insert_names k r.service_names m) s,
  insert_names_other k r.service_names m s,
)

-- The route that names a service has its index in the matcher.
build_own :
    (k : ℕ) (routes : List ProxyRoute) (m : Matcher) (i : ℕ) (r : ProxyRoute) (s : Text)
    → IsDisjoint routes
    → get_elem? routes i ≡ some r
    → names_service r s ≡ true
    → build k routes m s ≡ some (k + i)
unfolding build
build_own k [] m i r s d at own = cc
build_own k (r' ∷ rs) m zero r s d at own = ground (
  arith,
  build_other (k + 1) rs (insert_names k r'.service_names m) s,
  d.0 s,
  insert_names_own k r'.service_names m s,
)
build_own k (r' ∷ rs) m (suc i) r s d at own =
    ground (arith, build_own (k + 1) rs (insert_names k r'.service_names m) i r s d.2 at own)

build_bound :
    (k : ℕ) (routes : List ProxyRoute) (m : Matcher) (j : ℕ) (s : Text)
    → IsDisjoint routes
    → m s ≡ none
    → build k routes m s ≡ some j
    → k ≤ j
unfolding build
build_bound k [] m j s d fresh e = cc
build_bound k (r ∷ rs) m j s d fresh e = elim (Bool-cases (names_service r s)) [
  | inl own ↦ ground (
    arith,
    build_other (k + 1) rs (insert_names k r.service_names m) s,
    d.0 s,
    insert_names_own k r.service_names m s,
  )
  | inr other ↦
      let n : insert_names k r.service_names m s ≡ none =
        insert_names_other k r.service_names m s other ∙ fresh in
      omega (arith, build_bound (k + 1) rs (insert_names k r.service_names m) j s d.2 n e)
]

-- And no other service has that index.
build_only :
    (k : ℕ) (routes : List ProxyRoute) (m : Matcher) (i : ℕ) (r : ProxyRoute) (s : Text)
    → IsDisjoint routes
    → get_elem? routes i ≡ some r
    → m s ≡ none
    → build k routes m s ≡ some (k + i)
    → names_service r s ≡ true
unfolding build
build_only k [] m i r s d at fresh e = cc
build_only k (r' ∷ rs) m zero r s d at fresh e = elim (Bool-cases (names_service r' s)) [
  | inl own ↦ ground arith
  | inr other ↦
      let n : insert_names k r'.service_names m s ≡ none =
        insert_names_other k r'.service_names m s other ∙ fresh in
      absurd (
        omega (arith, build_bound (k + 1) rs (insert_names k r'.service_names m) (k + 0) s d.2 n e))
]
build_only k (r' ∷ rs) m (suc i) r s d at fresh e = elim (Bool-cases (names_service r' s)) [
  | inl own ↦ absurd (
      ground (
        arith,
        build_other (k + 1) rs (insert_names k r'.service_names m) s,
        d.0 s,
        insert_names_own k r'.service_names m s,
      ))
  | inr other ↦
      let n : insert_names k r'.service_names m s ≡ none =
        insert_names_other k r'.service_names m s other ∙ fresh in
      build_only (k + 1) rs (insert_names k r'.service_names m) i r s d.2 at n (ground arith)
]

module _ (routes : List ProxyRoute) (i : ℕ) (r : ProxyRoute) (disjoint : IsDisjoint routes)
    (at : get_elem? routes i ≡ some r) where
  own_index : (s : Text) → names_service r s ≡ true → matcher_of routes s ≡ some i
  unfolding matcher_of
  own_index s h = build_own 0 routes (λ t. none) i r s disjoint at h ∙ ap some (omega arith)

  own_service : (s : Text) → matcher_of routes s ≡ some i → names_service r s ≡ true
  unfolding matcher_of
  own_service s h =
      build_only 0 routes (λ t. none) i r s disjoint at refl (h ∙ ap some (omega arith))

  lane_index_lem :
      (n : Text) (names : List Text)
      → r.service_names ≡ n ∷ names
      → lane_index (matcher_of routes) r ≡ i
  unfolding lane_index first_index first_some contains
  lane_index_lem n names e =
      let own : matcher_of routes n ≡ some i =
        own_index n (rw e (ground (arith, bytes_eq_refl n))) in
      rw (e, own)

  -- The matcher's answer, for a route that names some service.
  matches_exact :
      {D : Type 0} (n : Text) (names : List Text)
      → r.service_names ≡ n ∷ names
      → (resource : Option (Resource D))
      → service_name_matches_lane resource (matcher_of routes) r
        ≡ names_service r (extract_service_name resource)
  unfolding service_name_matches_lane is_index
  matches_exact n names e resource =
      let s = extract_service_name resource in
      elim (Bool-cases (names_service r s)) [
        | inl own ↦ rw (own_index s own, lane_index_lem n names e, own, is_index) (ground arith)
        | inr other ↦ elim (Option-cases (matcher_of routes s)) [
          | inl missing ↦ rw (missing, other)
          | inr (j, there) ↦ elim (Bool-cases (j == i)) [
            | inl same ↦
                let p : j ≡ i = ground arith in
                absurd (ground (arith, own_service s (there ∙ ap some p)))
            | inr differs ↦ rw (there, lane_index_lem n names e, other) differs
          ]
        ]
      ]

-- The entries whose service the route names.
abbrev pub named_entries : {D P : Type 0} → ProxyRoute → List (Entry D P) → List (Entry D P)
named_entries r [] = []
named_entries r (e ∷ es) =
    let rest = named_entries r es in
    if names_service r (extract_service_name e.resource) then e ∷ rest else rest

named_entries_none :
    {D P : Type 0} (r : ProxyRoute) (es : List (Entry D P))
    → r.service_names ≡ []
    → named_entries r es ≡ []
unfolding contains
named_entries_none r [] h = refl
named_entries_none r (e ∷ es) h = rw h (named_entries_none r es h)

matching_exact :
    {D P : Type 0} (m : Matcher) (r : ProxyRoute) (es : List (Entry D P))
    → ((resource : Option (Resource D))
        → service_name_matches_lane resource m r ≡ names_service r (extract_service_name resource))
    → matching m r es ≡ named_entries r es
unfolding matching
matching_exact m r [] h = refl
matching_exact m r (e ∷ es) h = rw (h e.resource, matching_exact m r es h)

-- For routes that the settings accept, what a route's filter keeps of a request is exactly the
-- entries whose service the route names, in their order; with none there is no request to send.
pub filter_entries_exact :
    {D P : Type 0} (routes : List ProxyRoute) (seen : Text → Bool) (i : ℕ) (r : ProxyRoute)
    (es : List (Entry D P))
    → check_services routes ≡ ok seen
    → get_elem? routes i ≡ some r
    → filter_entries r.service_names (matcher_of routes) r es ≡ non_empty (named_entries r es)
unfolding filter_entries
filter_entries_exact routes seen i r es accepted at = by_names r.service_names refl
  where
    by_names :
        (names : List Text)
        → r.service_names ≡ names
        → filter_entries names (matcher_of routes) r es ≡ non_empty (named_entries r es)
    by_names [] e = rw (named_entries_none r es e) (unfold non_empty in refl)
    by_names (n ∷ names) e = ap non_empty (
        matching_exact (matcher_of routes) r es
          (matches_exact routes i r (check_services-IsDisjoint routes seen accepted) at n names e))

-- For routes that the settings accept, no service is named by two of them.
pub one_route :
    (routes : List ProxyRoute) (seen : Text → Bool) (i j : ℕ) (r r' : ProxyRoute) (s : Text)
    → check_services routes ≡ ok seen
    → get_elem? routes i ≡ some r
    → get_elem? routes j ≡ some r'
    → names_service r s ≡ true
    → names_service r' s ≡ true
    → i ≡ j
one_route routes seen i j r r' s accepted at at' own own' =
    let d = check_services-IsDisjoint routes seen accepted in
    ground (arith, own_index routes i r d at s own, own_index routes j r' d at' s own')
