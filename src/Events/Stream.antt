-- ===== src/Events/Stream.antt =====
-- What a reader of a session's log sees.
use oneiroi.Prelude.{
  ℕ, ◌+◌, ◌≡◌, ◌≤◌, refl, String, Bool, true, List, [], ◌∷◌, ◌++◌, ◌==◌, string_eq, arith, ltb, leb,
  or_else, filter, all, append_nil, if◌then◌else◌,
}
use oneiroi.Prelude.Dict.{get, get-put}
use oneiroi.Events.{SessionEvent, SessionEventService, emit, since}

module _ {P : Type 0} where
  filter-append :
      (p : SessionEvent P → Bool) (xs ys : List (SessionEvent P))
      → filter p (xs ++ ys) ≡ filter p xs ++ filter p ys
  filter-append p [] ys = refl
  filter-append p (x ∷ xs) ys = ground (arith, filter-append p xs ys)

  -- Every event of the session's log was numbered before the service's next number.
  abbrev pub IsNumbered : String → SessionEventService P → Type 0
  IsNumbered session_id s =
      all (λ event. ltb event.id s.next_id) (or_else (get session_id s.events) []) ≡ true

  all_later :
      (n : ℕ) (events : List (SessionEvent P))
      → all (λ event. ltb event.id n) events ≡ true
      → all (λ event. ltb event.id (n + 1)) events ≡ true
  all_later n [] h = refl
  all_later n (event ∷ events) h = ground (arith, all_later n events)

  none_after :
      (n cursor : ℕ) (events : List (SessionEvent P))
      → all (λ event. ltb event.id n) events ≡ true
      → n ≤ cursor + 1
      → filter (λ event. ltb cursor event.id) events ≡ []
  none_after n cursor [] h k = refl
  none_after n cursor (event ∷ events) h k = ground (arith, none_after n cursor events)

  numbered_append :
      (n : ℕ) (events : List (SessionEvent P)) (event : SessionEvent P)
      → event.id ≡ n
      → all (λ event. ltb event.id n) events ≡ true
      → all (λ event. ltb event.id (n + 1)) (events ++ event ∷ []) ≡ true
  numbered_append n [] event q h = ground (arith, q)
  numbered_append n (x ∷ xs) event q h = ground (arith, numbered_append n xs event q)

  -- What a reader sees after an event is emitted: in the session's log, what it saw before and then
  -- the event, if its cursor is below the event's number; in the log of another session, what it saw
  -- before. The log is given to be numbered below the service's next number: so is it afterwards, and a
  -- reader whose cursor has reached the last number given out saw nothing before.
  pub since-emit :
      (session_id event_type : String) (payload : P) (now other : String) (cursor : ℕ)
      (s : SessionEventService P)
      → IsNumbered other s
      → let r = emit session_id event_type payload now s in
        (since other cursor r.1
          ≡ since other cursor s
            ++ (if session_id == other
                then (if ltb cursor s.next_id then r.0 ∷ [] else [])
                else []))
        × IsNumbered other r.1
        × (since other cursor s ≡ (if leb s.next_id (cursor + 1) then [] else since other cursor s))
  unfolding emit since
  since-emit sid t payload now other cursor s h =
      let old = or_else (get sid s.events) [] in
      let r = emit sid t payload now s in
      let g = get-put sid other (old ++ r.0 ∷ []) s.events in
      (
        ground (
          arith,
          g,
          string_eq.beq_iff sid other,
          filter-append (λ event. ltb cursor event.id) old (r.0 ∷ []),
          append_nil (filter (λ event. ltb cursor event.id) (or_else (get other s.events) [])),
        ),
        ground (
          arith,
          g,
          string_eq.beq_iff sid other,
          h,
          numbered_append s.next_id old r.0 refl,
          all_later s.next_id (or_else (get other s.events) []),
        ),
        ground (arith, none_after s.next_id cursor (or_else (get other s.events) []) h),
      )
