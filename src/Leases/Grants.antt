-- ===== src/Leases/Grants.antt =====
-- What an acquisition grants, and what renewal and release report.
use oneiroi.Prelude.{
  ℕ, suc, ◌+◌, ◌≡◌, refl, String, Bool, not, ◌&&◌, true, none, some, List, [], ◌∷◌, ◌==◌, string_eq,
  arith, elem, if◌then◌else◌, ltb, is_none, length, min, filter, count, All, IsUnique, All-filter,
  All-take, filter-IsUnique, take-IsUnique, length-take, length-filter, count_ext, ap, subst, sym,
  map, Bool-cases, inl, inr,
}
use oneiroi.Prelude.Dict.{
  get, put_all, IsDistinct, drop_if, holds, get-pop, get-pop_where, elem-keys_where,
}
use oneiroi.Leases.{
  Lease, LeaseStore, is_held_by, remove_expired, issue, entries, select, acquire, renew_session,
  release_gpu, release_session,
}
use oneiroi.Leases.View.{
  live, get-remove_expired, remove_expired-IsDistinct, get-issued_self, get-issued, gpu_ids-issue,
  lease_among, first_some, length-issue, renewed_entry, get-renew_all, elem-renew_all,
}

-- How many of the candidates have no live lease.
abbrev pub free : ℕ → LeaseStore → List String → ℕ
free now s candidates = count (λ j. is_none (live now s j)) candidates

length-select :
    (now requested : ℕ) (candidates : List String) (s : LeaseStore)
    → IsDistinct s
    → length (select candidates requested (remove_expired now s))
      ≡ min requested (free now s candidates)
unfolding select
length-select now requested candidates s d =
    let p = λ (j : String). is_none (get j (remove_expired now s)) in
    omega (
      arith,
      length-take requested (filter p candidates),
      length-filter p candidates,
      count_ext p (λ j. is_none (live now s j)) candidates
          (λ j. ap is_none (get-remove_expired now s j d)),
    )

pub select-IsUnique :
    (requested : ℕ) (candidates : List String) (s : LeaseStore)
    → IsUnique candidates
    → IsUnique (select candidates requested s)
unfolding select
select-IsUnique requested candidates s u =
    take-IsUnique requested _ (filter-IsUnique _ candidates u)

-- What every granted lease satisfies.
abbrev pub IsGranted : List String → ℕ → ℕ → String → LeaseStore → LeaseStore → Lease → Type 0
IsGranted candidates now ttl session_id before after l =
    (l.session_id ≡ session_id)
    × (l.expires_at_monotonic ≡ now + ttl)
    × (elem l.gpu_id candidates ≡ true)
    × (live now before l.gpu_id ≡ none)
    × (get l.gpu_id after ≡ some l)

issue-terms :
    (P : String → Type 0) (sid : String) (x : ℕ) (token : ℕ → String) (n : ℕ) (ids : List String)
    → All P ids
    → All
        (λ l. (l.session_id ≡ sid) × (l.expires_at_monotonic ≡ x) × P l.gpu_id)
        (issue sid x token n ids)
unfolding issue
issue-terms P sid x token n [] h = tt
issue-terms P sid x token n (i ∷ ids) h =
    ((refl, refl, h.0), issue-terms P sid x token (suc n) ids h.1)

granted :
    (candidates : List String) (now ttl : ℕ) (sid : String) (before after : LeaseStore)
    (ls : List Lease)
    → All
        (λ l.
          (l.session_id ≡ sid)
          × (l.expires_at_monotonic ≡ now + ttl)
          × ((elem l.gpu_id candidates ≡ true) × (live now before l.gpu_id ≡ none)))
        ls
    → All (λ l. get l.gpu_id after ≡ some l) ls
    → All (IsGranted candidates now ttl sid before after) ls
granted candidates now ttl sid before after [] h k = tt
granted candidates now ttl sid before after (l ∷ ls) h k =
    ((h.0.0, h.0.1, h.0.2.0, h.0.2.1, k.0), granted candidates now ttl sid before after ls h.1 k.1)

-- elements of a list, in a longer one
elem_later :
    (a : String) (ids js : List String)
    → All (λ j. elem j ids ≡ true) js
    → All (λ j. elem j (a ∷ ids) ≡ true) js
elem_later a ids [] h = tt
elem_later a ids (j ∷ js) h = (ground (arith, h.0), elem_later a ids js h.1)

elem-filter : (p : String → Bool) (ids : List String) → All (λ j. elem j ids ≡ true) (filter p ids)
elem-filter p [] = tt
elem-filter p (i ∷ ids) =
    let rest = elem_later i ids _ (elem-filter p ids) in
    elim (Bool-cases (p i)) [
      | inl e ↦ rw e (ground (arith, string_eq.beq_iff i i), rest)
      | inr e ↦ rw e rest
    ]

select-free :
    (now requested : ℕ) (candidates : List String) (s : LeaseStore)
    → IsDistinct s
    → All
        (λ j. (elem j candidates ≡ true) × (live now s j ≡ none))
        (select candidates requested (remove_expired now s))
unfolding select
select-free now requested candidates s d =
    All-take _ requested _
      (free_all (filter p candidates) (elem-filter p candidates) (All-filter p candidates))
  where
    p : String → Bool
    p j = is_none (get j (remove_expired now s))

    free_all :
        (js : List String)
        → All (λ j. elem j candidates ≡ true) js
        → All (λ j. p j ≡ true) js
        → All (λ j. (elem j candidates ≡ true) × (live now s j ≡ none)) js
    free_all [] c h = tt
    free_all (j ∷ js) c h =
        ((c.0, ground (arith, get-remove_expired now s j d)), free_all js c.1 h.1)

-- An acquisition over distinct candidates grants the asked number of GPUs, or all free candidates
-- if these are fewer and a partial grant is allowed; otherwise it grants none. The returned leases
-- are of different GPUs. Each of these is a candidate that had no live lease, and its new entry is
-- the returned lease, for this session and for `ttl` from now. At every GPU the store has the
-- returned lease afterwards, or, where none was returned, the live lease from before.
pub acquire_lem :
    (candidates : List String) (requested : ℕ) (session_id : String) (ttl : ℕ)
    (allow_partial : Bool) (now : ℕ) (token : ℕ → String) (s : LeaseStore)
    → IsDistinct s
    → IsUnique candidates
    → let r = acquire candidates requested session_id ttl allow_partial now token s in
      (length r.0 ≡ (
        if not allow_partial && ltb (free now s candidates) requested
        then 0
        else min requested (free now s candidates)))
      × IsUnique (map (λ l. l.gpu_id) r.0)
      × All (IsGranted candidates now ttl session_id s r.1) r.0
      × ((j : String) → get j r.1 ≡ first_some (lease_among j r.0) (live now s j))
unfolding acquire
acquire_lem candidates requested sid ttl partial now token s d u = (
  ground (
    arith,
    length-select now requested candidates s d,
    length-issue sid (now + ttl) token 0 chosen,
  ),
  ground (arith, unique),
  ground (
    arith,
    granted candidates now ttl sid s after issued
        (issue-terms (λ j. (elem j candidates ≡ true) × (live now s j ≡ none)) sid (now + ttl) token
          0 chosen (select-free now requested candidates s d))
        (get-issued_self sid (now + ttl) token 0 chosen (remove_expired now s) distinct),
  ),
  λ j. ground (
    arith,
    get-issued sid (now + ttl) token 0 chosen (remove_expired now s) j distinct,
    get-remove_expired now s j d,
  ),
)
  where
    chosen : List String
    chosen = select candidates requested (remove_expired now s)

    distinct : IsUnique chosen
    distinct = select-IsUnique requested candidates (remove_expired now s) u

    issued : List Lease
    issued = issue sid (now + ttl) token 0 chosen

    unique : IsUnique (map (λ l. l.gpu_id) issued)
    unique = subst IsUnique (sym (gpu_ids-issue sid (now + ttl) token 0 chosen)) distinct

    after : LeaseStore
    after = put_all (entries issued) (remove_expired now s)

-- Renewal extends exactly the live leases of the session, reports exactly their GPUs, keeps every
-- other live lease, and drops the expired ones.
pub renew_session_lem :
    (session_id : String) (ttl now : ℕ) (s : LeaseStore) (j : String)
    → IsDistinct s
    → let r = renew_session session_id ttl now s in
      (get j r.1 ≡ renewed_entry session_id (now + ttl) j (live now s j) (live now s j))
      × (elem j r.0 ≡ holds (is_held_by session_id) (live now s j))
unfolding renew_session
renew_session_lem sid ttl now s j d =
    let k = remove_expired-IsDistinct now s d in
    let t = remove_expired now s in
    (
      rw (get-renew_all sid (now + ttl) t t j k, get-remove_expired now s j d),
      rw (elem-renew_all sid (now + ttl) t t j k, get-remove_expired now s j d),
    )

-- A release of one GPU succeeds exactly for the session that holds its lease, and then removes that
-- entry alone. A release of a session removes exactly the session's entries and reports their GPUs.
pub release_exact :
    (gpu_id session_id : String) (s : LeaseStore) (j : String)
    → IsDistinct s
    → ((release_gpu gpu_id session_id s).0 ≡ holds (is_held_by session_id) (get gpu_id s))
      × (get j (release_gpu gpu_id session_id s).1
          ≡ (if gpu_id == j then drop_if (is_held_by session_id) (get j s) else get j s))
      × (get j (release_session session_id s).1 ≡ drop_if (is_held_by session_id) (get j s))
      × (elem j (release_session session_id s).0 ≡ holds (is_held_by session_id) (get j s))
unfolding release_gpu release_session
release_exact gpu_id sid s j d = (
  ground arith,
  ground (arith, get-pop gpu_id j s, string_eq.beq_iff gpu_id j),
  get-pop_where (is_held_by sid) j s d,
  elem-keys_where (is_held_by sid) j s d,
)
