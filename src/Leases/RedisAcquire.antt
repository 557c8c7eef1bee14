-- ===== src/Leases/RedisAcquire.antt =====
-- An acquisition at the Redis server grants what the store in memory grants.
use oneiroi.Prelude.{
  ℕ, suc, zero, ◌+◌, ◌-◌, ◌≤◌, ◌<◌, ◌≡◌, refl, ap, ◌∙◌, String, Bool, true, false, not, ◌&&◌,
  Option, none, some, List, [], ◌∷◌, map, string_eq, elem, ltb, is_none, length, length-map, nth,
  if◌then◌else◌, arith, filter, take, IsUnique, Option-cases, ◌⊎◌, inl, inr,
}
use oneiroi.Prelude.Dict.{get, put, put_all, IsDistinct, get-put}
use oneiroi.Leases.{Lease, LeaseStore, remove_expired, granted_lease, issue, entries, select}
use oneiroi.Leases.{acquire as acquire_in_memory}
use oneiroi.Leases.View.{live, get-remove_expired, elem-select}
use oneiroi.Leases.Grants.{select-IsUnique}
use oneiroi.Leases.Redis.{
  Server, IsServer, Codec, lease_key, choose, set_all, pairs, lease_of, acquire_script,
}
use oneiroi.Leases.RedisView.{choose_lem, get-set_all, remove_prefix-lease_key, lease_key_beq}

-- lists of keys
elem-map_key :
    (g : String) (ids : List String) → elem (lease_key g) (map lease_key ids) ≡ elem g ids
elem-map_key g [] = refl
elem-map_key g (i ∷ ids) = ground (arith, elem-map_key g ids, lease_key_beq i g)

map_key-IsUnique : (ids : List String) → IsUnique ids → IsUnique (map lease_key ids)
map_key-IsUnique [] u = tt
map_key-IsUnique (i ∷ ids) u = (elem-map_key i ids ∙ u.0, map_key-IsUnique ids u.1)

take-map : (n : ℕ) (ids : List String) → take n (map lease_key ids) ≡ map lease_key (take n ids)
take-map zero ids = refl
take-map (suc n) [] = refl
take-map (suc n) (i ∷ ids) = ap (λ ks. lease_key i ∷ ks) (take-map n ids)

filter-map :
    (p q : String → Bool) (ids : List String)
    → ((g : String) → p (lease_key g) ≡ q g)
    → filter p (map lease_key ids) ≡ map lease_key (filter q ids)
filter-map p q [] h = refl
filter-map p q (i ∷ ids) h = ground (arith, h i, filter-map p q ids h)

-- tokens given by the GPU
abbrev pub granted_to : String → ℕ → (String → String) → String → Lease
granted_to session_id expires_at token gpu_id =
    granted_lease gpu_id session_id (token (lease_key gpu_id)) expires_at

issue_later :
    (sid : String) (x : ℕ) (token : ℕ → String) (n : ℕ) (ids : List String)
    → issue sid x token (suc n) ids ≡ issue sid x (λ i. token (suc i)) n ids
unfolding issue
issue_later sid x token n [] = refl
issue_later sid x token n (i ∷ ids) =
    ap (λ ls. granted_lease i sid (token (suc n)) x ∷ ls) (issue_later sid x token (suc n) ids)

abbrev pub tokens : (String → String) → List String → ℕ → String
tokens token ids n = token (lease_key (nth "" ids n))

issue-map :
    (sid : String) (x : ℕ) (token : String → String) (ids : List String)
    → issue sid x (tokens token ids) 0 ids ≡ map (granted_to sid x token) ids
unfolding issue
issue-map sid x token [] = refl
issue-map sid x token (i ∷ ids) =
    ap (λ ls. granted_to sid x token i ∷ ls)
      (issue_later sid x (tokens token (i ∷ ids)) 0 ids ∙ issue-map sid x token ids)

get-granted :
    (sid : String) (x : ℕ) (token : String → String) (ids : List String) (g : String)
    (s : LeaseStore)
    → get g (put_all (entries (map (granted_to sid x token) ids)) s)
      ≡ (if elem g ids then some (granted_to sid x token g) else get g s)
unfolding put_all
get-granted sid x token [] g s = refl
get-granted sid x token (i ∷ ids) g s = ground (
  arith,
  get-granted sid x token ids g (put i (granted_to sid x token i) s),
  get-put i g (granted_to sid x token i) s,
  string_eq.beq_iff i g,
)

leases_map :
    (sid : String) (x : ℕ) (token : String → String) (ids : List String)
    → map (lease_of sid x) (pairs token (map lease_key ids)) ≡ map (granted_to sid x token) ids
leases_map sid x token [] = refl
leases_map sid x token (i ∷ ids) =
    ground (arith, leases_map sid x token ids, remove_prefix-lease_key i)

-- At no later time do the two stores differ: each GPU has the same session and token, or no lease.
abbrev pub shown : Codec → Option Lease → Option String
shown codec none = none
shown codec (some l) =
    some (codec.encode (record { session_id = l.session_id; fencing_token = l.fencing_token }))

module _ {S : Type 0} (server : Server S) (codec : Codec) (laws : IsServer server) where
  abbrev pub Agrees : ℕ → LeaseStore → S → Type 0
  Agrees now s r =
      (t : ℕ)
      → now ≤ t
      → (gpu_id : String) → server.get_key t (lease_key gpu_id) r ≡ shown codec (live t s gpu_id)

  module _ (now : ℕ) (s : LeaseStore) (r : S) (d : IsDistinct s) (agrees : Agrees now s r) where
    vacant :
        (g : String)
        → is_none (server.get_key now (lease_key g) r) ≡ is_none (get g (remove_expired now s))
    vacant g = rw (agrees now (omega arith) g, get-remove_expired now s g d) (go (live now s g))
      where
        go : (o : Option Lease) → is_none (shown codec o) ≡ is_none o
        go none = refl
        go (some l) = refl

    chosen_lem :
        (requested : ℕ) (ids : List String)
        → choose server codec now requested r 0 (map lease_key ids)
          ≡ map lease_key (select ids requested (remove_expired now s))
    unfolding select
    chosen_lem requested ids =
        choose_lem server codec laws now requested r 0 (map lease_key ids)
        ∙ (let q : requested - 0 ≡ requested = omega arith in
            ap (λ n. take n (filter (λ k. is_none (server.get_key now k r)) (map lease_key ids))) q)
        ∙ ap (take requested) (
            filter-map (λ k. is_none (server.get_key now k r))
              (λ g. is_none (get g (remove_expired now s))) ids vacant)
        ∙ take-map requested _

    pub later : (t : ℕ) → now ≤ t → (g : String) → live t (remove_expired now s) g ≡ live t s g
    later t l g = ground (arith, l, get-remove_expired now s g d)

    module _ (ids : List String) (requested : ℕ) (sid : String) (ttl : ℕ) (partial : Bool)
        (token : String → String) where
      abbrev pub selected : List String
      selected = select ids requested (remove_expired now s)

      abbrev pub is_short : Bool
      is_short = not partial && ltb (length selected) requested

      abbrev pub outcome : List Lease × S
      outcome = if is_short then ([], r) else (
        map (granted_to sid (now + ttl) token) selected,
        set_all server codec now sid ttl token (map lease_key selected) r,
      )

      abbrev pub named : List (String × String) × S → List Lease × S
      named a = (map (lease_of sid (now + ttl)) a.0, a.1)

      abbrev pub after_set : S
      after_set = set_all server codec now sid ttl token (map lease_key selected) r

      -- what the server's side does, in terms of the selection in memory
      pub script_outcome :
          named
            (acquire_script server codec now requested partial sid ttl token (map lease_key ids) r)
          ≡ outcome
      unfolding acquire_script
      script_outcome = rw (chosen_lem requested ids, length-map lease_key selected) (go is_short)
        where
          go :
              (b : Bool)
              → named (if b then ([], r) else (pairs token (map lease_key selected), after_set)) ≡ (
                  if b
                  then ([], r)
                  else (map (granted_to sid (now + ttl) token) selected, after_set))
          go true = refl
          go false =
              ap (λ (ls : List Lease). (ls, after_set)) (leases_map sid (now + ttl) token selected)

      pub memory_outcome :
          acquire_in_memory ids requested sid ttl partial now (tokens token selected) s ≡ (
            if is_short then ([], remove_expired now s) else (
              map (granted_to sid (now + ttl) token) selected,
              put_all
                  (entries (map (granted_to sid (now + ttl) token) selected))
                  (remove_expired now s),
            ))
      unfolding acquire_in_memory
      memory_outcome = rw (issue-map sid (now + ttl) token selected) refl

      -- a selected GPU has no lease
      selected_vacant : (g : String) → elem g selected ≡ true → live now s g ≡ none
      selected_vacant g e = go (Option-cases (live now s g))
        where
          go : (live now s g ≡ none) ⊎ ((l : Lease) × (live now s g ≡ some l)) → live now s g ≡ none
          go (inl q) = q
          go (inr (l, q)) = ground (
            arith,
            e,
            elem-select ids requested (remove_expired now s) g l (get-remove_expired now s g d ∙ q),
          )

      pub agree_after :
          IsUnique ids
          → 0 < ttl
          → (t : ℕ) → now ≤ t
          → (g : String)
          → server.get_key t
              (lease_key g)
              (set_all server codec now sid ttl token (map lease_key selected) r)
            ≡ shown codec (
                live t
                  (put_all
                    (entries (map (granted_to sid (now + ttl) token) selected))
                    (remove_expired now s))
                  g)
      agree_after u p t l g = ground (
        arith,
        l,
        p,
        get-set_all server codec laws now t sid ttl token (map lease_key selected) (lease_key g) r l
            p (map_key-IsUnique selected (select-IsUnique requested ids (remove_expired now s) u)),
        elem-map_key g selected,
        selected_vacant g,
        agrees now (omega arith) g,
        agrees t l g,
        get-granted sid (now + ttl) token selected g (remove_expired now s),
        later t l g,
      )
