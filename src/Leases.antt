-- ===== src/Leases.antt =====
-- services/gateway/src/oneiroi_gateway/redis/leases.py, `InMemoryLeaseStore`: at most one lease
-- for each GPU. Each method runs under the store's lock, so it is one step; `now` is its reading
-- of the monotonic clock, and `token` numbers the `uuid4` values that it draws.
pub mod View
pub mod Exclusion
pub mod Grants
pub mod Refinement
pub mod RedisGrants
pub mod RedisAcquire
pub mod RedisView
pub mod Redis
use oneiroi.Prelude.{
  ℕ, suc, ◌+◌, String, Bool, true, false, not, ◌&&◌, Option, none, some, List, [], ◌∷◌, map, ◌==◌,
  string_eq, leb, ltb, is_none, length, take, filter, if◌then◌else◌,
}
use oneiroi.Prelude.Dict.{Dict, get, put, pop, keys_where, pop_all, put_all}

pub record Lease : Type 0 where
  pub gpu_id : String
  pub session_id : String
  pub fencing_token : String
  pub expires_at_monotonic : ℕ

abbrev pub LeaseStore : Type 0
LeaseStore = Dict String Lease

abbrev pub is_expired : ℕ → Lease → Bool
is_expired now lease = leb lease.expires_at_monotonic now

abbrev pub is_held_by : String → Lease → Bool
is_held_by session_id lease = lease.session_id == session_id

pub remove_expired : ℕ → LeaseStore → LeaseStore
remove_expired now leases = pop_all (keys_where (is_expired now) leases) leases

abbrev pub granted_lease : String → String → String → ℕ → Lease
granted_lease gpu_id session_id fencing_token expires_at = record {
  gpu_id = gpu_id;
  session_id = session_id;
  fencing_token = fencing_token;
  expires_at_monotonic = expires_at;
}

-- one lease for each selected GPU
pub issue : String → ℕ → (ℕ → String) → ℕ → List String → List Lease
issue session_id expires_at token n [] = []
issue session_id expires_at token n (gpu_id ∷ gpu_ids) =
    granted_lease gpu_id session_id (token n) expires_at
    ∷ issue session_id expires_at token (suc n) gpu_ids

abbrev pub entries : List Lease → List (String × Lease)
entries [] = []
entries (lease ∷ rest) = (lease.gpu_id, lease) ∷ entries rest

-- `[gpu_id for gpu_id in candidates if gpu_id not in self._leases][:requested]`
pub select : List String → ℕ → LeaseStore → List String
select candidates requested leases =
    take requested (filter (λ gpu_id. is_none (get gpu_id leases)) candidates)

pub acquire :
    List String
    → ℕ
    → String
    → (ttl : ℕ) → (allow_partial : Bool) → (now : ℕ) → (ℕ → String)
    → LeaseStore
    → List Lease × LeaseStore
unfolding remove_expired select issue
acquire candidates requested session_id ttl allow_partial now token store =
    let leases = remove_expired now store in
    let selected = select candidates requested leases in
    let issued = issue session_id (now + ttl) token 0 selected in
    if not allow_partial && ltb (length selected) requested
    then ([], leases)
    else (issued, put_all (entries issued) leases)

-- the loop of `renew_session` over `list(self._leases.items())`
pub renew_all : String → ℕ → List (String × Lease) → LeaseStore → List String × LeaseStore
renew_all session_id expires_at [] leases = ([], leases)
renew_all session_id expires_at ((gpu_id, lease) ∷ items) leases =
    let renewed = granted_lease gpu_id session_id lease.fencing_token expires_at in
    let hit = renew_all session_id expires_at items (put gpu_id renewed leases) in
    let miss = renew_all session_id expires_at items leases in
    if is_held_by session_id lease then (gpu_id ∷ hit.0, hit.1) else miss

pub renew_session : String → (ttl now : ℕ) → LeaseStore → List String × LeaseStore
unfolding remove_expired renew_all
renew_session session_id ttl now store =
    let leases = remove_expired now store in renew_all session_id (now + ttl) leases leases

abbrev release_found : Option Lease → String → String → LeaseStore → Bool × LeaseStore
release_found none gpu_id session_id leases = (false, leases)
release_found (some lease) gpu_id session_id leases =
    if not (is_held_by session_id lease) then (false, leases) else (true, pop gpu_id leases)

pub release_gpu : String → String → LeaseStore → Bool × LeaseStore
release_gpu gpu_id session_id leases = release_found (get gpu_id leases) gpu_id session_id leases

pub release_session : String → LeaseStore → List String × LeaseStore
release_session session_id leases =
    let released = keys_where (is_held_by session_id) leases in (released, pop_all released leases)

pub active : ℕ → LeaseStore → LeaseStore × LeaseStore
unfolding remove_expired
active now store = let leases = remove_expired now store in (leases, leases)

-- One call of the store.
pub data Call : Type 0 where
  acquires : List String → ℕ → String → ℕ → Bool → (ℕ → String) → Call
  renews : String → ℕ → Call
  releases_gpu : String → String → Call
  releases_session : String → Call
  reads : Call

-- The call at a reading of the clock.
pub step : ℕ → Call → LeaseStore → LeaseStore
unfolding acquire renew_session release_gpu release_session active
step now (acquires candidates requested session_id ttl allow_partial token) s =
    (acquire candidates requested session_id ttl allow_partial now token s).1
step now (renews session_id ttl) s = (renew_session session_id ttl now s).1
step now (releases_gpu gpu_id session_id) s = (release_gpu gpu_id session_id s).1
step now (releases_session session_id) s = (release_session session_id s).1
step now reads s = (active now s).1
