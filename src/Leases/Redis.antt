-- ===== src/Leases/Redis.antt =====
-- services/gateway/src/oneiroi_gateway/redis/leases.py, `RedisLeaseStore`: the same promises over a
-- Redis server. A script runs at one instant of the server, and a call is taken at one instant: `now`
-- is the time of the server in milliseconds, and `ttl` is `int(ttl_seconds * 1000)`.
use Prim.Native.String.{len, slice}
use Prim.Native.String.{◌++◌ as str_append}
use text.Mathlib.Text.{starts_with}
use oneiroi.Prelude.{
  ℕ, suc, ◌+◌, ◌≤◌, ◌<◌, ◌≡◌, String, Bool, true, false, not, ◌&&◌, Option, none, some, List, [],
  ◌∷◌, map, ◌==◌, string_eq, elem, ltb, is_none, is_some, length, if◌then◌else◌,
}
use oneiroi.Prelude.Dict.{Dict, put}
use oneiroi.Leases.{Lease, granted_lease}

-- The commands of the server that the scripts call. `scan` lists the keys with the prefix.
pub record Server (S : Type 0) : Type 0 where
  pub get_key : ℕ → String → S → Option String
  pub pttl : ℕ → String → S → ℕ
  pub set_nx : ℕ → String → String → ℕ → S → S
  pub pexpire : ℕ → String → ℕ → S → S
  pub del : String → S → S
  pub scan : ℕ → String → S → List String

abbrev pub until : ℕ → ℕ → Option String → Option String
until t expiry value = if ltb t expiry then value else none

-- What the Redis documentation says of them: a value is there until it expires.
pub record IsServer {S : Type 0} (server : Server S) : Type 0 where
  pub get-set_nx :
      (now t : ℕ) (k j value : String) (px : ℕ) (s : S)
      → now ≤ t
      → 0 < px
      → server.get_key t j (server.set_nx now k value px s) ≡ (
          if k == j && is_none (server.get_key now k s)
          then until t (now + px) (some value)
          else server.get_key t j s)
  pub get-pexpire :
      (now t : ℕ) (k j : String) (px : ℕ) (s : S)
      → now ≤ t
      → server.get_key t j (server.pexpire now k px s) ≡ (
          if k == j && is_some (server.get_key now k s)
          then until t (now + px) (server.get_key now k s)
          else server.get_key t j s)
  pub get-del :
      (t : ℕ) (k j : String) (s : S)
      → server.get_key t j (server.del k s) ≡ (if k == j then none else server.get_key t j s)
  pub elem-scan :
      (now : ℕ) (prefix k : String) (s : S)
      → elem k (server.scan now prefix s)
        ≡ (starts_with k prefix && is_some (server.get_key now k s))

pub record Payload : Type 0 where
  pub session_id : String
  pub fencing_token : String

-- `cjson` and `json` on a payload
pub record Codec : Type 0 where
  pub encode : Payload → String
  pub decode : String → Payload

abbrev pub lease_prefix : String
lease_prefix = "oneiroi:gpu:lease:"

unfoldable pub lease_key : String → String
lease_key gpu_id = str_append lease_prefix gpu_id

unfoldable pub remove_prefix : String → String
remove_prefix key =
    if starts_with key lease_prefix then slice key (len lease_prefix) (len key) else key

-- the result of the script: keys and tokens, which the method reads as leases
abbrev pub pairs : (String → String) → List String → List (String × String)
pairs token = map (λ key. (key, token key))

abbrev pub lease_of : String → ℕ → String × String → Lease
lease_of session_id expires_at (key, token) =
    granted_lease (remove_prefix key) session_id token expires_at

module _ {S : Type 0} (server : Server S) (codec : Codec) where
  -- the first loop of `_acquire_script`, after `chosen` keys
  unfoldable pub choose : ℕ → ℕ → S → ℕ → List String → List String
  choose now requested s chosen [] = []
  choose now requested s chosen (key ∷ keys) =
      let more = choose now requested s (suc chosen) keys in
      let rest = choose now requested s chosen keys in
      if is_none (server.get_key now key s) && ltb chosen requested then key ∷ more else rest

  abbrev pub payload_text : String → String → String
  payload_text session_id token =
      codec.encode (record { session_id = session_id; fencing_token = token })

  -- the second loop; `token` is the digest of the session, the key and the time
  unfoldable pub set_all : ℕ → String → ℕ → (String → String) → List String → S → S
  set_all now session_id ttl token [] s = s
  set_all now session_id ttl token (key ∷ keys) s =
      set_all now session_id ttl token keys
        (server.set_nx now key (payload_text session_id (token key)) ttl s)

  -- `_acquire_script`
  unfoldable pub acquire_script :
      ℕ → ℕ → Bool → String → ℕ → (String → String) → List String → S → List (String × String) × S
  unfolding choose set_all
  acquire_script now requested allow_partial session_id ttl token keys s =
      let selected = choose now requested s 0 keys in
      if not allow_partial && ltb (length selected) requested
      then ([], s)
      else (pairs token selected, set_all now session_id ttl token selected s)

  unfoldable pub acquire :
      List String
      → ℕ
      → String
      → (ttl : ℕ) → (allow_partial : Bool) → (now monotonic : ℕ) → (String → String)
      → S
      → List Lease × S
  unfolding acquire_script
  acquire [] requested session_id ttl allow_partial now monotonic token s = ([], s)
  acquire (gpu_id ∷ gpu_ids) requested session_id ttl allow_partial now monotonic token s =
      let r =
        acquire_script now requested allow_partial session_id ttl token
          (map lease_key (gpu_id ∷ gpu_ids)) s in
      (map (lease_of session_id (monotonic + ttl)) r.0, r.1)

  -- `payload` is there, and its session is this one
  abbrev pub is_own : String → Option String → Bool
  is_own session_id none = false
  is_own session_id (some payload) = (codec.decode payload).session_id == session_id

  -- `_renew_script`
  unfoldable pub renew_script : ℕ → String → ℕ → List String → S → List String × S
  renew_script now session_id ttl [] s = ([], s)
  renew_script now session_id ttl (key ∷ keys) s =
      let hit = renew_script now session_id ttl keys (server.pexpire now key ttl s) in
      let miss = renew_script now session_id ttl keys s in
      if is_own session_id (server.get_key now key s) then (key ∷ hit.0, hit.1) else miss

  unfoldable pub renew_session : String → (ttl now : ℕ) → S → List String × S
  unfolding renew_script
  renew_session session_id ttl now s =
      let r = renew_script now session_id ttl (server.scan now lease_prefix s) s in
      (map remove_prefix r.0, r.1)

  -- `_release_script`
  unfoldable pub release_script : ℕ → String → String → S → Bool × S
  release_script now key session_id s =
      if is_own session_id (server.get_key now key s) then (true, server.del key s) else (false, s)

  unfoldable pub release_gpu : ℕ → String → String → S → Bool × S
  unfolding release_script
  release_gpu now gpu_id session_id s = release_script now (lease_key gpu_id) session_id s

  -- the loop over the keys
  unfoldable pub release_keys : ℕ → String → List String → S → List String × S
  unfolding release_script
  release_keys now session_id [] s = ([], s)
  release_keys now session_id (key ∷ keys) s =
      let r = release_script now key session_id s in
      let rest = release_keys now session_id keys r.1 in
      (if r.0 then remove_prefix key ∷ rest.0 else rest.0, rest.1)

  unfoldable pub release_session : ℕ → String → S → List String × S
  unfolding release_keys
  release_session now session_id s = release_keys now session_id (server.scan now lease_prefix s) s

  -- one entry of `active`
  abbrev pub active_entry :
      ℕ → ℕ → String → Option String → ℕ → Dict String Lease → Dict String Lease
  active_entry now monotonic key none ttl result = result
  active_entry now monotonic key (some payload) ttl result =
      if ltb 0 ttl
      then put (remove_prefix key)
          (granted_lease (remove_prefix key) (codec.decode payload).session_id
            (codec.decode payload).fencing_token (monotonic + ttl))
          result
      else result

  unfoldable pub active_from : ℕ → ℕ → List String → S → Dict String Lease → Dict String Lease
  active_from now monotonic [] s result = result
  active_from now monotonic (key ∷ keys) s result =
      active_from now monotonic keys s
        (active_entry now monotonic key (server.get_key now key s) (server.pttl now key s) result)

  unfoldable pub active : (now monotonic : ℕ) → S → Dict String Lease
  unfolding active_from
  active now monotonic s = active_from now monotonic (server.scan now lease_prefix s) s []

-- One call of the store; a token is the digest of a key, for the call's session and time.
pub data Call : Type 0 where
  acquires : List String → ℕ → String → ℕ → Bool → (String → String) → Call
  renews : String → ℕ → Call
  releases_gpu : String → String → Call
  releases_session : String → Call
  reads : Call

module _ {S : Type 0} (server : Server S) (codec : Codec) where
  -- The call at a time of the server.
  unfoldable pub step : ℕ → Call → S → S
  unfolding acquire renew_session release_gpu release_session
  step now (acquires candidates requested session_id ttl allow_partial token) s =
      (acquire server codec candidates requested session_id ttl allow_partial now now token s).1
  step now (renews session_id ttl) s = (renew_session server codec session_id ttl now s).1
  step now (releases_gpu gpu_id session_id) s = (release_gpu server codec now gpu_id session_id s).1
  step now (releases_session session_id) s = (release_session server codec now session_id s).1
  step now reads s = s
