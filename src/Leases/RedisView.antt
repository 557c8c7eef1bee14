-- ===== src/Leases/RedisView.antt =====
-- What a key of the Redis server shows after each script.
use text.Mathlib.TextPositions.{len-append, slice-append_right, starts_with-append}
use oneiroi.Prelude.{
  ℕ, zero, suc, ◌+◌, ◌-◌, ◌≤◌, ◌<◌, ◌≡◌, refl, ap, sym, String, ◌&&◌, none, some, List, [], ◌∷◌,
  ◌==◌, string_eq, elem, is_none, if◌then◌else◌, arith, filter, take, IsUnique,
}
use oneiroi.Leases.Redis.{
  Server, IsServer, Codec, until, lease_prefix, lease_key, remove_prefix, choose, set_all,
  payload_text, is_own, renew_script, release_script, release_keys,
}

pub remove_prefix-lease_key : (gpu_id : String) → remove_prefix (lease_key gpu_id) ≡ gpu_id
unfolding remove_prefix lease_key
remove_prefix-lease_key gpu_id =
    rw (starts_with-append lease_prefix gpu_id, len-append lease_prefix gpu_id)
      (slice-append_right lease_prefix gpu_id)

-- keys are as different as the GPUs
pub lease_key_beq : (g h : String) → (lease_key g == lease_key h) ≡ (g == h)
lease_key_beq g h = ground (
  arith,
  string_eq.beq_iff (lease_key g) (lease_key h),
  string_eq.beq_iff g h,
  remove_prefix-lease_key g,
  remove_prefix-lease_key h,
)

take_nil : (n : ℕ) → take {A = String} n [] ≡ []
take_nil zero = refl
take_nil (suc n) = refl

take_next :
    (n k : ℕ) (x : String) (xs : List String)
    → k < n
    → take (n - k) (x ∷ xs) ≡ x ∷ take (n - suc k) xs
take_next n k x xs l = let q : n - k ≡ suc (n - suc k) = omega arith in ap (λ m. take m (x ∷ xs)) q

take_done : (n k : ℕ) (xs : List String) → n ≤ k → take (n - k) xs ≡ []
take_done n k xs l = let q : n - k ≡ 0 = omega arith in ap (λ m. take m xs) q

module _ {S : Type 0} (server : Server S) (codec : Codec) (laws : IsServer server) where
  pub choose_lem :
      (now requested : ℕ) (s : S) (chosen : ℕ) (keys : List String)
      → choose server codec now requested s chosen keys
        ≡ take (requested - chosen) (filter (λ k. is_none (server.get_key now k s)) keys)
  unfolding choose
  choose_lem now requested s chosen [] = sym (take_nil (requested - chosen))
  choose_lem now requested s chosen (key ∷ keys) = ground (
    arith,
    choose_lem now requested s (suc chosen) keys,
    choose_lem now requested s chosen keys,
    take_next requested chosen key (filter (λ k. is_none (server.get_key now k s)) keys),
    take_done requested chosen (filter (λ k. is_none (server.get_key now k s)) keys),
  )

  pub get-set_all :
      (now t : ℕ) (session_id : String) (ttl : ℕ) (token : String → String) (keys : List String)
      (j : String) (s : S)
      → now ≤ t
      → 0 < ttl
      → IsUnique keys
      → server.get_key t j (set_all server codec now session_id ttl token keys s) ≡ (
          if elem j keys && is_none (server.get_key now j s)
          then until t (now + ttl) (some (payload_text server codec session_id (token j)))
          else server.get_key t j s)
  unfolding set_all
  get-set_all now t session_id ttl token [] j s l p u = refl
  get-set_all now t session_id ttl token (key ∷ keys) j s l p u =
      let v = payload_text server codec session_id (token key) in
      let r = server.set_nx now key v ttl s in
      ground (
        arith,
        l,
        p,
        u,
        get-set_all now t session_id ttl token keys j r l p u.1,
        laws.get-set_nx now t key j v ttl s l p,
        laws.get-set_nx now now key j v ttl s (omega arith) p,
        string_eq.beq_iff key j,
      )

  pub get-renew_script :
      (now t : ℕ) (session_id : String) (ttl : ℕ) (keys : List String) (j : String) (s : S)
      → now ≤ t
      → 0 < ttl
      → server.get_key t j (renew_script server codec now session_id ttl keys s).1 ≡ (
          if elem j keys && is_own server codec session_id (server.get_key now j s)
          then until t (now + ttl) (server.get_key now j s)
          else server.get_key t j s)
  unfolding renew_script
  get-renew_script now t session_id ttl [] j s l p = refl
  get-renew_script now t session_id ttl (key ∷ keys) j s l p =
      let r = server.pexpire now key ttl s in
      ground (
        arith,
        l,
        p,
        get-renew_script now t session_id ttl keys j r l p,
        get-renew_script now t session_id ttl keys j s l p,
        laws.get-pexpire now t key j ttl s l,
        laws.get-pexpire now now key j ttl s (omega arith),
        string_eq.beq_iff key j,
      )

  pub get-release_keys :
      (now t : ℕ) (session_id : String) (keys : List String) (j : String) (s : S)
      → server.get_key t j (release_keys server codec now session_id keys s).1 ≡ (
          if elem j keys && is_own server codec session_id (server.get_key now j s)
          then none
          else server.get_key t j s)
  unfolding release_keys release_script
  get-release_keys now t session_id [] j s = refl
  get-release_keys now t session_id (key ∷ keys) j s =
      let r = server.del key s in
      ground (
        arith,
        get-release_keys now t session_id keys j r,
        get-release_keys now t session_id keys j s,
        laws.get-del t key j s,
        laws.get-del now key j s,
        string_eq.beq_iff key j,
      )
