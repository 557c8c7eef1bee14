-- ===== src/Leases/Refinement.antt =====
-- The store over Redis refines the store in memory: call by call, every GPU shows the same lease.
use text.Mathlib.TextPositions.{starts_with-append}
use oneiroi.Prelude.{
  ℕ, ◌+◌, ◌<◌, ◌≡◌, refl, ap, sym, ◌∙◌, String, Option, none, some, ◌==◌, string_eq, elem, is_some,
  arith, IsUnique,
}
use oneiroi.Prelude.Dict.{IsDistinct, holds, get-pop, get-pop_where}
use oneiroi.Leases.{Lease, LeaseStore, is_held_by, remove_expired, select, step as step_in_memory}
use oneiroi.Leases.{Call as MemoryCall}
use oneiroi.Leases.{
  renew_session as renew_in_memory, release_gpu as release_gpu_in_memory,
  release_session as release_session_in_memory, active as active_in_memory,
}
use oneiroi.Leases.View.{live, get-remove_expired, remove_expired-IsDistinct, get-renew_all}
use oneiroi.Leases.Redis.{
  Server, IsServer, Codec, Payload, lease_prefix, lease_key, is_own, renew_session, release_gpu,
  release_session, release_script, step, Call, acquires, renews, releases_gpu, releases_session,
  reads,
}
use oneiroi.Leases.RedisView.{get-renew_script, get-release_keys, lease_key_beq}
use oneiroi.Leases.RedisAcquire.{shown, Agrees, tokens, later}
use oneiroi.Leases.RedisGrants.{acquire-Agrees}

-- The same call of the store in memory, with the tokens that the script makes.
abbrev pub in_memory : ℕ → Call → LeaseStore → MemoryCall
in_memory now (acquires ids requested sid ttl partial token) s =
    MemoryCall.acquires ids requested sid ttl partial
      (tokens token (select ids requested (remove_expired now s)))
in_memory now (renews sid ttl) s = MemoryCall.renews sid ttl
in_memory now (releases_gpu gpu_id sid) s = MemoryCall.releases_gpu gpu_id sid
in_memory now (releases_session sid) s = MemoryCall.releases_session sid
in_memory now reads s = MemoryCall.reads

-- No candidate twice, and a time to live.
abbrev pub IsAdmissible : Call → Type 0
IsAdmissible (acquires ids requested sid ttl partial token) = IsUnique ids × (0 < ttl)
IsAdmissible (renews sid ttl) = 0 < ttl
IsAdmissible _ = Unit

module _ {S : Type 0} (server : Server S) (codec : Codec) (laws : IsServer server)
    (decode-encode : (p : Payload) → codec.decode (codec.encode p) ≡ p) where
  module _ (now : ℕ) (s : LeaseStore) (r : S) (d : IsDistinct s)
      (agrees : Agrees server codec laws now s r) where
    own_shown :
        (sid g : String)
        → is_own server codec sid (server.get_key now (lease_key g) r)
          ≡ holds (is_held_by sid) (live now s g)
    own_shown sid g = rw (agrees now (omega arith) g) (go (live now s g))
      where
        go : (o : Option Lease) → is_own server codec sid (shown codec o) ≡ holds (is_held_by sid) o
        go none = refl
        go (some l) = ap (λ (p : Payload). p.session_id == sid) (decode-encode _)

    scanned :
        (g : String) → elem (lease_key g) (server.scan now lease_prefix r) ≡ is_some (live now s g)
    unfolding lease_key
    scanned g =
        rw
          (
            laws.elem-scan now lease_prefix (lease_key g) r,
            starts_with-append lease_prefix g,
            agrees now (omega arith) g,
          )
          (go (live now s g))
      where
        go : (o : Option Lease) → is_some (shown codec o) ≡ is_some o
        go none = refl
        go (some l) = refl

    renew-Agrees :
        (sid : String) (ttl : ℕ)
        → 0 < ttl
        → Agrees server codec laws now
            (renew_in_memory sid ttl now s).1
            (renew_session server codec sid ttl now r).1
    unfolding renew_in_memory renew_session
    renew-Agrees sid ttl p t l g = ground (
      arith,
      l,
      p,
      get-renew_script server codec laws now t sid ttl (server.scan now lease_prefix r)
          (lease_key g) r l p,
      own_shown sid g,
      scanned g,
      agrees now (omega arith) g,
      agrees t l g,
      get-renew_all sid (now + ttl) (remove_expired now s) (remove_expired now s) g
          (remove_expired-IsDistinct now s d),
      get-remove_expired now s g d,
    )

    release_gpu-Agrees :
        (gpu_id sid : String)
        → Agrees server codec laws now
            (release_gpu_in_memory gpu_id sid s).1
            (release_gpu server codec now gpu_id sid r).1
    unfolding release_gpu_in_memory release_gpu release_script
    release_gpu-Agrees gpu_id sid t l g = ground (
      arith,
      l,
      own_shown sid gpu_id,
      laws.get-del t (lease_key gpu_id) (lease_key g) r,
      lease_key_beq gpu_id g,
      get-pop gpu_id g s,
      agrees t l g,
      string_eq.beq_iff gpu_id g,
    )

    release_session-Agrees :
        (sid : String)
        → Agrees server codec laws now
            (release_session_in_memory sid s).1
            (release_session server codec now sid r).1
    unfolding release_session_in_memory release_session
    release_session-Agrees sid t l g = ground (
      arith,
      l,
      own_shown sid g,
      scanned g,
      agrees t l g,
      get-release_keys server codec laws now t sid (server.scan now lease_prefix r) (lease_key g) r,
      get-pop_where (is_held_by sid) g s d,
    )

  -- Take a server that keeps Redis's laws, a codec that decodes what it encoded, and a store in
  -- memory with one entry for each GPU. If from now on every GPU shows the same session and token
  -- in both stores, or no lease in both, then it does so after any call that both make, where an
  -- acquisition has distinct candidates and a positive time to live, and a renewal a positive time
  -- to live.
  pub step-Agrees :
      (now : ℕ) (call : Call) (s : LeaseStore) (r : S)
      → IsDistinct s
      → IsAdmissible call
      → Agrees server codec laws now s r
      → Agrees server codec laws now
          (step_in_memory now (in_memory now call s) s)
          (step server codec now call r)
  unfolding step_in_memory step active_in_memory
  step-Agrees now (acquires ids requested sid ttl partial token) s r d ok agrees =
      acquire-Agrees server codec laws now s r d agrees ids requested sid ttl partial token ok.0
        ok.1
  step-Agrees now (renews sid ttl) s r d ok agrees = renew-Agrees now s r d agrees sid ttl ok
  step-Agrees now (releases_gpu gpu_id sid) s r d ok agrees =
      release_gpu-Agrees now s r d agrees gpu_id sid
  step-Agrees now (releases_session sid) s r d ok agrees =
      release_session-Agrees now s r d agrees sid
  step-Agrees now reads s r d ok agrees = λ t l g.
      agrees t l g ∙ ap (shown codec) (sym (later server codec laws now s r d agrees t l g))
