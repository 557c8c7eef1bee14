-- ===== src/Leases/RedisGrants.antt =====
-- An acquisition over Redis: what it returns, and what it leaves.
use oneiroi.Prelude.{
  ℕ, suc, zero, ◌+◌, ◌<◌, ◌≡◌, refl, ap, sym, ◌∙◌, String, Bool, true, false, List, [], ◌∷◌, map,
  string_eq, ltb, if◌then◌else◌, IsUnique,
}
use oneiroi.Prelude.Dict.{put_all, IsDistinct}
use oneiroi.Leases.{Lease, LeaseStore, remove_expired, select, entries}
use oneiroi.Leases.{acquire as acquire_in_memory}
use oneiroi.Leases.View.{live}
use oneiroi.Leases.Redis.{Server, IsServer, Codec, lease_key, acquire}
use oneiroi.Leases.RedisAcquire.{
  shown, Agrees, is_short, after_set, tokens, selected, outcome, granted_to, script_outcome,
  memory_outcome, agree_after, later,
}

module _ {S : Type 0} (server : Server S) (codec : Codec) (laws : IsServer server) (now : ℕ)
    (s : LeaseStore) (r : S) (d : IsDistinct s) (agrees : Agrees server codec laws now s r) where
  -- the script on no key is the early return
  acquire_lem :
      (ids : List String) (requested : ℕ) (sid : String) (ttl : ℕ) (partial : Bool)
      (token : String → String)
      → acquire server codec ids requested sid ttl partial now now token r
        ≡ outcome server codec laws now s r d agrees ids requested sid ttl partial token
  unfolding acquire select
  acquire_lem [] requested sid ttl partial token = go partial requested
    where
      same : (b : Bool) → ([], r) ≡ (let x : List Lease × S = if b then ([], r) else ([], r) in x)
      same true = refl
      same false = refl

      go :
          (partial : Bool) (requested : ℕ)
          → ([], r) ≡ outcome server codec laws now s r d agrees [] requested sid ttl partial token
      go true zero = refl
      go true (suc n) = refl
      go false zero = refl
      go false (suc n) = same (ltb 0 (suc n))
  acquire_lem (i ∷ ids) requested sid ttl partial token =
      script_outcome server codec laws now s r d agrees (i ∷ ids) requested sid ttl partial token

  pub acquire-Agrees :
      (ids : List String) (requested : ℕ) (sid : String) (ttl : ℕ) (partial : Bool)
      (token : String → String)
      → IsUnique ids
      → 0 < ttl
      → Agrees server codec laws now
          (acquire_in_memory ids requested sid ttl partial now
            (tokens token (select ids requested (remove_expired now s)))
            s).1
          (acquire server codec ids requested sid ttl partial now now token r).1
  acquire-Agrees ids requested sid ttl partial token u p t l g =
      rw
        (
          memory_outcome server codec laws now s r d agrees ids requested sid ttl partial token,
          acquire_lem ids requested sid ttl partial token,
        )
        (go (is_short server codec laws now s r d agrees ids requested sid ttl partial token))
    where
      granted : List Lease
      granted =
          map (granted_to sid (now + ttl) token)
            (selected server codec laws now s r d agrees ids requested sid ttl partial token)

      set : S
      set = after_set server codec laws now s r d agrees ids requested sid ttl partial token

      go :
          (b : Bool)
          → server.get_key t
              (lease_key g)
              (let x : List Lease × S = if b then ([], r) else (granted, set) in x.1)
            ≡ shown codec (
                live t
                  (let x : List Lease × LeaseStore =
                      if b
                      then ([], remove_expired now s)
                      else (granted, put_all (entries granted) (remove_expired now s)) in
                    x.1)
                  g)
      go true =
          agrees t l g ∙ ap (shown codec) (sym (later server codec laws now s r d agrees t l g))
      go false =
          agree_after server codec laws now s r d agrees ids requested sid ttl partial token u p t l
            g

  -- Over a server that keeps Redis's laws: if from now on every GPU shows the same session and
  -- token in Redis and in a store in memory with one entry for each GPU, or no lease in both,
  -- then an acquisition over Redis returns the leases that the store in memory returns, when both
  -- draw the same tokens.
  pub acquire_returns :
      (ids : List String) (requested : ℕ) (sid : String) (ttl : ℕ) (partial : Bool)
      (token : String → String)
      → (acquire server codec ids requested sid ttl partial now now token r).0
        ≡ (acquire_in_memory ids requested sid ttl partial now
            (tokens token (select ids requested (remove_expired now s)))
            s).0
  acquire_returns ids requested sid ttl partial token =
      rw
        (
          memory_outcome server codec laws now s r d agrees ids requested sid ttl partial token,
          acquire_lem ids requested sid ttl partial token,
        )
        (go (is_short server codec laws now s r d agrees ids requested sid ttl partial token))
    where
      granted : List Lease
      granted =
          map (granted_to sid (now + ttl) token)
            (selected server codec laws now s r d agrees ids requested sid ttl partial token)

      set : S
      set = after_set server codec laws now s r d agrees ids requested sid ttl partial token

      go :
          (b : Bool)
          → (let x : List Lease × S = if b then ([], r) else (granted, set) in x.0) ≡ (
              let x : List Lease × LeaseStore =
                if b
                then ([], remove_expired now s)
                else (granted, put_all (entries granted) (remove_expired now s)) in
              x.0)
      go true = refl
      go false = refl
