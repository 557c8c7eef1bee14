-- ===== src/Leases/Exclusion.antt =====
-- At most one session holds a GPU: the operations of the lease store against the live leases.
use oneiroi.Prelude.{ℕ, ◌+◌, ◌<◌, ◌≡◌, ◌≢◌, String, Option, none, some, string_eq, arith}
use oneiroi.Prelude.Dict.{
  get, keys_where, IsDistinct, get-pop, get-pop_where, pop-IsDistinct, pop_all-IsDistinct,
  put_all-IsDistinct,
}
use oneiroi.Leases.{
  Lease, LeaseStore, is_held_by, remove_expired, issue, entries, select, acquire, renew_session,
  release_gpu, release_session, active, Call, acquires, renews, releases_gpu, releases_session,
  reads, step,
}
use oneiroi.Leases.View.{
  get-remove_expired, remove_expired-IsDistinct, get-issued_other, elem-select, get-renew_all,
  renew_all-IsDistinct,
}

-- Every call keeps one entry for each GPU.
pub step-IsDistinct :
    (now : ℕ) (c : Call) (s : LeaseStore) → IsDistinct s → IsDistinct (step now c s)
unfolding step acquire renew_session release_gpu release_session active
step-IsDistinct now (acquires candidates requested sid ttl partial token) s d = ground (
  arith,
  remove_expired-IsDistinct now s d,
  put_all-IsDistinct
      (entries (issue sid (now + ttl) token 0 (select candidates requested (remove_expired now s))))
      (remove_expired now s) (remove_expired-IsDistinct now s d),
)
step-IsDistinct now (renews sid ttl) s d =
    renew_all-IsDistinct sid (now + ttl) (remove_expired now s) (remove_expired now s)
      (remove_expired-IsDistinct now s d)
step-IsDistinct now (releases_gpu gpu_id sid) s d = ground (arith, pop-IsDistinct gpu_id s d)
step-IsDistinct now (releases_session sid) s d =
    pop_all-IsDistinct (keys_where (is_held_by sid) s) s d
step-IsDistinct now reads s d = remove_expired-IsDistinct now s d

abbrev pub caller : Call → Option String
caller (acquires candidates requested session_id ttl allow_partial token) = some session_id
caller (renews session_id ttl) = some session_id
caller (releases_gpu gpu_id session_id) = some session_id
caller (releases_session session_id) = some session_id
caller reads = none

-- The lease that a session holds on a GPU, its token and its term included, is left alone by every
-- call of any other session for as long as it has not expired.
pub other_session_kept :
    (now : ℕ) (c : Call) (s : LeaseStore) (j : String) (l : Lease)
    → IsDistinct s
    → get j s ≡ some l
    → now < l.expires_at_monotonic
    → caller c ≢ some l.session_id
    → get j (step now c s) ≡ some l
unfolding step acquire renew_session release_gpu release_session active
other_session_kept now (acquires candidates requested sid ttl partial token) s j l d h t o =
    ground (
      arith,
      get-remove_expired now s j d,
      elem-select candidates requested (remove_expired now s) j l,
      get-issued_other sid (now + ttl) token 0 (select candidates requested (remove_expired now s))
          (remove_expired now s) j,
    )
other_session_kept now (renews sid ttl) s j l d h t o = ground (
  arith,
  get-remove_expired now s j d,
  get-renew_all sid (now + ttl) (remove_expired now s) (remove_expired now s) j
      (remove_expired-IsDistinct now s d),
  string_eq.beq_iff l.session_id sid,
)
other_session_kept now (releases_gpu gpu_id sid) s j l d h t o =
    ground
      (arith, get-pop gpu_id j s, string_eq.beq_iff l.session_id sid, string_eq.beq_iff gpu_id j)
other_session_kept now (releases_session sid) s j l d h t o =
    ground (arith, get-pop_where (is_held_by sid) j s d, string_eq.beq_iff l.session_id sid)
other_session_kept now reads s j l d h t o = ground (arith, get-remove_expired now s j d)
