-- ===== src/Studio/Listing.antt =====
-- What one owner's calls of the repository leave of another owner's reads, its lists included.
use oneiroi.Prelude.{
  ℕ, ◌≡◌, ◌≢◌, refl, ap, ◌∙◌, String, true, false, not, ◌&&◌, Option, List, [], ◌∷◌, ◌==◌,
  string_eq, elem, filter, count, arith, Option-cases, inl, inr,
}
use oneiroi.Prelude.Dict.{
  Dict, get, put, pop, pop_all, values, holds, keys_where, IsDistinct, pop_absent, get-pop,
  pop-IsDistinct, elem-keys_where,
}
use oneiroi.Prelude.Effects.{◌>>=◌}
use oneiroi.Studio.{StoredJob, is_terminal}
use oneiroi.Studio.Repository.{
  StudioRepository, create_conversation, get_conversation, put_conversation, in_conversation,
  forget_jobs, delete_conversation, create_asset, get_asset, delete_asset, create_job, update_job,
  get_job, add_event, list_conversations, list_assets, list_jobs, list_jobs_for_conversation,
  count_active_jobs, is_active_for, in_scope,
}
use oneiroi.Studio.Calls.{
  Call, step, caller, IsFree, WritesOwn, call_create_conversation, call_put_conversation,
  call_delete_conversation, call_create_asset, call_delete_asset, call_create_job, call_update_job,
  call_add_event,
}
use oneiroi.Studio.Tenancy.{
  SameFor, tenant_kept, conversation_owner, asset_owner, job_owner, forgotten_lem,
}

module _ {V : Type 0} (owner : V → String) (p : String) where
  -- the values of this owner, in their order
  abbrev owned : Dict String V → List V
  owned d = filter (λ v. owner v == p) (values d)

  owned-put :
      (o k : String) (v : V) (d : Dict String V)
      → o ≢ p
      → owner v ≡ o
      → IsFree owner o (get k d)
      → owned (put k v d) ≡ owned d
  unfolding get put
  owned-put o k v [] n w f = ground (arith, n, w, string_eq.beq_iff (owner v) p)
  owned-put o k v ((j, x) ∷ d) n w f = ground (
    arith,
    n,
    w,
    f,
    owned-put o k v d n w,
    string_eq.beq_iff (owner v) p,
    string_eq.beq_iff (owner x) p,
    string_eq.beq_iff j k,
  )

  owned-pop :
      (k : String) (d : Dict String V)
      → IsDistinct d
      → holds (λ v. owner v == p) (get k d) ≡ false
      → owned (pop k d) ≡ owned d
  unfolding get pop
  owned-pop k [] u h = refl
  owned-pop k ((j, x) ∷ d) u h =
      ground (arith, u.0, h, owned-pop k d u.1, pop_absent k d, string_eq.beq_iff j k)

  not_owned :
      (o k : String) (d : Dict String V)
      → o ≢ p
      → IsFree owner o (get k d)
      → holds (λ v. owner v == p) (get k d) ≡ false
  not_owned o k d n f = elim (Option-cases (get k d)) [
    | inl e ↦ ground (arith, e)
    | inr (v, e) ↦ ground (arith, e, f, n, string_eq.beq_iff (owner v) p)
  ]

  owned-pop_all :
      (ks : List String) (d : Dict String V)
      → IsDistinct d
      → ((k : String) → elem k ks ≡ true → holds (λ v. owner v == p) (get k d) ≡ false)
      → owned (pop_all ks d) ≡ owned d
  unfolding pop_all
  owned-pop_all [] d u h = refl
  owned-pop_all (k ∷ ks) d u h =
      owned-pop_all ks (pop k d) (pop-IsDistinct k d u)
        (λ j q. ground (arith, h j, q, get-pop k j d, string_eq.beq_iff k j))
      ∙ owned-pop k d u (h k (ground (arith, string_eq.beq_iff k k)))

-- The entries of the dictionaries have different identifiers.
abbrev pub HasEntries : StudioRepository → Type 0
HasEntries s = IsDistinct s.conversations × IsDistinct s.assets × IsDistinct s.jobs

-- What an owner has.
abbrev SameOwned : String → StudioRepository → StudioRepository → Type 0
SameOwned p t s =
    (owned conversation_owner p t.conversations ≡ owned conversation_owner p s.conversations)
    × (owned asset_owner p t.assets ≡ owned asset_owner p s.assets)
    × (owned job_owner p t.jobs ≡ owned job_owner p s.jobs)

-- What an owner reads by listing or counting.
abbrev pub SameLists : String → StudioRepository → StudioRepository → Type 0
SameLists p t s =
    (list_conversations p t ≡ list_conversations p s)
    × (list_assets p t ≡ list_assets p s)
    × (list_jobs p t ≡ list_jobs p s)
    × ((i : String) → list_jobs_for_conversation p i t ≡ list_jobs_for_conversation p i s)
    × ((scope : Option String) → count_active_jobs p scope t ≡ count_active_jobs p scope s)

jobs_of_conversation :
    (p i : String) (jobs : List StoredJob)
    → filter (in_conversation p i) jobs
      ≡ filter (λ job. job.response.conversation_id == i) (filter (λ job. job.owner_id == p) jobs)
jobs_of_conversation p i [] = refl
jobs_of_conversation p i (job ∷ jobs) = ground (arith, jobs_of_conversation p i jobs)

active_jobs_of :
    (p : String) (scope : Option String) (jobs : List StoredJob)
    → count (is_active_for p scope) jobs
      ≡ count
          (λ job. not (is_terminal job.response.stage) && in_scope scope job)
          (filter (λ job. job.owner_id == p) jobs)
active_jobs_of p scope [] = refl
active_jobs_of p scope (job ∷ jobs) = ground (arith, active_jobs_of p scope jobs)

same_lists : (p : String) (t s : StudioRepository) → SameOwned p t s → SameLists p t s
unfolding list_conversations list_assets list_jobs list_jobs_for_conversation count_active_jobs
same_lists p t s (c, a, j) = (
  rw c refl,
  rw a refl,
  rw j refl,
  λ i.
      rw (jobs_of_conversation p i (values t.jobs), jobs_of_conversation p i (values s.jobs), j)
        refl,
  λ scope.
      rw (active_jobs_of p scope (values t.jobs), active_jobs_of p scope (values s.jobs), j) refl,
)

forget_jobs-pop_all :
    (ks : List String) (s : StudioRepository) → (forget_jobs ks s).jobs ≡ pop_all ks s.jobs
unfolding pop_all
forget_jobs-pop_all [] s = refl
forget_jobs-pop_all (k ∷ ks) s =
    forget_jobs-pop_all ks
      (record s { jobs = pop k s.jobs; attempts = pop k s.attempts; events = pop k s.events })

-- the jobs of the caller's conversation are not the other owner's
jobs_elsewhere :
    (s : StudioRepository) (o p i : String)
    → o ≢ p
    → IsDistinct s.jobs
    → owned job_owner p (forget_jobs (keys_where (in_conversation o i) s.jobs) s).jobs
      ≡ owned job_owner p s.jobs
jobs_elsewhere s o p i n u =
    let ks = keys_where (in_conversation o i) s.jobs in
    ap (owned job_owner p) (forget_jobs-pop_all ks s)
    ∙ owned-pop_all job_owner p ks s.jobs u λ k q. elim (Option-cases (get k s.jobs)) [
      | inl e ↦ ground (arith, e)
      | inr (job, e) ↦ ground (
        arith,
        e,
        q,
        n,
        elem-keys_where (in_conversation o i) k s.jobs u,
        string_eq.beq_iff job.owner_id p,
        string_eq.beq_iff job.owner_id o,
      )
    ]

owned_kept :
    (c : Call) (s : StudioRepository) (p : String)
    → caller c ≢ p
    → WritesOwn c s
    → HasEntries s
    → SameOwned p (step c s) s
unfolding create_conversation get_conversation put_conversation create_asset get_asset delete_asset
    create_job update_job get_job add_event delete_conversation ◌>>=◌
owned_kept (call_create_conversation i now o title) s p h w d =
    (owned-put conversation_owner p o i (o, _) s.conversations h refl w, refl, refl)
owned_kept (call_put_conversation now o i title) s p h w d =
    elim (Option-cases (get i s.conversations)) [
      | inl e ↦ ground (arith, e)
      | inr (st, e) ↦ ground (
        arith,
        e,
        string_eq.beq_iff st.0 o,
        owned-put conversation_owner p o i (o, record st.1 { title = title; updated_at = now })
            s.conversations h refl,
      )
    ]
owned_kept (call_delete_conversation o i) s p h w d =
    let ks = keys_where (in_conversation o i) s.jobs in
    elim (Option-cases (get i s.conversations)) [
      | inl e ↦ ground (arith, e)
      | inr (st, e) ↦ ground (
        arith,
        e,
        forgotten_lem ks i s,
        string_eq.beq_iff st.0 o,
        jobs_elsewhere s o p i h d.2,
        owned-pop conversation_owner p i s.conversations d.0,
        not_owned conversation_owner p o i s.conversations h,
      )
    ]
owned_kept (call_create_asset asset) s p h w d =
    (refl, owned-put asset_owner p asset.owner_id asset.response.id asset s.assets h refl w, refl)
owned_kept (call_delete_asset o i) s p h w d = elim (Option-cases (get i s.assets)) [
  | inl e ↦ ground (arith, e)
  | inr (a, e) ↦ ground (
    arith,
    e,
    string_eq.beq_iff a.owner_id o,
    owned-pop asset_owner p i s.assets d.1,
    not_owned asset_owner p o i s.assets h,
  )
]
owned_kept (call_create_job job) s p h w d =
    (refl, refl, owned-put job_owner p job.owner_id job.response.id job s.jobs h refl w)
owned_kept (call_update_job job) s p h w d =
    (refl, refl, owned-put job_owner p job.owner_id job.response.id job s.jobs h refl w)
owned_kept (call_add_event now o i t x) s p h w d = elim (Option-cases (get i s.jobs)) [
  | inl e ↦ ground (arith, e)
  | inr (job, e) ↦ ground (arith, e, string_eq.beq_iff job.owner_id o)
]

-- Let the conversations, the assets and the jobs have one entry for each identifier, and let a call
-- write under an identifier that is new or the caller's own. Then an owner other than the caller
-- reads after the call what it read before: a conversation, an asset, a job and its events by
-- identifier; the lists of its conversations, assets and jobs; the jobs of a conversation; and the
-- count of its active jobs. The calls are those that write a conversation, an asset, a job or an
-- event.
pub reads_kept :
    (c : Call) (s : StudioRepository) (p id : String) (after_id : ℕ)
    → caller c ≢ p
    → WritesOwn c s
    → HasEntries s
    → SameFor p id after_id (step c s) s × SameLists p (step c s) s
reads_kept c s p id after_id h w d =
    (tenant_kept c s p id after_id h w d.2, same_lists p (step c s) s (owned_kept c s p h w d))
