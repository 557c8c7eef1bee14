-- ===== src/Studio/Tenancy.antt =====
-- One owner's calls of the repository, as another owner sees them.
use oneiroi.Prelude.{
  ℕ, ◌≡◌, ◌≢◌, ◌⊎◌, refl, String, Option, none, some, List, [], ◌∷◌, ◌++◌, ◌==◌, string_eq, elem,
  or_else, Option-cases, inl, inr, arith, if◌then◌else◌,
}
use oneiroi.Prelude.Dict.{
  Dict, get, put, pop, keys_where, get-put, get-pop, IsDistinct, elem-keys_where,
}
use oneiroi.Prelude.Effects.{Result, ok, err, ◌>>=◌}
use oneiroi.Failure.{Failure, key_error}
use oneiroi.Studio.{StoredAsset, StoredJob, ConversationResponse}
use oneiroi.Studio.Repository.{
  StudioRepository, create_conversation, get_conversation, put_conversation, in_conversation,
  forget_jobs, delete_conversation, create_asset, get_asset, delete_asset, create_job, update_job,
  get_job, add_event, list_events, new_event,
}
use oneiroi.Studio.Calls.{
  Call, step, caller, IsFree, WritesOwn, call_create_conversation, call_put_conversation,
  call_delete_conversation, call_create_asset, call_delete_asset, call_create_job, call_update_job,
  call_add_event,
}

-- What the owner can look up: the conversation, the asset, the job and its events.
abbrev pub SameFor : String → String → ℕ → StudioRepository → StudioRepository → Type 0
SameFor p id after_id t s =
    ((get_conversation p id t).0 ≡ (get_conversation p id s).0)
    × ((get_asset p id t).0 ≡ (get_asset p id s).0)
    × ((get_job p id t).0 ≡ (get_job p id s).0)
    × ((list_events p id after_id t).0 ≡ (list_events p id after_id s).0)

-- the value that an owner reads under an identifier
abbrev readable : {V : Type 0} → (V → String) → String → Option V → Option V
readable owner p none = none
readable owner p (some v) = if owner v == p then some v else none

abbrev answer : {A : Type 0} → String → Option A → Result Failure A
answer id none = err (key_error id)
answer id (some a) = ok a

abbrev pub conversation_owner : String × ConversationResponse → String
conversation_owner e = e.0

abbrev pub asset_owner : StoredAsset → String
asset_owner asset = asset.owner_id

abbrev pub job_owner : StoredJob → String
job_owner job = job.owner_id

-- What an owner's reads depend on.
abbrev SameView : String → String → StudioRepository → StudioRepository → Type 0
SameView p id t s =
    (readable conversation_owner p (get id t.conversations)
      ≡ readable conversation_owner p (get id s.conversations))
    × (readable asset_owner p (get id t.assets) ≡ readable asset_owner p (get id s.assets))
    × (readable job_owner p (get id t.jobs) ≡ readable job_owner p (get id s.jobs))
    × ((get id t.events ≡ get id s.events) ⊎ (readable job_owner p (get id s.jobs) ≡ none))

same_for : (p id : String) (n : ℕ) (t s : StudioRepository) → SameView p id t s → SameFor p id n t s
unfolding get_conversation get_asset get_job list_events ◌>>=◌
same_for p id n t s (c, a, j, e) =
    (ground (arith, c), ground (arith, a), ground (arith, j), ground (arith, j, e))

module _ {V : Type 0} (owner : V → String) where
  readable-put :
      (o p k id : String) (v : V) (d : Dict String V)
      → o ≢ p
      → owner v ≡ o
      → IsFree owner o (get k d)
      → readable owner p (get id (put k v d)) ≡ readable owner p (get id d)
  readable-put o p k id v d n w f =
      ground
        (arith, get-put k id v d, string_eq.beq_iff k id, string_eq.beq_iff (owner v) p, w, n, f)

  readable-pop :
      (o p k id : String) (d : Dict String V)
      → o ≢ p
      → IsFree owner o (get k d)
      → readable owner p (get id (pop k d)) ≡ readable owner p (get id d)
  readable-pop o p k id d n f = elim (Option-cases (get k d)) [
    | inl e ↦ ground (arith, get-pop k id d, string_eq.beq_iff k id, e)
    | inr (v, e) ↦
        ground
          (arith, get-pop k id d, string_eq.beq_iff k id, string_eq.beq_iff (owner v) p, n, f, e)
  ]

-- the jobs and events after the loop of `delete_conversation`
pub forgotten_lem :
    (ids : List String) (id : String) (s : StudioRepository)
    → (get id (forget_jobs ids s).jobs ≡ (if elem id ids then none else get id s.jobs))
      × (get id (forget_jobs ids s).events ≡ (if elem id ids then none else get id s.events))
      × ((forget_jobs ids s).conversations ≡ s.conversations)
      × ((forget_jobs ids s).assets ≡ s.assets)
forgotten_lem [] id s = (refl, refl, refl, refl)
forgotten_lem (i ∷ ids) id s =
    let t : StudioRepository = record s {
      jobs = pop i s.jobs;
      attempts = pop i s.attempts;
      events = pop i s.events;
    } in
    let h = forgotten_lem ids id t in
    (ground (arith, h.0, get-pop i id s.jobs), ground (arith, h.1, get-pop i id s.events), h.2, h.3)

unchanged : (p id : String) (s : StudioRepository) → SameView p id s s
unchanged p id s = (refl, refl, refl, inl refl)

-- after `delete_conversation` found the conversation
deleted_conversation :
    (s : StudioRepository) (o p i id : String) (st : String × ConversationResponse)
    → o ≢ p
    → IsDistinct s.jobs
    → get i s.conversations ≡ some st
    → SameView p id (delete_conversation o i s).1 s
unfolding delete_conversation get_conversation ◌>>=◌
deleted_conversation s o p i id st h d e =
    let ids = keys_where (in_conversation o i) s.jobs in
    let f = forgotten_lem ids id s in
    let m = elem-keys_where (in_conversation o i) id s.jobs d in
    (
      ground (
        arith,
        e,
        f.2,
        string_eq.beq_iff st.0 o,
        readable-pop conversation_owner o p i id s.conversations h,
      ),
      ground (arith, e, f.3),
      elim (Option-cases (get id s.jobs)) [
        | inl q ↦ ground (arith, e, f.0, q)
        | inr (job, q) ↦ ground (
          arith,
          e,
          f.0,
          q,
          m,
          h,
          string_eq.beq_iff job.owner_id p,
          string_eq.beq_iff job.owner_id o,
        )
      ],
      elim (Option-cases (get id s.jobs)) [
        | inl q ↦ inr (rw q refl)
        | inr (job, q) ↦ ground (
          arith,
          e,
          f.1,
          q,
          m,
          h,
          string_eq.beq_iff job.owner_id p,
          string_eq.beq_iff job.owner_id o,
        )
      ],
    )

view_kept :
    (c : Call) (s : StudioRepository) (p id : String)
    → caller c ≢ p
    → WritesOwn c s
    → IsDistinct s.jobs
    → SameView p id (step c s) s
unfolding create_conversation get_conversation put_conversation create_asset get_asset delete_asset
    create_job update_job get_job add_event delete_conversation ◌>>=◌
view_kept (call_create_conversation i now o title) s p id h w d =
    (readable-put conversation_owner o p i id (o, _) s.conversations h refl w, refl, refl, inl refl)
view_kept (call_put_conversation now o i title) s p id h w d =
    elim (Option-cases (get i s.conversations)) [
      | inl e ↦ ground (arith, e)
      | inr (st, e) ↦ ground (
        arith,
        e,
        string_eq.beq_iff st.0 o,
        readable-put conversation_owner o p i id
            (o, record st.1 { title = title; updated_at = now }) s.conversations h refl,
      )
    ]
view_kept (call_delete_conversation o i) s p id h w d =
    elim (Option-cases (get i s.conversations)) [
      | inl e ↦ ground (arith, e)
      | inr (st, e) ↦ deleted_conversation s o p i id st h d e
    ]
view_kept (call_create_asset asset) s p id h w d = (
  refl,
  readable-put asset_owner asset.owner_id p asset.response.id id asset s.assets h refl w,
  refl,
  inl refl,
)
view_kept (call_delete_asset o i) s p id h w d = elim (Option-cases (get i s.assets)) [
  | inl e ↦ ground (arith, e)
  | inr (a, e) ↦
      ground
        (arith, e, string_eq.beq_iff a.owner_id o, readable-pop asset_owner o p i id s.assets h)
]
view_kept (call_create_job job) s p id h w d = (
  refl,
  refl,
  readable-put job_owner job.owner_id p job.response.id id job s.jobs h refl w,
  inl refl,
)
view_kept (call_update_job job) s p id h w d = (
  refl,
  refl,
  readable-put job_owner job.owner_id p job.response.id id job s.jobs h refl w,
  inl refl,
)
view_kept (call_add_event now o i t x) s p id h w d = elim (Option-cases (get i s.jobs)) [
  | inl e ↦ ground (arith, e)
  | inr (job, e) ↦ ground (
    arith,
    e,
    string_eq.beq_iff job.owner_id o,
    string_eq.beq_iff job.owner_id p,
    string_eq.beq_iff i id,
    get-put i id (or_else (get i s.events) [] ++ new_event now i t x s ∷ []) s.events,
    h,
  )
]

-- A call changes nothing that an owner other than its caller looks up by identifier, if it writes
-- under an identifier that is new or the caller's own and every job has one entry.
pub tenant_kept :
    (c : Call) (s : StudioRepository) (p id : String) (after_id : ℕ)
    → caller c ≢ p
    → WritesOwn c s
    → IsDistinct s.jobs
    → SameFor p id after_id (step c s) s
tenant_kept c s p id after_id h w d = same_for p id after_id (step c s) s (view_kept c s p id h w d)
