-- ===== src/Leases/View.antt =====
-- What a lookup shows after each operation of the lease store.
use oneiroi.Prelude.{
  ℕ, suc, ◌≡◌, refl, String, false, Option, none, some, List, [], ◌∷◌, All, IsUnique, ap, length,
  elem-take, elem-filter_failing, string_eq, arith, elem, if◌then◌else◌, map, find, ◌==◌,
}
use oneiroi.Prelude.Dict.{
  Dict, get, put, IsDistinct, drop_if, holds, get-put, get-pop_where, put-IsDistinct,
  pop_all-IsDistinct, put_all, keys_where,
}
use oneiroi.Leases.{
  Lease, LeaseStore, is_expired, is_held_by, remove_expired, granted_lease, issue, entries, select,
  renew_all,
}

-- The lease that a GPU has at a time.
abbrev pub live : ℕ → LeaseStore → String → Option Lease
live now s j = drop_if (is_expired now) (get j s)

pub get-remove_expired :
    (now : ℕ) (s : LeaseStore) (j : String)
    → IsDistinct s
    → get j (remove_expired now s) ≡ live now s j
unfolding remove_expired
get-remove_expired now s j d = get-pop_where (is_expired now) j s d

pub remove_expired-IsDistinct :
    (now : ℕ) (s : LeaseStore) → IsDistinct s → IsDistinct (remove_expired now s)
unfolding remove_expired
remove_expired-IsDistinct now s d = pop_all-IsDistinct (keys_where (is_expired now) s) s d

-- A GPU that is not among the issued leases keeps its entry.
pub get-issued_other :
    (session_id : String) (expires : ℕ) (token : ℕ → String) (n : ℕ) (ids : List String)
    (s : LeaseStore) (j : String)
    → elem j ids ≡ false
    → get j (put_all (entries (issue session_id expires token n ids)) s) ≡ get j s
unfolding put_all issue
get-issued_other sid x token n [] s j h = refl
get-issued_other sid x token n (i ∷ ids) s j h = ground (
  arith,
  get-issued_other sid x token (suc n) ids (put i (granted_lease i sid (token n) x) s) j,
  get-put i j (granted_lease i sid (token n) x) s,
)

-- Every issued lease is the entry of its GPU, if no GPU is named twice.
pub get-issued_self :
    (session_id : String) (expires : ℕ) (token : ℕ → String) (n : ℕ) (ids : List String)
    (s : LeaseStore)
    → IsUnique ids
    → All
        (λ l. get l.gpu_id (put_all (entries (issue session_id expires token n ids)) s) ≡ some l)
        (issue session_id expires token n ids)
unfolding put_all issue
get-issued_self sid x token n [] s u = tt
get-issued_self sid x token n (i ∷ ids) s u = (
  ground (
    arith,
    get-issued_other sid x token (suc n) ids (put i (granted_lease i sid (token n) x) s) i,
    get-put i i (granted_lease i sid (token n) x) s,
    string_eq.beq_iff i i,
  ),
  get-issued_self sid x token (suc n) ids (put i (granted_lease i sid (token n) x) s) u.1,
)

pub gpu_ids-issue :
    (session_id : String) (expires : ℕ) (token : ℕ → String) (n : ℕ) (ids : List String)
    → map (λ l. l.gpu_id) (issue session_id expires token n ids) ≡ ids
unfolding issue
gpu_ids-issue sid x token n [] = refl
gpu_ids-issue sid x token n (i ∷ ids) = ap (λ js. i ∷ js) (gpu_ids-issue sid x token (suc n) ids)

-- the lease of a GPU among these
abbrev pub lease_among : String → List Lease → Option Lease
lease_among j leases = find (λ l. l.gpu_id == j) leases

abbrev pub first_some : {A : Type 0} → Option A → Option A → Option A
first_some none other = other
first_some (some a) other = some a

lease_among-issue :
    (session_id : String) (expires : ℕ) (token : ℕ → String) (n : ℕ) (ids : List String)
    (j : String)
    → elem j ids ≡ false
    → lease_among j (issue session_id expires token n ids) ≡ none
unfolding issue
lease_among-issue sid x token n [] j h = refl
lease_among-issue sid x token n (i ∷ ids) j h =
    ground (arith, h, lease_among-issue sid x token (suc n) ids j, string_eq.beq_iff i j)

-- After the leases are stored, the entry of a GPU is its lease among them, or the one from before.
pub get-issued :
    (session_id : String) (expires : ℕ) (token : ℕ → String) (n : ℕ) (ids : List String)
    (s : LeaseStore) (j : String)
    → IsUnique ids
    → get j (put_all (entries (issue session_id expires token n ids)) s)
      ≡ first_some (lease_among j (issue session_id expires token n ids)) (get j s)
unfolding put_all issue
get-issued sid x token n [] s j u = refl
get-issued sid x token n (i ∷ ids) s j u = ground (
  arith,
  u,
  get-issued sid x token (suc n) ids (put i (granted_lease i sid (token n) x) s) j u.1,
  get-put i j (granted_lease i sid (token n) x) s,
  lease_among-issue sid x token (suc n) ids j,
  string_eq.beq_iff i j,
)

pub length-issue :
    (session_id : String) (expires : ℕ) (token : ℕ → String) (n : ℕ) (ids : List String)
    → length (issue session_id expires token n ids) ≡ length ids
unfolding issue
length-issue sid x token n [] = refl
length-issue sid x token n (i ∷ ids) = ap suc (length-issue sid x token (suc n) ids)

-- What the selection takes is free.
pub elem-select :
    (candidates : List String) (requested : ℕ) (s : LeaseStore) (j : String) (l : Lease)
    → get j s ≡ some l
    → elem j (select candidates requested s) ≡ false
unfolding select
elem-select candidates requested s j l h =
    elem-take j requested _ (elem-filter_failing _ j candidates (rw h))

-- `renew_all` writes the renewed entry of each GPU that the session holds among the items.
abbrev pub extended : String → ℕ → Lease → Lease
extended gpu_id expires l = record l { gpu_id = gpu_id; expires_at_monotonic = expires }

-- What the loop leaves at a GPU, from the item that it finds there and the entry before.
abbrev pub renewed_entry : String → ℕ → String → Option Lease → Option Lease → Option Lease
renewed_entry session_id expires gpu_id none before = before
renewed_entry session_id expires gpu_id (some l) before =
    if is_held_by session_id l then some (extended gpu_id expires l) else before

pub get-renew_all :
    (session_id : String) (expires : ℕ) (items : Dict String Lease) (s : LeaseStore) (j : String)
    → IsDistinct items
    → get j (renew_all session_id expires items s).1
      ≡ renewed_entry session_id expires j (get j items) (get j s)
unfolding renew_all get
get-renew_all sid x [] s j d = refl
get-renew_all sid x ((i, l) ∷ items) s j d = ground (
  arith,
  get-renew_all sid x items (put i (granted_lease i sid l.fencing_token x) s) j d.1,
  get-renew_all sid x items s j d.1,
  get-put i j (granted_lease i sid l.fencing_token x) s,
  string_eq.beq_iff i j,
  string_eq.beq_iff l.session_id sid,
)

pub renew_all-IsDistinct :
    (session_id : String) (expires : ℕ) (items : Dict String Lease) (s : LeaseStore)
    → IsDistinct s
    → IsDistinct (renew_all session_id expires items s).1
unfolding renew_all
renew_all-IsDistinct sid x [] s d = d
renew_all-IsDistinct sid x ((i, l) ∷ items) s d = ground (
  arith,
  renew_all-IsDistinct sid x items (put i (granted_lease i sid l.fencing_token x) s)
      (put-IsDistinct i (granted_lease i sid l.fencing_token x) s d),
  renew_all-IsDistinct sid x items s d,
)

-- The keys that the loop reports are those of the items that the session holds.
pub elem-renew_all :
    (session_id : String) (expires : ℕ) (items : Dict String Lease) (s : LeaseStore) (j : String)
    → IsDistinct items
    → elem j (renew_all session_id expires items s).0 ≡ holds (is_held_by session_id) (get j items)
unfolding renew_all get
elem-renew_all sid x [] s j d = refl
elem-renew_all sid x ((i, l) ∷ items) s j d = ground (
  arith,
  elem-renew_all sid x items (put i (granted_lease i sid l.fencing_token x) s) j d.1,
  elem-renew_all sid x items s j d.1,
  string_eq.beq_iff i j,
)
