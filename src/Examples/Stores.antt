-- ===== src/Examples/Stores.antt =====
-- A small server that keeps the laws of Redis, and the lease store on it.
use Prim.Native.Char.{Char}
use text.Mathlib.Text.{starts_with}
use oneiroi.Prelude.{
  ◌≡◌, ◌≤◌, ◌+◌, ◌-◌, refl, ap, ℕ, String, Bool, true, ◌&&◌, Option, none, some, List, [], ◌∷◌,
  ◌==◌, string_eq, elem, filter, is_some, is_none, if◌then◌else◌, arith, Option-cases, inl, inr,
}
use oneiroi.Prelude.Dict.{Dict, keys, get, put, pop, get-put, get-pop, IsDistinct}
use oneiroi.Leases.{LeaseStore, granted_lease, remove_expired, select}
use oneiroi.Leases.{acquire as acquire_in_memory, step as step_in_memory}
use oneiroi.Leases.Redis.{Server, IsServer, Codec, Payload, until, lease_key, acquire, step, Call}
use oneiroi.Leases.RedisView.{lease_key_beq}
use oneiroi.Leases.RedisAcquire.{Agrees, tokens}
use oneiroi.Leases.Refinement.{in_memory, step-Agrees}
use oneiroi.Leases.RedisGrants.{acquire_returns}

-- values with the time at which they expire
abbrev Values : Type 0
Values = Dict String (String × ℕ)

abbrev live_value : ℕ → Option (String × ℕ) → Option String
live_value t none = none
live_value t (some (value, expiry)) = until t expiry (some value)

abbrev get_value : ℕ → String → Values → Option String
get_value t k s = live_value t (get k s)

abbrev is_listed : ℕ → String → Values → String → Bool
is_listed now prefix s k = starts_with k prefix && is_some (get_value now k s)

abbrev time_left : ℕ → Option (String × ℕ) → ℕ
time_left now none = 0
time_left now (some (value, expiry)) = expiry - now

abbrev renewed : ℕ → String → Option String → Values → Values
renewed expiry k none s = s
renewed expiry k (some value) s = put k (value, expiry) s

abbrev server : Server Values
server = record {
  get_key = get_value;
  pttl = λ now k s. time_left now (get k s);
  set_nx = λ now k value px s. if is_none (get_value now k s) then put k (value, now + px) s else s;
  pexpire = λ now k px s. renewed (now + px) k (get_value now k s) s;
  del = pop;
  scan = λ now prefix s. filter (is_listed now prefix s) (keys s);
}

elem-keys : (k : String) (s : Values) → elem k (keys s) ≡ is_some (get k s)
unfolding get
elem-keys k [] = refl
elem-keys k ((j, v) ∷ s) = ground (arith, elem-keys k s)

elem-filter_keys :
    (p : String → Bool) (k : String) (ks : List String) → elem k (filter p ks) ≡ (elem k ks && p k)
elem-filter_keys p k [] = refl
elem-filter_keys p k (j ∷ ks) = ground (arith, elem-filter_keys p k ks, string_eq.beq_iff j k)

pexpire_lem :
    (now t : ℕ) (k j : String) (px : ℕ) (s : Values)
    → now ≤ t
    → get_value t j (renewed (now + px) k (get_value now k s) s) ≡ (
        if k == j && is_some (get_value now k s)
        then until t (now + px) (get_value now k s)
        else get_value t j s)
pexpire_lem now t k j px s l = elim (Option-cases (get_value now k s)) [
  | inl e ↦ ground (arith, e)
  | inr (value, e) ↦ ground (arith, e, get-put k j (value, now + px) s)
]

server-IsServer : IsServer server
server-IsServer = record {
  get-set_nx = λ now t k j value px s l p.
      ground (arith, l, p, get-put k j (value, now + px) s, string_eq.beq_iff k j);
  get-pexpire = pexpire_lem;
  get-del = λ t k j s. ground (arith, get-pop k j s);
  elem-scan = λ now prefix k s.
      ground (arith, elem-filter_keys (is_listed now prefix s) k (keys s), elem-keys k s);
}

-- A pair of texts as one: a mark "1" before each character of the first, and "0" before the second.
abbrev with_head : String → String → String
with_head String.[] t = t
with_head (String.◌∷◌ m rest) t = String.◌∷◌ m t

encode_texts : String → String → String
encode_texts String.[] t = with_head "0" t
encode_texts (String.◌∷◌ c s) t = with_head "1" (String.◌∷◌ c (encode_texts s t))

abbrev marked : Char → (String × String) → (String × String)
marked c (s, t) = (String.◌∷◌ c s, t)

decode_text : String → String × String
decode_text String.[] = ("", "")
decode_text (String.◌∷◌ m String.[]) = ("", "")
decode_text (String.◌∷◌ m (String.◌∷◌ c s)) =
    let rest = decode_text s in
    if String.◌∷◌ m String.[] == "0" then ("", String.◌∷◌ c s) else marked c rest

decode_text-encode_texts : (s t : String) → decode_text (encode_texts s t) ≡ (s, t)
unfolding decode_text encode_texts
decode_text-encode_texts String.[] String.[] = refl
decode_text-encode_texts String.[] (String.◌∷◌ c t) = refl
decode_text-encode_texts (String.◌∷◌ c s) t = ap (marked c) (decode_text-encode_texts s t)

abbrev codec : Codec
codec = record {
  encode = λ p. encode_texts p.session_id p.fencing_token;
  decode = λ v. let r = decode_text v in record { session_id = r.0; fencing_token = r.1 };
}

decode-encode : (p : Payload) → codec.decode (codec.encode p) ≡ p
decode-encode p =
    ap (λ (r : String × String). record { session_id = r.0; fencing_token = r.1 })
      (decode_text-encode_texts p.session_id p.fencing_token)

-- GPU a belongs to a session until 100, in both stores.
abbrev memory : LeaseStore
memory = ("a", granted_lease "a" "one" "t" 100) ∷ []

abbrev values_a : Values
values_a =
    (lease_key "a", (codec.encode (record { session_id = "one"; fencing_token = "t" }), 100)) ∷ []

memory-IsDistinct : IsDistinct memory
unfolding get
memory-IsDistinct = (refl, tt)

memory-Agrees : Agrees server codec server-IsServer 50 memory values_a
unfolding get
memory-Agrees t l g = ground (arith, l, lease_key_beq "a" g)

abbrev token_of : String → String
token_of key = "new"

abbrev call : Call
call = Call.acquires ("a" ∷ "b" ∷ []) 2 "two" 60 true token_of

step-Agrees_example :
    Agrees server codec server-IsServer 50
      (step_in_memory 50 (in_memory 50 call memory) memory)
      (step server codec 50 call values_a)
step-Agrees_example =
    step-Agrees server codec server-IsServer decode-encode 50 call memory values_a memory-IsDistinct
      ((refl, (refl, tt)), omega arith) memory-Agrees

acquire_returns_example :
    (acquire server codec ("a" ∷ "b" ∷ []) 2 "two" 60 true 50 50 token_of values_a).0
    ≡ (acquire_in_memory
        ("a" ∷ "b" ∷ [])
        2
        "two"
        60
        true
        50
        (tokens token_of (select ("a" ∷ "b" ∷ []) 2 (remove_expired 50 memory)))
        memory).0
acquire_returns_example =
    acquire_returns server codec server-IsServer 50 memory values_a memory-IsDistinct memory-Agrees
      ("a" ∷ "b" ∷ []) 2 "two" 60 true token_of
