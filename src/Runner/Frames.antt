-- ===== src/Runner/Frames.antt =====
-- The frames that a draft asks for: `_dimensions` and `_generation_request` of redis_runtime.py, and
-- the checks of `InternalI2VRequest` in packages/python/common/src/oneiroi_common/generation.py.
use oneiroi.Prelude.{
  ◌≡◌, refl, ℕ, ◌+◌, ◌-◌, ◌*◌, ◌/◌, ◌%◌, String, Bool, true, false, ◌&&◌, ◌==◌, string_eq, nat_eq,
  leb, ltb, if◌then◌else◌, arith,
}

abbrev pub landscape : String → ℕ × ℕ
landscape resolution = if resolution == "1080p" then (1920, 1088) else (1280, 704)

-- `_dimensions`
unfoldable pub dimensions : String → String → ℕ × ℕ
dimensions resolution ratio =
    let l = landscape resolution in
    if ratio == "9:16" then (l.1, l.0) else if ratio == "1:1" then (l.1, l.1) else l

-- Python's `round` of a quotient: to the nearest, and to the even one of two
abbrev pub rounded : ℕ → ℕ → ℕ
rounded a b =
    let q = a / b in
    let r = a % b in
    if ltb (2 * r) b then q else if ltb b (2 * r) then q + 1 else if q % 2 == 0 then q else q + 1

-- the frames of a duration in seconds
unfoldable pub num_frames : ℕ → ℕ
num_frames duration = rounded (duration * 24 - 1) 8 * 8 + 1

-- the checks on the sizes, and on the number of frames
unfoldable pub is_valid_dimension : ℕ → Bool
is_valid_dimension value = leb 64 value && value % 64 == 0

unfoldable pub is_valid_frames : ℕ → Bool
is_valid_frames value = leb 1 value && (value - 1) % 8 == 0

-- the four sizes, by the three tests
abbrev sizes : Bool → Bool → Bool → ℕ × ℕ
sizes full portrait square =
    let l : ℕ × ℕ = if full then (1920, 1088) else (1280, 704) in
    if portrait then (l.1, l.0) else if square then (l.1, l.1) else l

valid_sizes :
    (full portrait square : Bool)
    → (is_valid_dimension (sizes full portrait square).0 ≡ true)
      × (is_valid_dimension (sizes full portrait square).1 ≡ true)
unfolding is_valid_dimension
valid_sizes true true square = (refl, refl)
valid_sizes true false true = (refl, refl)
valid_sizes true false false = (refl, refl)
valid_sizes false true square = (refl, refl)
valid_sizes false false true = (refl, refl)
valid_sizes false false false = (refl, refl)

num_frames_lem : (duration : ℕ) → num_frames duration ≡ 24 * duration + 1
unfolding num_frames
num_frames_lem duration = ground arith

-- Whatever the resolution, the ratio and the duration of a draft: the sizes and the number of frames
-- pass the checks of the request, and the clip has 24 frames for each second and one more.
pub frames_valid :
    (resolution ratio : String) (duration : ℕ)
    → (is_valid_dimension (dimensions resolution ratio).0 ≡ true)
      × (is_valid_dimension (dimensions resolution ratio).1 ≡ true)
      × (is_valid_frames (num_frames duration) ≡ true)
      × (num_frames duration ≡ 24 * duration + 1)
unfolding dimensions is_valid_dimension is_valid_frames
frames_valid resolution ratio duration =
    (v.0, v.1, ground (arith, num_frames_lem duration), num_frames_lem duration)
  where
    v :
        (is_valid_dimension (dimensions resolution ratio).0 ≡ true)
        × (is_valid_dimension (dimensions resolution ratio).1 ≡ true)
    v = valid_sizes (resolution == "1080p") (ratio == "9:16") (ratio == "1:1")
