-- ===== src/Mfa/Totp.antt =====
-- internal/mfa/totp.go, recovery.go and keys.go: one-time passwords, recovery codes, and the sealed
-- secrets. A byte string is a text. HMAC-SHA1 gives twenty bytes, so no index leaves the sum.
use shieldgate.Base.{
  ℕ, zero, suc, ◌+◌, ◌-◌, ◌*◌, ◌/◌, ◌%◌, ◌^◌, ◌==◌, ltb, leb, Bool, true, ◌&&◌, ◌||◌, Option, none,
  some, List, [], ◌∷◌, Text, length, take, drop, get_or, len, trim_space, text_eq, if◌then◌else◌,
}
use shieldgate.Model.{Time, seconds}
use shieldgate.Effect.{Env}

abbrev pub digits : ℕ
digits = 6

abbrev pub period : ℕ
period = 30

-- `Step`.
unfoldable pub step_of : Time → ℕ
step_of t = seconds t / period

-- The eight bytes of `binary.BigEndian.PutUint64`.
unfoldable pub big_endian : ℕ → ℕ → List ℕ
big_endian zero n = []
big_endian (suc k) n = (n / 256 ^ k % 256) ∷ big_endian k n

-- `%0*d` at the given width, for a number of at most that many digits.
unfoldable pub decimal : ℕ → ℕ → Text
decimal zero n = []
decimal (suc k) n = (n / 10 ^ k % 10 + 48) ∷ decimal k n

-- `binary.BigEndian.Uint32` of the four bytes at the offset, without the sign bit.
unfoldable pub truncated : List ℕ → ℕ → ℕ
truncated sum offset =
    (get_or sum offset 0 * 2 ^ 24
      + get_or sum (offset + 1) 0 * 2 ^ 16
      + get_or sum (offset + 2) 0 * 2 ^ 8
      + get_or sum (offset + 3) 0)
    % 2 ^ 31

-- `Code`.
unfoldable pub totp_code : Env → Text → ℕ → Text
unfolding big_endian truncated decimal
totp_code e secret step =
    let sum = e.hmac_sha1 secret (big_endian 8 step) in
    let offset = get_or sum (length sum - 1) 0 % 16 in
    decimal digits (truncated sum offset % 1_000_000)

-- The loop of `Verify`: the first of the steps whose code is the given one.
unfoldable pub first_match : Env → Text → Text → List ℕ → Option ℕ
first_match e secret code [] = none
first_match e secret code (step ∷ rest) =
    if text_eq (totp_code e secret step) code then some step else first_match e secret code rest

-- `Verify`, with a `Skew` of one step; the clock is past its first step.
unfoldable pub verify_totp : Env → Text → Text → Time → Option ℕ
unfolding step_of first_match
verify_totp e secret input now =
    let code = trim_space input in
    let current = step_of now in
    if len code == digits
    then first_match e secret code ((current - 1) ∷ current ∷ (current + 1) ∷ [])
    else none

abbrev pub is_digit : ℕ → Bool
is_digit c = leb 48 c && leb c 57

unfoldable pub all_digits : Text → Bool
all_digits [] = true
all_digits (c ∷ s) = is_digit c && all_digits s

-- `LooksLikeTOTP`.
unfoldable pub looks_like_totp : Text → Bool
unfolding all_digits
looks_like_totp input = let code = trim_space input in len code == digits && all_digits code

abbrev normal_char : ℕ → ℕ
normal_char c = if leb 97 c && leb c 122 then c - 97 + 65 else c

-- The mapping of `NormalizeRecoveryCode`.
unfoldable pub normal_chars : Text → Text
normal_chars [] = []
normal_chars (c ∷ s) =
    let rest = normal_chars s in if c == b'-' || c == b' ' then rest else normal_char c ∷ rest

-- `NormalizeRecoveryCode`.
unfoldable pub normalize_recovery_code : Text → Text
unfolding normal_chars
normalize_recovery_code code = normal_chars (trim_space code)

-- `HashRecoveryCode`.
unfoldable pub hash_recovery_code : Env → Text → Text
hash_recovery_code e code = e.recovery_hmac (normalize_recovery_code code)

abbrev open_raw : Env → Text → Option Text → Option Text
open_raw e aad none = none
open_raw e aad (some raw) =
    if ltb (length raw) 12 then none else e.gcm_open (take 12 raw) (drop 12 raw) aad

-- `Keys.Open`; the nonce of AES-GCM has twelve bytes.
unfoldable pub open_secret : Env → Text → Text → Option Text
open_secret e sealed aad = open_raw e aad (e.base64_decode sealed)
