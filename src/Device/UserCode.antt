-- ===== src/Device/UserCode.antt =====
-- The user codes of internal/services/device_token_exchange.go. `FormatUserCode` cuts bytes; the
-- codes it is given by the program are ASCII, where bytes and characters agree.
use shieldgate.Base.{
  ℕ, zero, suc, ◌==◌, [], ◌∷◌, ◌++◌, Text, codes, len, trim_space, to_upper, remove_all, take, drop,
  get_or, if◌then◌else◌,
}
use shieldgate.Effect.{Env, Action, outside, pure, ◌>>=◌}

abbrev pub user_code_charset : Text
user_code_charset = codes "BCDFGHJKLMNPQRSTVWXZ"

abbrev pub user_code_length : ℕ
user_code_length = 8

-- `NormalizeUserCode`.
unfoldable pub normalize_user_code : Text → Text
normalize_user_code code = remove_all b' ' (remove_all b'-' (to_upper (trim_space code)))

-- `FormatUserCode`.
unfoldable pub format_user_code : Text → Text
format_user_code code =
    if len code == user_code_length then take 4 code ++ (b'-' ∷ drop 4 code) else code

module _ (e : Env) where
  -- The loop of `generateUserCode`, with the number of characters still to draw.
  unfoldable pub draw_chars : ℕ → Action Text
  draw_chars zero = pure []
  draw_chars (suc n) = do
    i ← outside e (λ k. e.random_below k (len user_code_charset))
    rest ← draw_chars n
    pure (get_or user_code_charset i 0 ∷ rest)

  -- `generateUserCode`.
  unfoldable pub generate_user_code : Action Text
  unfolding draw_chars
  generate_user_code = draw_chars user_code_length
