-- ===== src/Device/Display.antt =====
-- User codes, as they are displayed and typed back.
use mathlib.Core.List.{reverse, reverse-reverse}
use mathlib.Core.Path.{ap₂}
use shieldgate.Base.{
  ℕ, zero, suc, ◌≡◌, refl, ap, ◌∙◌, ◌≤◌, ◌<◌, false, some, [], ◌∷◌, ◌++◌, Text, arith, All, subst,
  length, take, drop, get_or, len, is_space, trim_left, trim_space, upper_rune, to_upper,
  remove_all,
}
use shieldgate.Model.{ok}
use shieldgate.Scope.Words.{NoSpace, NoSpace-reverse_aux}
use shieldgate.Effect.{Env, World}
use shieldgate.Effect.Inversion.{bind-eq-ok, outside-eq-ok, pure-eq-ok}
use shieldgate.Device.UserCode.{
  user_code_charset, normalize_user_code, format_user_code, draw_chars, generate_user_code,
}

-- The characters from `-` to `Z`, and the upper-case letters among them.
abbrev IsTyped : ℕ → Type 0
IsTyped c = (45 ≤ c) × (c ≤ 90)

abbrev pub IsLetter : ℕ → Type 0
IsLetter c = (65 ≤ c) × (c ≤ 90)

-- Eight upper-case letters.
abbrev pub IsUserCode : Text → Type 0
IsUserCode code = (length code ≡ 8) × All IsLetter code

typed_not_space : (c : ℕ) → IsTyped c → is_space c ≡ false
unfolding is_space
typed_not_space c h = ground arith

typed_upper : (c : ℕ) → IsTyped c → upper_rune c ≡ c
unfolding upper_rune
typed_upper c h = ground arith

NoSpace-typed : (s : Text) → All IsTyped s → NoSpace s
NoSpace-typed [] h = tt
NoSpace-typed (c ∷ s) h = (typed_not_space c h.0, NoSpace-typed s h.1)

trim_left-NoSpace : (s : Text) → NoSpace s → trim_left s ≡ s
unfolding trim_left
trim_left-NoSpace [] h = refl
trim_left-NoSpace (c ∷ s) h = rw h.0

trim_space-NoSpace : (s : Text) → NoSpace s → trim_space s ≡ s
unfolding trim_space
trim_space-NoSpace s h =
    ap (λ t. reverse (trim_left (reverse t))) (trim_left-NoSpace s h)
    ∙ ap reverse (trim_left-NoSpace (reverse s) (NoSpace-reverse_aux s [] h tt))
    ∙ reverse-reverse s

to_upper-typed : (s : Text) → All IsTyped s → to_upper s ≡ s
unfolding to_upper
to_upper-typed [] h = refl
to_upper-typed (c ∷ s) h =
    rw (typed_upper c h.0) (ap (λ t. c ∷ t) (unfold to_upper in to_upper-typed s h.1))

remove_all-letters : (d : ℕ) (s : Text) → d < 65 → All IsLetter s → remove_all d s ≡ s
unfolding remove_all
remove_all-letters d [] small h = refl
remove_all-letters d (c ∷ s) small h = ground (arith, remove_all-letters d s small h.1)

remove_all-append : (d : ℕ) (s t : Text) → remove_all d (s ++ t) ≡ remove_all d s ++ remove_all d t
unfolding remove_all
remove_all-append d [] t = refl
remove_all-append d (c ∷ s) t = ground (arith, remove_all-append d s t)

len-letters : (s : Text) → All IsLetter s → len s ≡ length s
len-letters [] h = refl
len-letters (c ∷ s) h = ground (arith, len-letters s h.1)

letters-IsTyped : (s : Text) → All IsLetter s → All IsTyped s
letters-IsTyped [] h = tt
letters-IsTyped (c ∷ s) h = (omega arith, letters-IsTyped s h.1)

-- The normal form of any text of letters and dashes is the text without its dashes.
normalize-typed :
    (s : Text) → All IsTyped s → normalize_user_code s ≡ remove_all 32 (remove_all 45 s)
unfolding normalize_user_code
normalize-typed s h =
    ap (λ t. remove_all 32 (remove_all 45 (to_upper t))) (trim_space-NoSpace s (NoSpace-typed s h))
    ∙ ap (λ t. remove_all 32 (remove_all 45 t)) (to_upper-typed s h)

dashed :
    (s t : Text) → All IsLetter s → All IsLetter t → normalize_user_code (s ++ (45 ∷ t)) ≡ s ++ t
unfolding remove_all
dashed s t h k =
    normalize-typed (s ++ (45 ∷ t)) (typed s h)
    ∙ ap (remove_all 32) (remove_all-append 45 s (45 ∷ t))
    ∙ ap₂ (λ x y. remove_all 32 (x ++ y)) (remove_all-letters 45 s (omega arith) h)
        (remove_all-letters 45 t (omega arith) k)
    ∙ remove_all-append 32 s t
    ∙ ap₂ (λ x y. x ++ y) (remove_all-letters 32 s (omega arith) h)
        (remove_all-letters 32 t (omega arith) k)
  where
    typed : (s : Text) → All IsLetter s → All IsTyped (s ++ (45 ∷ t))
    typed [] h = (omega arith, letters-IsTyped t k)
    typed (c ∷ s) h = (omega arith, typed s h.1)

All-take : (n : ℕ) (s : Text) → All IsLetter s → All IsLetter (take n s)
All-take zero s h = tt
All-take (suc n) [] h = tt
All-take (suc n) (c ∷ s) h = (h.0, All-take n s h.1)

All-drop : (n : ℕ) (s : Text) → All IsLetter s → All IsLetter (drop n s)
All-drop zero s h = h
All-drop (suc n) [] h = tt
All-drop (suc n) (c ∷ s) h = All-drop n s h.1

take-append-drop : (n : ℕ) (s : Text) → take n s ++ drop n s ≡ s
take-append-drop zero s = refl
take-append-drop (suc n) [] = refl
take-append-drop (suc n) (c ∷ s) = ap (λ t. c ∷ t) (take-append-drop n s)

-- A code of eight upper-case letters, shown to the user and typed back, normalises to itself.
pub normalize-format :
    (code : Text) → IsUserCode code → normalize_user_code (format_user_code code) ≡ code
unfolding format_user_code
normalize-format code (eight, letters) =
    rw (len-letters code letters, eight)
      (dashed (take 4 code) (drop 4 code) (All-take 4 code letters) (All-drop 4 code letters)
        ∙ take-append-drop 4 code)

get_or-All : (xs : Text) (i : ℕ) → All IsLetter xs → i < length xs → IsLetter (get_or xs i 0)
get_or-All [] i h lt = absurd (omega arith)
get_or-All (x ∷ xs) zero h lt = h.0
get_or-All (x ∷ xs) (suc i) h lt = get_or-All xs i h.1 (omega arith)

module _ (e : Env) (in_range : (k n i : ℕ) → e.random_below k n ≡ some i → i < n) where
  draw_chars-letters :
      (n : ℕ) (w : World) {code : Text} {w' : World}
      → draw_chars e n w ≡ (ok code, w')
      → (length code ≡ n) × All IsLetter code
  unfolding draw_chars
  draw_chars-letters zero w h =
      subst (λ c. (length c ≡ 0) × All IsLetter c) (pure-eq-ok [] w h).0 (refl, tt)
  draw_chars-letters (suc n) w h =
      let (i, w₁, drawn, h₁) = bind-eq-ok _ _ w h in
      let (rest, w₂, more, h₂) = bind-eq-ok _ _ w₁ h₁ in
      let (counted, letters) = draw_chars-letters n w₁ more in
      let drawn_letter = get_or-All user_code_charset i (omega arith) (
        in_range w.calls 20 i
          (outside-eq-ok e (λ k. e.random_below k (len user_code_charset)) w drawn)) in
      subst (λ c. (length c ≡ suc n) × All IsLetter c) (pure-eq-ok _ w₂ h₂).0
        (ap suc counted, (drawn_letter, letters))

  -- Every user code that is generated is eight upper-case letters, and shown with its dash and
  -- typed back it normalises to itself, where the random source draws numbers below its bound.
  pub generate_user_code-IsUserCode :
      (w : World) {code : Text} {w' : World}
      → generate_user_code e w ≡ (ok code, w')
      → IsUserCode code × (normalize_user_code (format_user_code code) ≡ code)
  unfolding generate_user_code
  generate_user_code-IsUserCode w h =
      let (eight, letters) = draw_chars-letters 8 w h in
      ((eight, letters), normalize-format _ (eight, letters))
