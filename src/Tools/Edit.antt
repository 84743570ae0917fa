-- ===== src/Tools/Edit.antt =====
-- The text and the size of an edit (src/deepseek_mcp/tools.py: `_build_replacement`).
use deepseek_as_subagent.Prelude.{
  ℕ, zero, suc, ◌+◌, ◌-◌, ◌*◌, ◌≤◌, ◌<◌, ◌≡◌, refl, sym, ap, ◌∙◌, ◌↔◌, ◌⊎◌, inl, inr, Bool, true,
  false, not, ◌&&◌, Option, none, some, [], ◌∷◌, ◌++◌, arith, ltb, ◌==◌, if◌then◌else◌, length,
  is_empty, if_cases, if_true, and_inv, Bool-cases,
}
use deepseek_as_subagent.Prelude.Results.{Result, ok, err, ◌>>◌, raise_if, raise_if-eq-ok, ok-fst}
use deepseek_as_subagent.Text.{Text, starts_with, take}
use deepseek_as_subagent.Tools.{
  max_write_bytes, char_size, encoded_size, clamped_size, wanted, one_less, is_hit, occurrences,
  count, replaced_from, replace, build_replacement, ToolFailure, content_too_large,
  old_string_not_found, not_unique,
}

encoded_size-append : (s t : Text) → encoded_size (s ++ t) ≡ encoded_size s + encoded_size t
unfolding encoded_size
encoded_size-append [] t = omega arith
encoded_size-append (c ∷ s) t = omega (arith, encoded_size-append s t)

char_size_pos : (c : ℕ) → 1 ≤ char_size c
unfolding char_size
char_size_pos c = ground arith

pub length_le-encoded_size : (s : Text) → length s ≤ encoded_size s
unfolding encoded_size
length_le-encoded_size [] = omega arith
length_le-encoded_size (c ∷ s) = omega (arith, char_size_pos c, length_le-encoded_size s)

-- A text that starts with another begins with it.
take-starts_with : (p s : Text) → starts_with p s ≡ true → take (length p) s ≡ p
unfolding starts_with take
take-starts_with [] s h = refl
take-starts_with (a ∷ p) [] h = absurd (cc)
take-starts_with (a ∷ p) (c ∷ s) h = ground (arith, take-starts_with p s)

suc_times : (n a : ℕ) → suc n * a ≡ n * a + a
suc_times n a = omega arith

take_zero : (s : Text) → encoded_size (take 0 s) ≡ 0
unfolding take encoded_size
take_zero s = refl

-- What an edit takes away and what it puts in its place, for a text whose first `skip` code points are
-- left out.
Balanced : Text → Text → Option ℕ → ℕ → Text → Type 0
Balanced old new limit skip s =
    encoded_size (replaced_from old new limit skip s)
      + encoded_size (take skip s)
      + occurrences old limit skip s * encoded_size old
    ≡ encoded_size s + occurrences old limit skip s * encoded_size new

hit-size :
    (old s : Text) (c : ℕ)
    → is_empty old ≡ false
    → starts_with old (c ∷ s) ≡ true
    → encoded_size old ≡ char_size c + encoded_size (take (length old - 1) s)
unfolding encoded_size take
hit-size [] s c e h = absurd (cc)
hit-size (a ∷ old) s c e h =
    ap encoded_size (sym (take-starts_with (a ∷ old) (c ∷ s) h))
    ∙ ap (λ n. char_size c + encoded_size (take n s)) {x = length old} {y = suc (length old) - 1}
        (omega arith)

step-Balanced :
    (old new : Text) (limit : Option ℕ) (c : ℕ) (s : Text) (hit : Bool)
    → is_empty old ≡ false
    → is_hit old limit (c ∷ s) ≡ hit
    → ((l : Option ℕ) (k : ℕ) → Balanced old new l k s)
    → let r =
        replaced_from old new
          (if hit then one_less limit else limit)
          (if hit then length old - 1 else 0)
          s in
      let n =
        occurrences old
          (if hit then one_less limit else limit)
          (if hit then length old - 1 else 0)
          s in
      encoded_size (if hit then new ++ r else c ∷ r)
        + 0
        + (if hit then suc n else n) * encoded_size old
      ≡ char_size c + encoded_size s + (if hit then suc n else n) * encoded_size new
unfolding Balanced encoded_size
step-Balanced old new limit c s true e h balanced =
    let r = replaced_from old new (one_less limit) (length old - 1) s in
    let n = occurrences old (one_less limit) (length old - 1) s in
    let (a, b) = and_inv (wanted limit) (starts_with old (c ∷ s)) h in
    omega (
      arith,
      encoded_size-append new r,
      hit-size old s c e b,
      balanced (one_less limit) (length old - 1),
      suc_times n (encoded_size old),
      suc_times n (encoded_size new),
    )
step-Balanced old new limit c s false e h balanced =
    let b = balanced limit 0 in omega (arith, b, take_zero s)

replaced_from-Balanced :
    (old new : Text) (limit : Option ℕ) (skip : ℕ) (s : Text)
    → is_empty old ≡ false
    → Balanced old new limit skip s
unfolding Balanced replaced_from occurrences encoded_size take
replaced_from-Balanced old new limit zero [] e = omega arith
replaced_from-Balanced old new limit (suc skip) [] e = omega arith
replaced_from-Balanced old new limit (suc skip) (c ∷ s) e =
    omega (arith, replaced_from-Balanced old new limit skip s e)
replaced_from-Balanced old new limit zero (c ∷ s) e =
    step-Balanced old new limit c s (is_hit old limit (c ∷ s)) e refl
      (λ l k. replaced_from-Balanced old new l k s e)

no_size : (r : ℕ) → r * encoded_size [] ≡ 0
unfolding encoded_size
no_size r = omega arith

starts_with-length : (p s : Text) → starts_with p s ≡ true → length p ≤ length s
unfolding starts_with
starts_with-length [] s h = omega arith
starts_with-length (a ∷ p) [] h = absurd (cc)
starts_with-length (a ∷ p) (c ∷ s) h =
    let (e, g) = and_inv (a == c) (starts_with p s) h in omega (arith, starts_with-length p s g)

-- What occurs fits.
occurrences-length :
    (old : Text) (limit : Option ℕ) (skip : ℕ) (s : Text)
    → (occurrences old limit skip s ≡ 0) ⊎ (length old ≤ length s)
unfolding occurrences
occurrences-length old limit skip [] = inl refl
occurrences-length old limit (suc skip) (c ∷ s) = elim (occurrences-length old limit skip s) [
  | inl e ↦ inl e
  | inr l ↦ inr (omega arith)
]
occurrences-length old limit zero (c ∷ s) = elim (Bool-cases (is_hit old limit (c ∷ s))) [
  | inl h ↦
      let (a, b) = and_inv (wanted limit) (starts_with old (c ∷ s)) h in
      inr (starts_with-length old (c ∷ s) b)
  | inr h ↦
      rw h (elim (occurrences-length old limit 0 s) [ inl e ↦ inl e | inr l ↦ inr (omega arith) ])
]

-- A text without room for a replacement keeps none, and one with room for one has one exactly if the
-- text occurs.
occurrences_none : (old : Text) (skip : ℕ) (s : Text) → occurrences old (some 0) skip s ≡ 0
unfolding occurrences
occurrences_none old skip [] = refl
occurrences_none old (suc skip) (c ∷ s) = occurrences_none old skip s
occurrences_none old zero (c ∷ s) = occurrences_none old 0 s

occurrences_one :
    (old : Text) (skip : ℕ) (s : Text)
    → 1 ≤ occurrences old none skip s
    → occurrences old (some 1) skip s ≡ 1
unfolding occurrences
occurrences_one old skip [] h = absurd (omega arith)
occurrences_one old (suc skip) (c ∷ s) h = occurrences_one old skip s h
occurrences_one old zero (c ∷ s) h = elim (Bool-cases (starts_with old (c ∷ s))) [
  | inl g ↦ rw g (ap (λ n. suc n) (occurrences_none old (length old - 1) s))
  | inr g ↦
      let e : occurrences old none 0 (c ∷ s) ≡ occurrences old none 0 s = rw g refl in
      rw g (occurrences_one old 0 s (omega (arith, e, h)))
]

pub clamped_size_small : (s : Text) → length s ≤ max_write_bytes → clamped_size s ≡ encoded_size s
unfolding clamped_size
clamped_size_small s h = ground arith

clamped_size_large :
    (s : Text) → ltb max_write_bytes (length s) ≡ true → clamped_size s ≡ max_write_bytes + 1
unfolding clamped_size
clamped_size_large s h = if_true _ _ h

times_le : (n a b : ℕ) → a ≤ b → n * a ≤ n * b
times_le zero a b h = omega arith
times_le (suc n) a b h = omega (arith, times_le n a b h)

ltb→lt : (a b : ℕ) → ltb a b ≡ true → a < b
ltb→lt a b h = ground arith

-- The size check on the sizes of the parts, of which that of the new text may be clamped, is exact.
fits_iff :
    (text old new : Text) (n size : ℕ)
    → length text ≤ max_write_bytes
    → length old ≤ length text
    → 1 ≤ n
    → n * encoded_size old ≤ encoded_size text
    → size + n * encoded_size old ≡ encoded_size text + n * encoded_size new
    → (ltb (max_write_bytes + n * clamped_size old) (clamped_size text + n * clamped_size new)
        ≡ false)
      ↔ (size ≤ max_write_bytes)
fits_iff text old new n size l m p q e =
    let ct = clamped_size_small text l in
    let co = clamped_size_small old (omega arith) in
    elim (Bool-cases (ltb max_write_bytes (length new))) [
      | inl b ↦
          let cn = clamped_size_large new b in
          let t =
            times_le n (max_write_bytes + 1) (encoded_size new)
              (omega (arith, length_le-encoded_size new, ltb→lt max_write_bytes (length new) b)) in
          rw ct (rw co (rw cn (λ h. absurd (ground (arith, h, t)), λ h. absurd (omega (arith, t)))))
      | inr b ↦
          let cn = clamped_size_small new (ground arith) in
          rw ct (rw co (rw cn (λ h. ground arith, λ h. ground arith)))
    ]

abbrev pub limit_of : Bool → Option ℕ
limit_of replace_all = if replace_all then none else some 1

abbrev pub replacements_of : Text → Text → Bool → ℕ
replacements_of text old replace_all = if replace_all then count text old else 1

replacements_eq :
    (text old : Text) (replace_all : Bool)
    → 1 ≤ count text old
    → occurrences old (limit_of replace_all) 0 text ≡ replacements_of text old replace_all
unfolding count
replacements_eq text old true h = refl
replacements_eq text old false h = occurrences_one old 0 text h

replace-size :
    (text old new : Text) (replace_all : Bool)
    → is_empty old ≡ false
    → 1 ≤ count text old
    → encoded_size (replace text old new (limit_of replace_all))
        + replacements_of text old replace_all * encoded_size old
      ≡ encoded_size text + replacements_of text old replace_all * encoded_size new
unfolding replace Balanced
replace-size text old new replace_all e h =
    rw (← replacements_eq text old replace_all h) (
      omega (arith, replaced_from-Balanced old new (limit_of replace_all) 0 text e, take_zero text))

abbrev pub too_large : Text → Text → Text → Bool → Bool
too_large text old new replace_all =
    ltb (max_write_bytes + replacements_of text old replace_all * clamped_size old)
      (clamped_size text + replacements_of text old replace_all * clamped_size new)

replace-fits :
    (text old new : Text) (replace_all : Bool)
    → is_empty old ≡ false
    → length text ≤ max_write_bytes
    → 1 ≤ count text old
    → let r = replacements_of text old replace_all in
      (ltb (max_write_bytes + r * clamped_size old) (clamped_size text + r * clamped_size new)
        ≡ false)
      ↔ (encoded_size (replace text old new (limit_of replace_all)) ≤ max_write_bytes)
unfolding count
replace-fits text old new replace_all e l h =
    let r = replacements_of text old replace_all in
    fits_iff text old new r (encoded_size (replace text old new (limit_of replace_all))) l
      (elim (occurrences-length old none 0 text) [ inl z ↦ absurd (omega arith) | inr m ↦ m ])
      (if_cases (λ n. 1 ≤ n) replace_all (count text old) 1 (λ b. h) (λ b. omega arith))
      (omega (arith, replace-size text old [] replace_all e h, no_size r))
      (replace-size text old new replace_all e h)

-- An edit of a text of at most 5,000,000 code points fails if the old string does not occur, or occurs
-- more than once without replace_all. Otherwise the bytes of the new text are those of the text, less
-- those of the old string and with those of the new one for each replacement, and the edit succeeds
-- with that text exactly if they are at most 5,000,000. The old string is not empty.
pub build_replacement_lem :
    (text old new : Text) (replace_all : Bool) (path : Text)
    → is_empty old ≡ false
    → length text ≤ max_write_bytes
    → let t = replace text old new (limit_of replace_all) in
      let r = replacements_of text old replace_all in
      let built = build_replacement text old new replace_all path in
      (count text old ≡ 0 → built ≡ err (old_string_not_found path))
      × (1 < count text old → replace_all ≡ false → built ≡ err (not_unique (count text old) path))
      × (1 ≤ count text old
          → (replace_all ≡ true) ⊎ (count text old ≡ 1)
          → (encoded_size t + r * encoded_size old ≡ encoded_size text + r * encoded_size new)
            × (encoded_size t ≤ max_write_bytes → built ≡ ok (t, r))
            × (max_write_bytes < encoded_size t → built ≡ err content_too_large))
unfolding build_replacement
build_replacement_lem text old new replace_all path e l = (
  λ h. rw h refl,
  λ h b. ground (arith, h, b),
  λ h u.
      let found : (count text old == 0) ≡ false = ground arith in
      let unique : (ltb 1 (count text old) && not replace_all) ≡ false = elim u [
        | inl b ↦ rw b (ground arith)
        | inr b ↦ rw b refl
      ] in
      let fits = replace-fits text old new replace_all e l h in
      (
        replace-size text old new replace_all e h,
        λ g. rw found (rw unique (rw (fits.1 g) refl)),
        λ g. elim (Bool-cases (too_large text old new replace_all)) [
          | inl b ↦ rw found (rw unique (rw b refl))
          | inr b ↦ absurd (omega (arith, fits.0 b))
        ],
      ),
)

-- A text whose clamped size is within the limit has that size.
pub clamped_size-fits :
    (s : Text) → ltb max_write_bytes (clamped_size s) ≡ false → encoded_size s ≤ max_write_bytes
clamped_size-fits s h = elim (Bool-cases (ltb max_write_bytes (length s))) [
  | inl b ↦ absurd (ground (arith, h, clamped_size_large s b))
  | inr b ↦ ground (arith, h, clamped_size_small s (ground arith))
]

-- What an edit gives is within the limit.
pub build_replacement-size :
    (text old new : Text) (replace_all : Bool) (path : Text) {t : Text} {r : ℕ}
    → is_empty old ≡ false
    → length text ≤ max_write_bytes
    → build_replacement text old new replace_all path ≡ ok (t, r)
    → encoded_size t ≤ max_write_bytes
unfolding build_replacement
build_replacement-size text old new replace_all path {t} {r} e l h =
    let done : Result ToolFailure (Text × ℕ) =
      ok (replace text old new (limit_of replace_all), replacements_of text old replace_all) in
    let sized : Result ToolFailure (Text × ℕ) = (do
      raise_if (too_large text old new replace_all) content_too_large
      done) in
    let (a, h1) =
      raise_if-eq-ok (count text old == 0) (old_string_not_found path)
        (do
          raise_if (ltb 1 (count text old) && not replace_all) (not_unique (count text old) path)
          sized)
        h in
    let (b, h2) =
      raise_if-eq-ok (ltb 1 (count text old) && not replace_all) (not_unique (count text old) path)
        sized h1 in
    let (c, h3) = raise_if-eq-ok (too_large text old new replace_all) content_too_large done h2 in
    rw (← ok-fst h3) ((replace-fits text old new replace_all e l (ground (arith, a))).0 c)
