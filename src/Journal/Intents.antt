-- ===== src/Journal/Intents.antt =====
-- What the operations on the journal keep (src/deepseek_mcp/transaction_journal.py).
use mathlib.Core.Path.{subst}
use deepseek_as_subagent.Prelude.{
  ℕ, suc, ◌≤◌, ◌≡◌, refl, ap, ◌∙◌, Bool, true, false, Option, none, some, List, [], ◌∷◌, arith, any,
  All, if◌then◌else◌, Bool-cases, Option-cases, inl, inr,
}
use deepseek_as_subagent.Prelude.Results.{ok}
use deepseek_as_subagent.Prelude.Exec.{pure, ◌>>=◌, Exec-bind}
use deepseek_as_subagent.Text.{Text, text_eq, text_eq_iff, text_eq_refl}
use deepseek_as_subagent.Json.{Value}
use deepseek_as_subagent.Journal.{StoredRecord, max_records, name}
use deepseek_as_subagent.Journal.Store.{
  Files, read, write, delete, names, count_records, is_record_name, keep_intent, acknowledge_found,
  acknowledge_all, remove_if,
}

pub read-write : (n d : Text) (fs : Files) → read n (write n d fs) ≡ some d
unfolding read write
read-write n d [] = ground (arith, text_eq_refl n)
read-write n d ((k, e) ∷ fs) = ground (arith, read-write n d fs, text_eq_refl n)

pub read-write_ne :
    (m n d : Text) (fs : Files) → text_eq n m ≡ false → read m (write n d fs) ≡ read m fs
unfolding read write
read-write_ne m n d [] h = ground arith
read-write_ne m n d ((k, e) ∷ fs) h =
    ground (arith, read-write_ne m n d fs h, text_eq_iff k n, text_eq_iff k m, text_eq_iff n m)

pub read-delete : (n : Text) (fs : Files) → read n (delete n fs) ≡ none
unfolding read delete
read-delete n [] = refl
read-delete n ((k, e) ∷ fs) = ground (arith, read-delete n fs)

pub read-delete_ne :
    (m n : Text) (fs : Files) → text_eq n m ≡ false → read m (delete n fs) ≡ read m fs
unfolding read delete
read-delete_ne m n [] h = refl
read-delete_ne m n ((k, e) ∷ fs) h =
    ground (arith, read-delete_ne m n fs h, text_eq_iff k n, text_eq_iff k m, text_eq_iff n m)

read-delete-none : (m n : Text) (fs : Files) → read m fs ≡ none → read m (delete n fs) ≡ none
unfolding read delete
read-delete-none m n [] h = h
read-delete-none m n ((k, e) ∷ fs) h = ground (arith, read-delete-none m n fs)

count-cons :
    (k d : Text) (fs : Files)
    → count_records ((k, d) ∷ fs)
      ≡ (if is_record_name k then suc (count_records fs) else count_records fs)
unfolding count_records
count-cons k d fs = refl

-- A write adds one name at most.
count-write : (n d : Text) (fs : Files) → count_records (write n d fs) ≤ suc (count_records fs)
unfolding write
count-write n d [] = elim (Bool-cases (is_record_name n)) [
  | inl e ↦ rw (count-cons n d [], e) (omega arith)
  | inr e ↦ rw (count-cons n d [], e) (omega arith)
]
count-write n d ((k, e) ∷ fs) = elim (Bool-cases (text_eq k n)) [
  | inl hit ↦ rw (write, hit, count-cons k d fs, count-cons k e fs) (omega arith)
  | inr miss ↦
      rw (write, miss, count-cons k e fs, count-cons k e (write n d fs))
        (branch (is_record_name k) (count-write n d fs))
]
  where
    branch :
        (b : Bool) {x y : ℕ} → x ≤ suc y → (if b then suc x else x) ≤ suc (if b then suc y else y)
    branch true h = omega (arith, h)
    branch false h = h

module _ (is_absolute : Text → Bool) (parts : Text → List Text) (dumps : Value → Text)
    (loads : Text → Option Value) where
  -- An intent that is recorded, or found to be there already, leaves at most 128 records.
  pub keep_intent-capacity :
      (r : StoredRecord) (encoded : Text) (fs gs : Files)
      → keep_intent is_absolute parts dumps loads r encoded fs ≡ (ok tt, gs)
      → count_records gs ≤ max_records
  unfolding keep_intent names
  keep_intent-capacity r encoded fs gs h = elim (Option-cases (read (name r.transaction_id) fs)) [
    | inl e ↦ ground (arith, count-write (name r.transaction_id) encoded fs)
    | inr (bytes, e) ↦ ground arith
  ]

  -- One identifier: the file of another name is as it was, and what was removed is gone.
  found_lem :
      (identity i : Text) (m : Text) (fs : Files)
      → text_eq (name i) m ≡ false
      → read m (acknowledge_found is_absolute parts dumps loads identity i (read (name i) fs) fs).1
        ≡ read m fs
  unfolding acknowledge_found remove_if
  found_lem identity i m fs h = ground (arith, read-delete_ne m (name i) fs h)

  found_none :
      (identity i m : Text) (fs : Files)
      → read m fs ≡ none
      → read m (acknowledge_found is_absolute parts dumps loads identity i (read (name i) fs) fs).1
        ≡ none
  unfolding acknowledge_found remove_if
  found_none identity i m fs h = ground (arith, read-delete-none m (name i) fs h)

  all_none :
      (identity : Text) (ids : List Text) (m : Text) (fs : Files)
      → read m fs ≡ none
      → read m (acknowledge_all is_absolute parts dumps loads identity ids fs).1 ≡ none
  unfolding acknowledge_all
  all_none identity [] m fs h = h
  all_none identity (i ∷ is) m fs h =
      let x = acknowledge_found is_absolute parts dumps loads identity i (read (name i) fs) fs in
      ground (arith, found_none identity i m fs h, all_none identity is m x.1)

  -- An acknowledgement leaves every file as it was whose name is not that of one of the identifiers,
  -- also where it raises halfway.
  pub acknowledge_all-keeps :
      (identity : Text) (ids : List Text) (m : Text) (fs : Files)
      → any (λ (i : Text). text_eq (name i) m) ids ≡ false
      → read m (acknowledge_all is_absolute parts dumps loads identity ids fs).1 ≡ read m fs
  unfolding acknowledge_all
  acknowledge_all-keeps identity [] m fs h = refl
  acknowledge_all-keeps identity (i ∷ is) m fs h =
      let x = acknowledge_found is_absolute parts dumps loads identity i (read (name i) fs) fs in
      ground (arith, found_lem identity i m fs, acknowledge_all-keeps identity is m x.1)

  found_gone :
      (identity i : Text) (o : Option Text) (fs u : Files)
      → acknowledge_found is_absolute parts dumps loads identity i o fs ≡ (ok true, u)
      → read (name i) u ≡ none
  unfolding acknowledge_found remove_if
  found_gone identity i none fs u h = absurd (ground arith)
  found_gone identity i (some bytes) fs u h = ground (arith, read-delete (name i) fs)

  joined :
      (P : Text → Type 0) (i : Text) (more : List Text) (gone : Bool)
      → (gone ≡ true → P i)
      → All P more
      → All P (if gone then i ∷ more else more)
  joined P i more true p h = (p refl, h)
  joined P i more false p h = h

  -- Every identifier that an acknowledgement reports as removed has no file any more.
  pub acknowledge_all-removed :
      (identity : Text) (ids : List Text) (fs : Files) {removed : List Text} {gs : Files}
      → acknowledge_all is_absolute parts dumps loads identity ids fs ≡ (ok removed, gs)
      → All (λ (i : Text). read (name i) gs ≡ none) removed
  unfolding acknowledge_all
  acknowledge_all-removed identity [] fs {removed} {gs} h =
      let e : [] ≡ removed = ground arith in
      subst (All (λ (i : Text). read (name i) gs ≡ none)) e tt
  acknowledge_all-removed identity (i ∷ is) fs {removed} {gs} h =
      let (gone, u, found, h1) =
        Exec-bind (acknowledge_found is_absolute parts dumps loads identity i (read (name i) fs))
          (λ gone. acknowledge_all is_absolute parts dumps loads identity is >>= λ more.
            pure (if gone then i ∷ more else more))
          fs h in
      let (more, v, all, h2) =
        Exec-bind (acknowledge_all is_absolute parts dumps loads identity is)
          (λ more. pure (if gone then i ∷ more else more)) u h1 in
      let v_is : v ≡ gs = ground arith in
      let removed_is : (if gone then i ∷ more else more) ≡ removed = ground arith in
      let rest =
        subst (λ w. All (λ (j : Text). read (name j) w ≡ none) more) v_is
          (acknowledge_all-removed identity is u all) in
      subst (All (λ (j : Text). read (name j) gs ≡ none)) removed_is (
        joined (λ (j : Text). read (name j) gs ≡ none) i more gone
          (λ g.
            subst (λ w. read (name i) w ≡ none) (ap (λ x. x.1) all ∙ v_is)
              (all_none identity is (name i) u
                (found_gone identity i (read (name i) fs) fs u (found ∙ ap (λ b. (ok b, u)) g))))
          rest)
