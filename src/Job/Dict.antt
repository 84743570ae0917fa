-- ===== src/Job/Dict.antt =====
-- The laws of the job dict: lookups after a change, and predicates of all its jobs.
use mathlib.Core.Path.{subst}
use deepseek_as_subagent.Prelude.{
  ℕ, zero, suc, ◌+◌, ◌-◌, ◌≡◌, refl, sym, ap, ◌∙◌, true, false, none, some, List, [], ◌∷◌, arith,
  length, select, All, Bool-cases, inl, inr, ◌⊎◌, if◌then◌else◌,
}
use deepseek_as_subagent.Text.{Text, text_eq, text_eq_iff}
use deepseek_as_subagent.Job.Record.{JobRecord, is_terminal}
use deepseek_as_subagent.Job.Manager.{
  Jobs, find, put, pop, modify, values, insert_by_key, sort_by_key, first, pop_all, is_prunable,
  prune,
}

-- Each key is the id of its job and occurs once.
abbrev pub IsKeyed : Jobs → Type 0
IsKeyed [] = Unit
IsKeyed ((k, j) ∷ jobs) = (j.job_id ≡ k) × (find k jobs ≡ none) × IsKeyed jobs

find_hit :
    (i k : Text) (x : JobRecord) (jobs : Jobs) {j : JobRecord}
    → text_eq k i ≡ true
    → find i ((k, x) ∷ jobs) ≡ some j
    → x ≡ j
unfolding find
find_hit i k x jobs hit e = ground arith

module _ (P : JobRecord → Type 0) where
  abbrev pub AllJobs : Jobs → Type 0
  AllJobs [] = Unit
  AllJobs ((k, j) ∷ jobs) = P j × AllJobs jobs

  pub AllJobs-find :
      (i : Text) (jobs : Jobs) {j : JobRecord} → AllJobs jobs → find i jobs ≡ some j → P j
  unfolding find
  AllJobs-find i [] h e = cc
  AllJobs-find i ((k, x) ∷ jobs) h e = elim (Bool-cases (text_eq k i)) [
    | inl hit ↦ subst P (find_hit i k x jobs hit e) h.0
    | inr miss ↦ AllJobs-find i jobs h.1 (ground arith)
  ]

  pub AllJobs-put :
      (i : Text) (v : JobRecord) (jobs : Jobs) → P v → AllJobs jobs → AllJobs (put i v jobs)
  unfolding put
  AllJobs-put i v [] p h = (p, tt)
  AllJobs-put i v ((k, x) ∷ jobs) p h = ground (arith, AllJobs-put i v jobs p h.1)

  pub AllJobs-pop : (i : Text) (jobs : Jobs) → AllJobs jobs → AllJobs (pop i jobs)
  unfolding pop
  AllJobs-pop i [] h = tt
  AllJobs-pop i ((k, x) ∷ jobs) h = ground (arith, AllJobs-pop i jobs h.1)

  -- Only the job that is found changes.
  pub AllJobs-modify :
      (i : Text) (f : JobRecord → JobRecord) (jobs : Jobs) {j : JobRecord}
      → find i jobs ≡ some j
      → P (f j)
      → AllJobs jobs
      → AllJobs (modify i f jobs)
  unfolding find modify
  AllJobs-modify i f [] e p h = cc
  AllJobs-modify i f ((k, x) ∷ jobs) e p h = elim (Bool-cases (text_eq k i)) [
    | inl hit ↦
        rw (hit, modify)
          (subst (λ (v : JobRecord). P (f v)) (sym (find_hit i k x jobs hit e)) p, h.1)
    | inr miss ↦ rw (miss, modify) (h.0, AllJobs-modify i f jobs (ground arith) p h.1)
  ]

  pub AllJobs-pop_all :
      (js : List JobRecord) (jobs : Jobs) → AllJobs jobs → AllJobs (pop_all js jobs)
  unfolding pop_all
  AllJobs-pop_all [] jobs h = h
  AllJobs-pop_all (j ∷ js) jobs h =
      AllJobs-pop_all js (pop j.job_id jobs) (AllJobs-pop j.job_id jobs h)

  pub AllJobs-prune : (jobs : Jobs) → AllJobs jobs → AllJobs (prune jobs)
  unfolding prune
  AllJobs-prune jobs h =
      let terminal = select is_prunable (values jobs) in
      let oldest = first (length terminal - 20 + 1) (sort_by_key terminal) in
      ground (arith, AllJobs-pop_all oldest jobs h)

pub modify_missing :
    (i : Text) (f : JobRecord → JobRecord) (jobs : Jobs)
    → find i jobs ≡ none
    → modify i f jobs ≡ jobs
unfolding find modify
modify_missing i f [] e = refl
modify_missing i f ((k, x) ∷ jobs) e = ground (arith, modify_missing i f jobs)

pub find-put :
    (i k : Text) (v : JobRecord) (jobs : Jobs)
    → find i (put k v jobs) ≡ (if text_eq k i then some v else find i jobs)
unfolding find put
find-put i k v [] = refl
find-put i k v ((n, x) ∷ jobs) =
    ground (arith, find-put i k v jobs, text_eq_iff n k, text_eq_iff n i, text_eq_iff k i)

pub find-pop_ne :
    (i k : Text) (jobs : Jobs) → text_eq k i ≡ false → find i (pop k jobs) ≡ find i jobs
unfolding find pop
find-pop_ne i k [] h = refl
find-pop_ne i k ((n, x) ∷ jobs) h =
    ground (arith, find-pop_ne i k jobs h, text_eq_iff n k, text_eq_iff n i, text_eq_iff k i)

pub find-pop-none : (i k : Text) (jobs : Jobs) → find i jobs ≡ none → find i (pop k jobs) ≡ none
unfolding find pop
find-pop-none i k [] h = refl
find-pop-none i k ((n, x) ∷ jobs) h = ground (arith, find-pop-none i k jobs)

pub find-modify :
    (i k : Text) (f : JobRecord → JobRecord) (jobs : Jobs)
    → find i (modify k f jobs) ≡ (
        if text_eq k i
        then (elim (find i jobs) [ none ↦ none | some j ↦ some (f j) ])
        else find i jobs)
unfolding find modify
find-modify i k f [] = ground arith
find-modify i k f ((n, x) ∷ jobs) =
    ground (arith, find-modify i k f jobs, text_eq_iff n k, text_eq_iff n i, text_eq_iff k i)

pub put-IsKeyed : (v : JobRecord) (jobs : Jobs) → IsKeyed jobs → IsKeyed (put v.job_id v jobs)
unfolding put find
put-IsKeyed v [] h = (refl, refl, tt)
put-IsKeyed v ((k, x) ∷ jobs) h = ground (
  arith,
  find-put k v.job_id v jobs,
  put-IsKeyed v jobs h.2,
  text_eq_iff k v.job_id,
  text_eq_iff v.job_id k,
)

pub pop-IsKeyed : (i : Text) (jobs : Jobs) → IsKeyed jobs → IsKeyed (pop i jobs)
unfolding pop
pop-IsKeyed i [] h = tt
pop-IsKeyed i ((k, x) ∷ jobs) h = ground (arith, pop-IsKeyed i jobs h.2, find-pop-none k i jobs h.1)

pub modify-IsKeyed :
    (i : Text) (f : JobRecord → JobRecord) (jobs : Jobs) {j : JobRecord}
    → find i jobs ≡ some j
    → (f j).job_id ≡ j.job_id
    → IsKeyed jobs
    → IsKeyed (modify i f jobs)
unfolding find modify
modify-IsKeyed i f [] e same h = cc
modify-IsKeyed i f ((k, x) ∷ jobs) {j} e same h = elim (Bool-cases (text_eq k i)) [
  | inl hit ↦
      rw (hit, modify)
        (
          ap (λ (v : JobRecord). (f v).job_id) (find_hit i k x jobs {j = j} hit e)
              ∙ same
              ∙ ap (λ (v : JobRecord). v.job_id) (sym (find_hit i k x jobs {j = j} hit e))
              ∙ h.0,
          h.1,
          h.2,
        )
  | inr miss ↦
      rw (miss, modify)
        (
          h.0,
          ground (arith, find-modify k i f jobs, h.1, text_eq_iff i k, text_eq_iff k i),
          modify-IsKeyed i f jobs {j = j} (ground arith) same h.2,
        )
]

-- A job that is not terminal is none of those that `prune` takes out.
abbrev Spared : Text → JobRecord → Type 0
Spared i j = (text_eq j.job_id i ≡ false) ⊎ (is_prunable j ≡ false)

abbrev Others : Text → JobRecord → Type 0
Others i j = text_eq j.job_id i ≡ false

values-Missing :
    (i : Text) (jobs : Jobs) → IsKeyed jobs → find i jobs ≡ none → All (Spared i) (values jobs)
unfolding values find
values-Missing i [] h e = tt
values-Missing i ((k, x) ∷ jobs) h e =
    (ground (arith, ap (λ n. text_eq n i) h.0), values-Missing i jobs h.2 (ground arith))

values-Spared :
    (i : Text) (jobs : Jobs) {j : JobRecord}
    → IsKeyed jobs
    → find i jobs ≡ some j
    → is_terminal j.status ≡ false
    → All (Spared i) (values jobs)
unfolding values find
values-Spared i [] h e live = tt
values-Spared i ((k, x) ∷ jobs) {j} h e live = elim (Bool-cases (text_eq k i)) [
  | inl hit ↦ (ground arith, values-Missing i jobs h.2 (ground (arith, text_eq_iff k i)))
  | inr miss ↦ (
    ground (arith, ap (λ n. text_eq n i) h.0),
    values-Spared i jobs {j = j} h.2 (ground arith) live,
  )
]

select-Others :
    (i : Text) (js : List JobRecord) → All (Spared i) js → All (Others i) (select is_prunable js)
select-Others i [] h = tt
select-Others i (j ∷ js) h = ground (arith, select-Others i js h.1)

insert-Others :
    (i : Text) (j : JobRecord) (js : List JobRecord)
    → Others i j
    → All (Others i) js
    → All (Others i) (insert_by_key j js)
unfolding insert_by_key
insert-Others i j [] p h = (p, tt)
insert-Others i j (k ∷ ks) p h = ground (arith, insert-Others i j ks p h.1)

sort-Others : (i : Text) (js : List JobRecord) → All (Others i) js → All (Others i) (sort_by_key js)
unfolding sort_by_key
sort-Others i [] h = tt
sort-Others i (j ∷ js) h = insert-Others i j (sort_by_key js) h.0 (sort-Others i js h.1)

first-Others :
    (i : Text) (n : ℕ) (js : List JobRecord) → All (Others i) js → All (Others i) (first n js)
unfolding first
first-Others i zero js h = tt
first-Others i (suc n) [] h = tt
first-Others i (suc n) (j ∷ js) h = (h.0, first-Others i n js h.1)

find-pop_all :
    (i : Text) (js : List JobRecord) (jobs : Jobs)
    → All (Others i) js
    → find i (pop_all js jobs) ≡ find i jobs
unfolding pop_all
find-pop_all i [] jobs h = refl
find-pop_all i (j ∷ js) jobs h =
    find-pop_all i js (pop j.job_id jobs) h.1 ∙ find-pop_ne i j.job_id jobs h.0

pop_all-IsKeyed : (js : List JobRecord) (jobs : Jobs) → IsKeyed jobs → IsKeyed (pop_all js jobs)
unfolding pop_all
pop_all-IsKeyed [] jobs h = h
pop_all-IsKeyed (j ∷ js) jobs h =
    pop_all-IsKeyed js (pop j.job_id jobs) (pop-IsKeyed j.job_id jobs h)

pub prune-IsKeyed : (jobs : Jobs) → IsKeyed jobs → IsKeyed (prune jobs)
unfolding prune
prune-IsKeyed jobs h =
    let terminal = select is_prunable (values jobs) in
    let oldest = first (length terminal - 20 + 1) (sort_by_key terminal) in
    ground (arith, pop_all-IsKeyed oldest jobs h)

-- Pruning keeps every job that is still queued or running.
pub find-prune :
    (i : Text) (jobs : Jobs) {j : JobRecord}
    → IsKeyed jobs
    → find i jobs ≡ some j
    → is_terminal j.status ≡ false
    → find i (prune jobs) ≡ some j
unfolding prune
find-prune i jobs h e live =
    let terminal = select is_prunable (values jobs) in
    let spared =
      sort-Others i terminal (select-Others i (values jobs) (values-Spared i jobs h e live)) in
    let count = length terminal - 20 + 1 in
    ground (
      arith,
      find-pop_all i (first count (sort_by_key terminal)) jobs
          (first-Others i count (sort_by_key terminal) spared),
      e,
    )
