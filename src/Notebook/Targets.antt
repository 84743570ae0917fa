-- ===== src/Notebook/Targets.antt =====
-- Which cell an edit of a notebook aims at (src/deepseek_mcp/tools.py: `_find_cell_index`).
use mathlib.Core.Path.{subst}
use deepseek_as_subagent.Prelude.{
  ℕ, zero, suc, ◌+◌, ◌<◌, ◌≡◌, refl, sym, ap, ◌∙◌, inl, inr, Bool, true, false, Option, none, some,
  arith, ltb, Bool-cases, if_true, if_false,
}
use deepseek_as_subagent.Prelude.Results.{Result, ok, ok-inj}
use deepseek_as_subagent.Text.{Text, codes, text_eq, text_eq_refl, text_eq_sound}
use deepseek_as_subagent.Json.{
  pos, negsuc, Value, null, bool, int, real, str, arr, obj, Items, nil, cons, Fields, end, field,
  get, get_or_null,
}
use deepseek_as_subagent.Notebook.{
  EditMode, replacing, inserting, deleting, NotebookError, put, item_count, item_at, find_id,
  by_index, by_id, targeted, find_cell_index, untargeted, found_or, no_target, cell_id_not_found,
  cell_index_out_of_range,
}

item_at-below :
    (cells : Items) (i : ℕ) {v : Value} → item_at cells i ≡ some v → i < item_count cells
unfolding item_at item_count
item_at-below nil i h = absurd (cc)
item_at-below (cons w vs) zero h = omega arith
item_at-below (cons w vs) (suc i) h = omega (arith, item_at-below vs i h)

pub get-put : (key : Text) (v : Value) (fs : Fields) → get key (put key v fs) ≡ some v
unfolding get put
get-put key v end = rw (text_eq_refl key) refl
get-put key v (field k w fs) = elim (Bool-cases (text_eq k key)) [
  | inl e ↦ ground (arith, e)
  | inr e ↦ ground (arith, e, get-put key v fs)
]

pub get-put_other :
    (key other : Text) (v : Value) (fs : Fields)
    → text_eq other key ≡ false
    → get key (put other v fs) ≡ get key fs
unfolding get put
get-put_other key other v end n = rw n refl
get-put_other key other v (field k w fs) n = elim (Bool-cases (text_eq k other)) [
  | inl e ↦
      let f : text_eq k key ≡ false = ap (λ t. text_eq t key) (text_eq_sound k other e) ∙ n in
      ground (arith, e, f)
  | inr e ↦ ground (arith, e, get-put_other key other v fs n)
]

module _ (same : Value → Value → Bool) where
  -- The first cell that is a dict with the id.
  abbrev pub IsFirst : Items → Value → ℕ → Type 0
  IsFirst cells cell_id i =
      (fs : Fields) × (item_at cells i ≡ some (obj fs))
      × (same (get_or_null (codes "id") fs) cell_id ≡ true)
      × ((k : ℕ) (gs : Fields)
          → k < i
          → item_at cells k ≡ some (obj gs)
          → same (get_or_null (codes "id") gs) cell_id ≡ false)

  -- The index is that of a cell, and it is the one that is meant; if there is none, no cell is meant.
  abbrev pub Aimed : (ℕ → Type 0) → Items → Option ℕ → Type 0
  Aimed meant cells none = (i : ℕ) → i < item_count cells → ¬ meant i
  Aimed meant cells (some i) = meant i × (i < item_count cells)

  -- What a cell_id and a cell_index mean: an id that is given decides.
  abbrev pub Meant : Items → Value → Value → ℕ → Type 0
  Meant cells null index i = index ≡ int (pos i)
  Meant cells cell_id index i = IsFirst cells cell_id i

  IsFirst-cons :
      (w : Value) (cells : Items) (cell_id : Value) (i : ℕ)
      → ((gs : Fields) → w ≡ obj gs → same (get_or_null (codes "id") gs) cell_id ≡ false)
      → IsFirst cells cell_id i
      → IsFirst (cons w cells) cell_id (suc i)
  unfolding item_at
  IsFirst-cons w cells cell_id i n (fs, a, b, c) = (fs, a, b, earlier)
    where
      earlier :
          (k : ℕ) (gs : Fields)
          → k < suc i
          → item_at (cons w cells) k ≡ some (obj gs)
          → same (get_or_null (codes "id") gs) cell_id ≡ false
      earlier zero gs l e = n gs (cc)
      earlier (suc k) gs l e = c k gs (omega arith) e

  abbrev IsFound : Items → Value → ℕ → ℕ → Type 0
  IsFound cells cell_id k i = (j : ℕ) × (i ≡ k + j) × IsFirst cells cell_id j

  IsFound-cons :
      (w : Value) (cells : Items) (cell_id : Value) (k i : ℕ)
      → ((gs : Fields) → w ≡ obj gs → same (get_or_null (codes "id") gs) cell_id ≡ false)
      → IsFound cells cell_id (suc k) i
      → IsFound (cons w cells) cell_id k i
  IsFound-cons w cells cell_id k i n (j, e, f) =
      (suc j, omega (arith, e), IsFirst-cons w cells cell_id j n f)

  find_id-IsFound :
      (cell_id : Value) (k : ℕ) (cells : Items) {i : ℕ}
      → find_id same cell_id k cells ≡ some i
      → IsFound cells cell_id k i
  unfolding find_id item_at
  find_id-IsFound cell_id k nil h = absurd (cc)
  find_id-IsFound cell_id k (cons (obj fs) vs) {i} h =
      elim (Bool-cases (same (get_or_null (codes "id") fs) cell_id)) [
        | inl g ↦
            let e : some k ≡ some i = sym (if_true _ _ g) ∙ h in
            let f : k ≡ i = cc in
            (zero, omega (arith, f), (fs, refl, g, λ j gs l m. absurd (omega (arith, l))))
        | inr g ↦
            let e : find_id same cell_id (suc k) vs ≡ some i = sym (if_false _ _ g) ∙ h in
            IsFound-cons (obj fs) vs cell_id k i
              (λ gs m.
                let s : fs ≡ gs = cc in
                subst (λ t. same (get_or_null (codes "id") t) cell_id ≡ false) s g)
              (find_id-IsFound cell_id (suc k) vs e)
      ]
  find_id-IsFound cell_id k (cons null vs) {i} h =
      IsFound-cons null vs cell_id k i (λ gs m. absurd (cc)) (find_id-IsFound cell_id (suc k) vs h)
  find_id-IsFound cell_id k (cons (bool b) vs) {i} h =
      IsFound-cons (bool b) vs cell_id k i (λ gs m. absurd (cc))
        (find_id-IsFound cell_id (suc k) vs h)
  find_id-IsFound cell_id k (cons (int n) vs) {i} h =
      IsFound-cons (int n) vs cell_id k i (λ gs m. absurd (cc))
        (find_id-IsFound cell_id (suc k) vs h)
  find_id-IsFound cell_id k (cons (real n) vs) {i} h =
      IsFound-cons (real n) vs cell_id k i (λ gs m. absurd (cc))
        (find_id-IsFound cell_id (suc k) vs h)
  find_id-IsFound cell_id k (cons (str n) vs) {i} h =
      IsFound-cons (str n) vs cell_id k i (λ gs m. absurd (cc))
        (find_id-IsFound cell_id (suc k) vs h)
  find_id-IsFound cell_id k (cons (arr n) vs) {i} h =
      IsFound-cons (arr n) vs cell_id k i (λ gs m. absurd (cc))
        (find_id-IsFound cell_id (suc k) vs h)

  -- Without a cell that is found no dict has the id.
  find_id-missing :
      (cell_id : Value) (k : ℕ) (cells : Items) (i : ℕ) (gs : Fields)
      → find_id same cell_id k cells ≡ none
      → item_at cells i ≡ some (obj gs)
      → same (get_or_null (codes "id") gs) cell_id ≡ false
  unfolding find_id item_at
  find_id-missing cell_id k nil i gs h e = absurd (cc)
  find_id-missing cell_id k (cons (obj fs) vs) i gs h e =
      elim (Bool-cases (same (get_or_null (codes "id") fs) cell_id)) [
        | inl g ↦ let f : ◌≡◌ {A = Option ℕ} (some k) none = sym (if_true _ _ g) ∙ h in absurd (cc)
        | inr g ↦
            there i g (λ j m. find_id-missing cell_id (suc k) vs j gs (sym (if_false _ _ g) ∙ h) m)
              e
      ]
    where
      there :
          (i : ℕ)
          → same (get_or_null (codes "id") fs) cell_id ≡ false
          → ((j : ℕ)
              → item_at vs j ≡ some (obj gs)
              → same (get_or_null (codes "id") gs) cell_id ≡ false)
          → item_at (cons (obj fs) vs) i ≡ some (obj gs)
          → same (get_or_null (codes "id") gs) cell_id ≡ false
      there zero g f m =
          let s : fs ≡ gs = cc in subst (λ t. same (get_or_null (codes "id") t) cell_id ≡ false) s g
      there (suc j) g f m = f j m
  find_id-missing cell_id k (cons null vs) zero gs h e = absurd (cc)
  find_id-missing cell_id k (cons (bool b) vs) zero gs h e = absurd (cc)
  find_id-missing cell_id k (cons (int n) vs) zero gs h e = absurd (cc)
  find_id-missing cell_id k (cons (real n) vs) zero gs h e = absurd (cc)
  find_id-missing cell_id k (cons (str n) vs) zero gs h e = absurd (cc)
  find_id-missing cell_id k (cons (arr n) vs) zero gs h e = absurd (cc)
  find_id-missing cell_id k (cons null vs) (suc i) gs h e =
      find_id-missing cell_id (suc k) vs i gs h e
  find_id-missing cell_id k (cons (bool b) vs) (suc i) gs h e =
      find_id-missing cell_id (suc k) vs i gs h e
  find_id-missing cell_id k (cons (int n) vs) (suc i) gs h e =
      find_id-missing cell_id (suc k) vs i gs h e
  find_id-missing cell_id k (cons (real n) vs) (suc i) gs h e =
      find_id-missing cell_id (suc k) vs i gs h e
  find_id-missing cell_id k (cons (str n) vs) (suc i) gs h e =
      find_id-missing cell_id (suc k) vs i gs h e
  find_id-missing cell_id k (cons (arr n) vs) (suc i) gs h e =
      find_id-missing cell_id (suc k) vs i gs h e

  untargeted-Aimed :
      (meant : ℕ → Type 0) (cells : Items) (mode : EditMode) (e : NotebookError) {index : Option ℕ}
      → untargeted same mode e ≡ ok index
      → ((i : ℕ) → i < item_count cells → ¬ meant i)
      → Aimed meant cells index
  untargeted-Aimed meant cells replacing e h n = absurd (cc)
  untargeted-Aimed meant cells inserting e h n = subst (Aimed meant cells) (ok-inj h) n
  untargeted-Aimed meant cells deleting e h n = absurd (cc)

  by_id-Aimed :
      (cells : Items) (cell_id : Value) (mode : EditMode) {index : Option ℕ}
      → by_id same cells cell_id mode ≡ ok index
      → Aimed (IsFirst cells cell_id) cells index
  unfolding by_id found_or
  by_id-Aimed cells cell_id mode {index} h = searched (find_id same cell_id 0 cells) refl h
    where
      searched :
          (o : Option ℕ)
          → find_id same cell_id 0 cells ≡ o
          → found_or same o mode (cell_id_not_found cell_id) ≡ ok index
          → Aimed (IsFirst cells cell_id) cells index
      searched none e g =
          untargeted-Aimed (IsFirst cells cell_id) cells mode (cell_id_not_found cell_id) g
            (λ i l (fs, a, b, c). let d = find_id-missing cell_id 0 cells i fs e a in absurd (cc))
      searched (some i) e g =
          let (j, f, first) = find_id-IsFound cell_id 0 cells e in
          let k : j ≡ i = omega (arith, f) in
          let found = subst (IsFirst cells cell_id) k first in
          subst (Aimed (IsFirst cells cell_id) cells) (ok-inj g)
            (found, item_at-below cells i (found.1))

  by_index-Aimed :
      (cells : Items) (v : Value) (mode : EditMode) {index : Option ℕ}
      → by_index same cells v mode ≡ ok index
      → Aimed (λ i. v ≡ int (pos i)) cells index
  unfolding by_index
  by_index-Aimed cells null mode h =
      untargeted-Aimed (λ i. null ≡ int (pos i)) cells mode no_target h (λ i l e. absurd (cc))
  by_index-Aimed cells (int (pos n)) mode {index} h = elim (Bool-cases (ltb n (item_count cells))) [
    | inl g ↦
        let e : ◌≡◌ {A = Result NotebookError (Option ℕ)} (ok (some n)) (ok index) =
          sym (if_true _ _ g) ∙ h in
        subst (Aimed (λ i. int (pos n) ≡ int (pos i)) cells) (ok-inj e) (refl, ground arith)
    | inr g ↦
        untargeted-Aimed (λ i. int (pos n) ≡ int (pos i)) cells mode
          (cell_index_out_of_range (int (pos n))) (sym (if_false _ _ g) ∙ h)
          (λ i l e. let f : n ≡ i = cc in absurd (ground (arith, g, l, f)))
  ]
  by_index-Aimed cells (int (negsuc n)) mode h =
      untargeted-Aimed (λ i. int (negsuc n) ≡ int (pos i)) cells mode
        (cell_index_out_of_range (int (negsuc n))) h (λ i l e. absurd (cc))
  by_index-Aimed cells (bool b) mode h = absurd (cc)
  by_index-Aimed cells (real t) mode h = absurd (cc)
  by_index-Aimed cells (str t) mode h = absurd (cc)
  by_index-Aimed cells (arr vs) mode h = absurd (cc)
  by_index-Aimed cells (obj fs) mode h = absurd (cc)

  targeted-Aimed :
      (cells : Items) (cell_id v : Value) (mode : EditMode) {index : Option ℕ}
      → targeted same cells cell_id v mode ≡ ok index
      → Aimed (Meant cells cell_id v) cells index
  unfolding targeted
  targeted-Aimed cells null v mode h = by_index-Aimed cells v mode h
  targeted-Aimed cells (int n) v mode h = by_id-Aimed cells (int n) mode h
  targeted-Aimed cells (bool b) v mode h = by_id-Aimed cells (bool b) mode h
  targeted-Aimed cells (real t) v mode h = by_id-Aimed cells (real t) mode h
  targeted-Aimed cells (str t) v mode h = by_id-Aimed cells (str t) mode h
  targeted-Aimed cells (arr vs) v mode h = by_id-Aimed cells (arr vs) mode h
  targeted-Aimed cells (obj fs) v mode h = by_id-Aimed cells (obj fs) mode h

  -- The cell that the arguments of a call mean.
  abbrev pub Target : Items → Fields → ℕ → Type 0
  Target cells args i =
      Meant cells (get_or_null (codes "cell_id") args) (get_or_null (codes "cell_index") args) i

  -- An index that is found is that of the cell that is meant, and without one no cell is meant.
  pub find_cell_index-Aimed :
      (cells : Items) (args : Fields) (mode : EditMode) {index : Option ℕ}
      → find_cell_index same cells args mode ≡ ok index
      → Aimed (Target cells args) cells index
  unfolding find_cell_index
  find_cell_index-Aimed cells args mode h =
      targeted-Aimed cells (get_or_null (codes "cell_id") args)
        (get_or_null (codes "cell_index") args) mode h
