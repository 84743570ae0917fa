-- ===== src/Notebook/Cells.antt =====
-- What an edit does to the cells of a notebook (src/deepseek_mcp/tools.py).
use mathlib.Core.Path.{subst}
use mathlib.Core.List.{reverse, reverse_aux}
use deepseek_as_subagent.Prelude.{
  ℕ, zero, suc, ◌≤◌, ◌≡◌, refl, sym, ap, ◌∙◌, inl, inr, Bool, not, ◌&&◌, Option, none, some, List,
  [], ◌∷◌, ◌++◌, arith, ltb, ◌==◌, Bool-cases, if_cases,
}
use deepseek_as_subagent.Prelude.Results.{ok, ok-inj, bind-eq-ok, raise_if-eq-ok}
use deepseek_as_subagent.Text.{Text, codes, text_eq, starts_with, member}
use deepseek_as_subagent.Text.Lines.{text_break}
use deepseek_as_subagent.Json.{
  Value, null, bool, int, real, str, arr, obj, Items, nil, cons, Fields, get, get_or_null,
}
use deepseek_as_subagent.Tools.{max_write_bytes, clamped_size}
use deepseek_as_subagent.Notebook.Targets.{
  Target, Aimed, get-put, get-put_other, find_cell_index-Aimed,
}
use deepseek_as_subagent.Notebook.{
  put, strings, is_code, EditMode, replacing, inserting, deleting, item_count, item_at, set_item,
  insert_item, pop_item, kept_lines, split_source, as_dict, find_cell_index, with_source, target,
  replaced_target, deleted_target, replace_cell, delete_cell, insert_at, insert_typed, insert_cell,
  new_cell, invalid_cell_type, source_too_large, applied, apply_notebook_edit, edit_cells,
  new_source,
}

pop-insert :
    (cells : Items) (i : ℕ) (v : Value)
    → i ≤ item_count cells
    → pop_item (insert_item cells i v) i ≡ cells
unfolding item_count insert_item pop_item
pop-insert nil zero v h = refl
pop-insert nil (suc i) v h = absurd (omega arith)
pop-insert (cons w vs) zero v h = refl
pop-insert (cons w vs) (suc i) v h = ap (λ t. cons w t) (pop-insert vs i v (omega arith))

item_at-insert :
    (cells : Items) (i : ℕ) (v : Value)
    → i ≤ item_count cells
    → item_at (insert_item cells i v) i ≡ some v
unfolding item_count insert_item item_at
item_at-insert nil zero v h = refl
item_at-insert nil (suc i) v h = absurd (omega arith)
item_at-insert (cons w vs) zero v h = refl
item_at-insert (cons w vs) (suc i) v h = item_at-insert vs i v (omega arith)

pop-set : (cells : Items) (i : ℕ) (v : Value) → pop_item (set_item cells i v) i ≡ pop_item cells i
unfolding set_item pop_item
pop-set nil i v = refl
pop-set (cons w vs) zero v = refl
pop-set (cons w vs) (suc i) v = ap (λ t. cons w t) (pop-set vs i v)

item_at-set :
    (cells : Items) (i : ℕ) (v : Value) {w : Value}
    → item_at cells i ≡ some w
    → item_at (set_item cells i v) i ≡ some v
unfolding set_item item_at
item_at-set nil i v h = absurd (cc)
item_at-set (cons u vs) zero v h = refl
item_at-set (cons u vs) (suc i) v h = item_at-set vs i v h

as_dict_lem :
    (i : ℕ) (o : Option Value) {j : ℕ} {fs : Fields}
    → as_dict i o ≡ some (j, fs)
    → (i ≡ j) × (o ≡ some (obj fs))
unfolding as_dict
as_dict_lem i none h = absurd (cc)
as_dict_lem i (some null) h = absurd (cc)
as_dict_lem i (some (bool b)) h = absurd (cc)
as_dict_lem i (some (int n)) h = absurd (cc)
as_dict_lem i (some (real t)) h = absurd (cc)
as_dict_lem i (some (str t)) h = absurd (cc)
as_dict_lem i (some (arr vs)) h = absurd (cc)
as_dict_lem i (some (obj fs)) h = (cc, cc)

target_lem :
    (cells : Items) (index : Option ℕ) {i : ℕ} {fs : Fields}
    → target cells index ≡ some (i, fs)
    → (index ≡ some i) × (item_at cells i ≡ some (obj fs))
unfolding target
target_lem cells none h = absurd (cc)
target_lem cells (some j) h =
    let (e, f) = as_dict_lem j (item_at cells j) h in
    (ap (λ n. some n) e, ap (λ n. item_at cells n) (sym e) ∙ f)

abbrev pub concat_texts : List Text → Text
concat_texts [] = []
concat_texts (t ∷ ts) = t ++ concat_texts ts

reverse_aux-append : (xs ys zs : Text) → reverse_aux xs ys ++ zs ≡ reverse_aux xs (ys ++ zs)
reverse_aux-append [] ys zs = refl
reverse_aux-append (x ∷ xs) ys zs = reverse_aux-append xs (x ∷ ys) zs

reverse-cons : (c : ℕ) (line s : Text) → reverse (c ∷ line) ++ s ≡ reverse line ++ (c ∷ s)
reverse-cons c line s =
    reverse_aux-append line (c ∷ []) s ∙ sym (reverse_aux-append line [] (c ∷ s))

kept_lines-concat : (line s : Text) → concat_texts (kept_lines line s) ≡ reverse line ++ s
unfolding kept_lines
kept_lines-concat [] [] = refl
kept_lines-concat (c ∷ line) [] = refl
kept_lines-concat line (c ∷ s) =
    elim (Bool-cases (text_break c && not (c == 13 && starts_with (codes "\n") s))) [
      | inl g ↦
          rw g (ap (λ t. reverse (c ∷ line) ++ t) (kept_lines-concat [] s) ∙ reverse-cons c line s)
      | inr g ↦ rw g (kept_lines-concat (c ∷ line) s ∙ reverse-cons c line s)
    ]

-- The lines that a source is split into are the source again when they are put together.
pub split_source-concat : (source : Text) → concat_texts (split_source source) ≡ source
unfolding split_source
split_source-concat [] = refl
split_source-concat (c ∷ s) = kept_lines-concat [] (c ∷ s)

module _ (same : Value → Value → Bool) where
  -- A cell holds the source, as the list of its lines.
  abbrev pub HasSource : Text → Fields → Type 0
  HasSource source fs =
      (lines : List Text) × (get (codes "source") fs ≡ some (arr (strings lines)))
      × (concat_texts lines ≡ source)

  -- Behind the cell that is meant, or behind all cells.
  abbrev pub place : Items → Option ℕ → ℕ
  place cells none = item_count cells
  place cells (some i) = suc i

  -- What an edit has made of the cells.
  abbrev pub Edited : EditMode → Items → Items → Fields → Text → Type 0
  Edited replacing cells edited args id =
      (i : ℕ) × Target same cells args i
      × (fs : Fields) × (source : Text) × (new_source args ≡ str source)
      × (item_at cells i ≡ some (obj fs))
      × (item_at edited i ≡ some (obj (with_source source fs)))
      × HasSource source (with_source source fs)
      × (pop_item edited i ≡ pop_item cells i)
  Edited inserting cells edited args id =
      (index : Option ℕ) × Aimed same (Target same cells args) cells index
      × (fs : Fields) × (source : Text) × (new_source args ≡ str source)
      × (item_at edited (place cells index) ≡ some (obj fs))
      × (get (codes "id") fs ≡ some (str id))
      × (get (codes "cell_type") fs
          ≡ some (elim (get (codes "cell_type") args) [ none ↦ str (codes "code") | some v ↦ v ]))
      × HasSource source fs
      × (pop_item edited (place cells index) ≡ cells)
  Edited deleting cells edited args id =
      (i : ℕ) × Target same cells args i
      × (fs : Fields) × (item_at cells i ≡ some (obj fs))
      × (edited ≡ pop_item cells i)

  with_source-HasSource : (source : Text) (fs : Fields) → HasSource source (with_source source fs)
  unfolding with_source text_eq
  with_source-HasSource source fs =
      let sourced = put (codes "source") (arr (strings (split_source source))) fs in
      let e = get-put (codes "source") (arr (strings (split_source source))) fs in
      if_cases (HasSource source) (is_code (get_or_null (codes "cell_type") sourced)) _ _
        (λ c. (split_source source, outputs_kept sourced ∙ e, split_source-concat source))
        (λ c. (split_source source, e, split_source-concat source))
    where
      outputs_kept :
          (gs : Fields)
          → get
              (codes "source")
              (put (codes "execution_count") null (put (codes "outputs") (arr nil) gs))
            ≡ get (codes "source") gs
      outputs_kept gs =
          get-put_other (codes "source") (codes "execution_count") null
            (put (codes "outputs") (arr nil) gs) refl
          ∙ get-put_other (codes "source") (codes "outputs") (arr nil) gs refl

  replace_cell-Edited :
      (cells : Items) (args : Fields) (index : Option ℕ) (id source : Text) {edited : Items}
      → new_source args ≡ str source
      → Aimed same (Target same cells args) cells index
      → replace_cell cells index source ≡ ok edited
      → Edited replacing cells edited args id
  unfolding replace_cell replaced_target
  replace_cell-Edited cells args index id source {edited} s r h =
      replaced (target cells index) refl h
    where
      replaced :
          (o : Option (ℕ × Fields))
          → target cells index ≡ o
          → replaced_target cells source o ≡ ok edited
          → Edited replacing cells edited args id
      replaced none e g = absurd (cc)
      replaced (some (i, fs)) e g =
          let (a, b) = target_lem cells index e in
          let v = obj (with_source source fs) in
          let f : set_item cells i v ≡ edited = cc in
          (
            i,
            (subst (Aimed same (Target same cells args) cells) a r).0,
            fs,
            source,
            s,
            b,
            ap (λ t. item_at t i) (sym f) ∙ item_at-set cells i v b,
            with_source-HasSource source fs,
            ap (λ t. pop_item t i) (sym f) ∙ pop-set cells i v,
          )

  delete_cell-Edited :
      (cells : Items) (args : Fields) (index : Option ℕ) (id : Text) {edited : Items}
      → Aimed same (Target same cells args) cells index
      → delete_cell cells index ≡ ok edited
      → Edited deleting cells edited args id
  unfolding delete_cell deleted_target
  delete_cell-Edited cells args index id {edited} r h = deleted (target cells index) refl h
    where
      deleted :
          (o : Option (ℕ × Fields))
          → target cells index ≡ o
          → deleted_target cells o ≡ ok edited
          → Edited deleting cells edited args id
      deleted none e g = absurd (cc)
      deleted (some (i, fs)) e g =
          let (a, b) = target_lem cells index e in
          (i, (subst (Aimed same (Target same cells args) cells) a r).0, fs, b, cc)

  insert_at-place :
      (cells : Items) (args : Fields) (index : Option ℕ)
      → Aimed same (Target same cells args) cells index
      → (insert_at cells index ≡ place cells index) × (place cells index ≤ item_count cells)
  unfolding insert_at
  insert_at-place cells args none r = (refl, omega arith)
  insert_at-place cells args (some i) r = (omega arith, omega (arith, r.1))

  insert_typed-Edited :
      (cells : Items) (args : Fields) (index : Option ℕ) (id source : Text) (v : Value)
      {edited : Items}
      → new_source args ≡ str source
      → elim (get (codes "cell_type") args) [ none ↦ str (codes "code") | some w ↦ w ] ≡ v
      → Aimed same (Target same cells args) cells index
      → insert_typed cells index id source v ≡ ok edited
      → Edited inserting cells edited args id
  unfolding insert_typed new_cell get text_eq
  insert_typed-Edited cells args index id source (str t) {edited} s k r h =
      let v = new_cell id source t in
      let (a, b) =
        raise_if-eq-ok (not (member t (codes "code" ∷ codes "markdown" ∷ [])))
          (invalid_cell_type (str t)) (ok (insert_item cells (insert_at cells index) v)) h in
      let (same_place, fits) = insert_at-place cells args index r in
      let e : insert_item cells (place cells index) v ≡ edited =
        ap (λ n. insert_item cells n v) (sym same_place) ∙ ok-inj b in
      (
        index,
        r,
        _,
        source,
        s,
        ap (λ c. item_at c (place cells index)) (sym e)
            ∙ item_at-insert cells (place cells index) v fits,
        refl,
        ap (λ w. some w) (sym k),
        (split_source source, refl, split_source-concat source),
        ap (λ c. pop_item c (place cells index)) (sym e)
            ∙ pop-insert cells (place cells index) v fits,
      )
  insert_typed-Edited cells args index id source null s k r h = absurd (cc)
  insert_typed-Edited cells args index id source (int n) s k r h = absurd (cc)
  insert_typed-Edited cells args index id source (bool b) s k r h = absurd (cc)
  insert_typed-Edited cells args index id source (real t) s k r h = absurd (cc)
  insert_typed-Edited cells args index id source (arr vs) s k r h = absurd (cc)
  insert_typed-Edited cells args index id source (obj fs) s k r h = absurd (cc)

  applied-Edited :
      (cells : Items) (args : Fields) (mode : EditMode) (index : Option ℕ) (id : Text) (v : Value)
      {edited : Items}
      → new_source args ≡ v
      → Aimed same (Target same cells args) cells index
      → applied cells args mode index id v ≡ ok edited
      → Edited mode cells edited args id
  unfolding applied insert_cell
  applied-Edited cells args replacing index id (str t) s r h =
      let (a, b) =
        raise_if-eq-ok (ltb max_write_bytes (clamped_size t)) source_too_large
          (replace_cell cells index t) h in
      replace_cell-Edited cells args index id t s r b
  applied-Edited cells args inserting index id (str t) s r h =
      let (a, b) =
        raise_if-eq-ok (ltb max_write_bytes (clamped_size t)) source_too_large
          (insert_cell cells index id t (get (codes "cell_type") args)) h in
      insert_typed-Edited cells args index id t
        (elim (get (codes "cell_type") args) [ none ↦ str (codes "code") | some v ↦ v ]) s refl r b
  applied-Edited cells args deleting index id (str t) s r h =
      let (a, b) =
        raise_if-eq-ok (ltb max_write_bytes (clamped_size t)) source_too_large
          (delete_cell cells index) h in
      delete_cell-Edited cells args index id r b
  applied-Edited cells args deleting index id v s r h = delete_cell-Edited cells args index id r h
  applied-Edited cells args mode index id v s r h = absurd (cc)

  -- An edit of cells that succeeds hits the cell that the arguments mean: the first dict with the cell_id,
  -- or the cell with the cell_index if there is no cell_id. `replace` puts the new source into that cell,
  -- which is a dict, and `delete` takes it away. `insert` puts a cell of the type, the id and the new
  -- source behind it, or behind all cells if no cell is meant. The other cells stay as they are, in their
  -- order.
  pub edit_cells-Edited :
      (cells : Items) (args : Fields) (mode : EditMode) (id : Text) {edited : Items}
      → edit_cells same cells args mode id ≡ ok edited
      → Edited mode cells edited args id
  unfolding edit_cells apply_notebook_edit
  edit_cells-Edited cells args mode id h =
      let (index, a, b) =
        bind-eq-ok (find_cell_index same cells args mode)
          (λ i. apply_notebook_edit cells args mode i id) h in
      applied-Edited cells args mode index id (new_source args) refl
        (find_cell_index-Aimed same cells args mode a) b
