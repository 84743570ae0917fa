-- ===== src/Notebook.antt =====
-- src/deepseek_mcp/tools.py: the cells of a notebook under NotebookEdit. Python's `==` on JSON values and
-- the id of a new cell are parameters.
pub mod Cells
pub mod Targets
use mathlib.Core.List.{reverse}
use deepseek_as_subagent.Prelude.{
  ℕ, zero, suc, ◌+◌, Bool, true, false, not, ◌&&◌, ◌||◌, Option, none, some, List, [], ◌∷◌, ltb,
  ◌==◌, if◌then◌else◌, is_empty,
}
use deepseek_as_subagent.Prelude.Results.{Result, ok, err, ◌>>=◌, ◌>>◌, raise_if}
use deepseek_as_subagent.Text.{Text, codes, text_eq, starts_with, member}
use deepseek_as_subagent.Text.Lines.{text_break}
use deepseek_as_subagent.Json.{
  pos, Value, null, bool, int, str, arr, obj, Items, nil, cons, Fields, end, field, get,
  get_or_null,
}
use deepseek_as_subagent.Tools.{max_write_bytes, clamped_size}

pub data EditMode : Type 0 where
  replacing : EditMode
  inserting : EditMode
  deleting : EditMode

abbrev pub is_inserting : EditMode → Bool
is_inserting inserting = true
is_inserting _ = false

pub data NotebookError : Type 0 where
  cell_id_not_found : Value → NotebookError
  cell_index_not_an_integer : NotebookError
  cell_index_out_of_range : Value → NotebookError
  no_target : NotebookError
  invalid_target : NotebookError
  invalid_cell_type : Value → NotebookError
  source_not_a_string : NotebookError
  source_too_large : NotebookError

-- `d[key] = value`
unfoldable pub put : Text → Value → Fields → Fields
unfolding text_eq
put key v end = field key v end
put key v (field k w fs) = elim (text_eq k key) [
  | true ↦ field k v fs
  | false ↦ field k w (put key v fs)
]

unfoldable pub item_count : Items → ℕ
item_count nil = 0
item_count (cons v vs) = suc (item_count vs)

unfoldable pub item_at : Items → ℕ → Option Value
item_at nil i = none
item_at (cons v vs) zero = some v
item_at (cons v vs) (suc i) = item_at vs i

unfoldable pub set_item : Items → ℕ → Value → Items
set_item nil i w = nil
set_item (cons v vs) zero w = cons w vs
set_item (cons v vs) (suc i) w = cons v (set_item vs i w)

-- `cells.insert(i, value)`
unfoldable pub insert_item : Items → ℕ → Value → Items
insert_item nil i w = cons w nil
insert_item (cons v vs) zero w = cons w (cons v vs)
insert_item (cons v vs) (suc i) w = cons v (insert_item vs i w)

-- `cells.pop(i)`
unfoldable pub pop_item : Items → ℕ → Items
pop_item nil i = nil
pop_item (cons v vs) zero = vs
pop_item (cons v vs) (suc i) = cons v (pop_item vs i)

-- `splitlines(keepends=True)`, with the line so far in reverse.
unfoldable pub kept_lines : Text → Text → List Text
unfolding starts_with
kept_lines line [] = if is_empty line then [] else reverse line ∷ []
kept_lines line (c ∷ s) =
    let ends = text_break c && not (c == 13 && starts_with (codes "\n") s) in
    let rest = kept_lines (if ends then [] else c ∷ line) s in
    if ends then reverse (c ∷ line) ∷ rest else rest

unfoldable pub split_source : Text → List Text
unfolding kept_lines
split_source source = if is_empty source then [] ∷ [] else kept_lines [] source

unfoldable pub strings : List Text → Items
strings [] = nil
strings (t ∷ ts) = cons (str t) (strings ts)

module _ (same : Value → Value → Bool) where
  -- The first cell that is a dict with the id, from the index on.
  unfoldable pub find_id : Value → ℕ → Items → Option ℕ
  unfolding get_or_null
  find_id cell_id index nil = none
  find_id cell_id index (cons (obj fs) vs) =
      let rest = find_id cell_id (suc index) vs in
      if same (get_or_null (codes "id") fs) cell_id then some index else rest
  find_id cell_id index (cons _ vs) = find_id cell_id (suc index) vs

  -- What the edit does without a cell to aim at.
  abbrev pub untargeted : EditMode → NotebookError → Result NotebookError (Option ℕ)
  untargeted mode e = if is_inserting mode then ok none else err e

  by_index : Items → Value → EditMode → Result NotebookError (Option ℕ)
  unfolding item_count
  by_index cells null mode = untargeted mode no_target
  by_index cells (int (pos n)) mode =
      if ltb n (item_count cells)
      then ok (some n)
      else untargeted mode (cell_index_out_of_range (int (pos n)))
  by_index cells (int n) mode = untargeted mode (cell_index_out_of_range (int n))
  by_index cells _ mode = err cell_index_not_an_integer

  found_or : Option ℕ → EditMode → NotebookError → Result NotebookError (Option ℕ)
  found_or (some i) mode e = ok (some i)
  found_or none mode e = untargeted mode e

  by_id : Items → Value → EditMode → Result NotebookError (Option ℕ)
  unfolding find_id found_or
  by_id cells cell_id mode = found_or (find_id cell_id 0 cells) mode (cell_id_not_found cell_id)

  targeted : Items → Value → Value → EditMode → Result NotebookError (Option ℕ)
  unfolding by_index by_id
  targeted cells null index mode = by_index cells index mode
  targeted cells cell_id index mode = by_id cells cell_id mode

  unfoldable pub find_cell_index : Items → Fields → EditMode → Result NotebookError (Option ℕ)
  unfolding targeted get_or_null
  find_cell_index cells args mode =
      targeted cells (get_or_null (codes "cell_id") args) (get_or_null (codes "cell_index") args)
        mode

is_code : Value → Bool
unfolding text_eq
is_code (str t) = text_eq t (codes "code")
is_code _ = false

-- The fields of a cell that gets a new source.
unfoldable pub with_source : Text → Fields → Fields
unfolding put split_source strings get_or_null is_code
with_source source fs =
    let sourced = put (codes "source") (arr (strings (split_source source))) fs in
    if is_code (get_or_null (codes "cell_type") sourced)
    then put (codes "execution_count") null (put (codes "outputs") (arr nil) sourced)
    else sourced

as_dict : ℕ → Option Value → Option (ℕ × Fields)
as_dict i (some (obj fs)) = some (i, fs)
as_dict i _ = none

target : Items → Option ℕ → Option (ℕ × Fields)
unfolding item_at as_dict
target cells none = none
target cells (some i) = as_dict i (item_at cells i)

replaced_target : Items → Text → Option (ℕ × Fields) → Result NotebookError Items
unfolding with_source set_item
replaced_target cells source none = err invalid_target
replaced_target cells source (some (i, fs)) = ok (set_item cells i (obj (with_source source fs)))

unfoldable pub replace_cell : Items → Option ℕ → Text → Result NotebookError Items
unfolding target replaced_target
replace_cell cells index source = replaced_target cells source (target cells index)

deleted_target : Items → Option (ℕ × Fields) → Result NotebookError Items
unfolding pop_item
deleted_target cells none = err invalid_target
deleted_target cells (some (i, fs)) = ok (pop_item cells i)

unfoldable pub delete_cell : Items → Option ℕ → Result NotebookError Items
unfolding target deleted_target
delete_cell cells index = deleted_target cells (target cells index)

-- A new cell, with the id that `uuid4` gives.
new_cell : Text → Text → Text → Value
unfolding split_source strings text_eq
new_cell id source cell_type = obj (
    field (codes "cell_type") (str cell_type) (
      field (codes "id") (str id) (
        field (codes "source") (arr (strings (split_source source))) (
          field (codes "metadata") (obj end) (
            if text_eq cell_type (codes "code")
            then field (codes "outputs") (arr nil) (field (codes "execution_count") null end)
            else end)))))

insert_at : Items → Option ℕ → ℕ
unfolding item_count
insert_at cells none = item_count cells
insert_at cells (some i) = i + 1

insert_typed : Items → Option ℕ → Text → Text → Value → Result NotebookError Items
unfolding insert_at new_cell insert_item member
insert_typed cells index id source (str cell_type) = do
  raise_if (not (member cell_type (codes "code" ∷ codes "markdown" ∷ [])))
      (invalid_cell_type (str cell_type))
  ok (insert_item cells (insert_at cells index) (new_cell id source cell_type))
insert_typed cells index id source v = err (invalid_cell_type v)

unfoldable pub insert_cell :
    Items → Option ℕ → Text → Text → Option Value → Result NotebookError Items
unfolding insert_typed
insert_cell cells index id source cell_type =
    insert_typed cells index id source (elim cell_type [ none ↦ str (codes "code") | some v ↦ v ])

applied : Items → Fields → EditMode → Option ℕ → Text → Value → Result NotebookError Items
unfolding replace_cell insert_cell delete_cell clamped_size get
applied cells args mode index id (str source) = do
  raise_if (ltb max_write_bytes (clamped_size source)) source_too_large
  elim mode [
    | replacing ↦ replace_cell cells index source
    | inserting ↦ insert_cell cells index id source (get (codes "cell_type") args)
    | deleting ↦ delete_cell cells index
  ]
applied cells args deleting index id _ = delete_cell cells index
applied cells args mode index id _ = err source_not_a_string

-- `args.get("new_source", "")`
unfoldable pub new_source : Fields → Value
unfolding get
new_source args = elim (get (codes "new_source") args) [ none ↦ str [] | some v ↦ v ]

-- `_apply_notebook_edit`: the cells behind the edit.
unfoldable pub apply_notebook_edit :
    Items → Fields → EditMode → Option ℕ → Text → Result NotebookError Items
unfolding applied new_source
apply_notebook_edit cells args mode index id = applied cells args mode index id (new_source args)

-- The two steps of `_execute_notebook_edit` on the cells.
unfoldable pub edit_cells :
    (Value → Value → Bool) → Items → Fields → EditMode → Text → Result NotebookError Items
unfolding find_cell_index apply_notebook_edit
edit_cells same cells args mode id = do
  index ← find_cell_index same cells args mode
  apply_notebook_edit cells args mode index id
