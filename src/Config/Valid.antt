-- ===== src/Config/Valid.antt =====
-- What holds of a configuration that was loaded (src/deepseek_mcp/config.py: `Config`).
use mathlib.Core.Path.{subst}
use deepseek_as_subagent.Prelude.{
  ℕ, ◌≤◌, ◌*◌, ◌≡◌, refl, sym, ap, ◌∙◌, Bool, true, false, not, ◌&&◌, Option, none, some, List, [],
  ◌∷◌, arith, is_empty, any, all, ltb, All, ◌⊎◌, inl, inr,
}
use deepseek_as_subagent.Prelude.Results.{
  Result, ok, ◌>>◌, bind-eq-ok, raise_if, raise_if-eq-ok, ok-inj,
}
use deepseek_as_subagent.Text.{Text, codes, text_eq, text_eq_sound, strip, member}
use deepseek_as_subagent.Json.{
  pos, negsuc, Value, null, bool, int, real, str, arr, obj, Fields, get,
}
use deepseek_as_subagent.Config.{
  max_turns_limit, hard_max_run_seconds, default_max_output_tokens, default_max_turns,
  default_max_run_seconds, default_base_url, known_tools, mutation_tools, ConfigError,
  invalid_tools, unsafe_runtime, invalid_workspace, invalid_capability, invalid_model, Url,
  Environment, get_or, bounded, validate_max_turns, validate_max_run_seconds,
  validate_max_output_tokens, tool_names, has_duplicates, validate_tools, load_allowed_tools,
  is_plain, validate_model, load_model_slots, validate_reasoning_effort, load_reasoning_effort,
  validate_base_url, load_api_key, Config, settings, post_init, from_data, load,
}

not-false : (b : Bool) → not b ≡ false → b ≡ true
not-false true h = refl
not-false false h = absurd (cc)

bounded_lem :
    (name : Text) (limit : ℕ) (v : Value) {n : ℕ}
    → bounded name limit v ≡ ok n
    → (1 ≤ n) × (n ≤ limit)
unfolding bounded
bounded_lem name limit (int (pos m)) h = ground arith
bounded_lem name limit (int (negsuc m)) h = absurd (cc)
bounded_lem name limit null h = absurd (cc)
bounded_lem name limit (bool b) h = absurd (cc)
bounded_lem name limit (real t) h = absurd (cc)
bounded_lem name limit (str t) h = absurd (cc)
bounded_lem name limit (arr vs) h = absurd (cc)
bounded_lem name limit (obj fs) h = absurd (cc)

-- Tools that are known, none of them twice.
abbrev pub AreTools : List Text → Type 0
AreTools ts = (any (λ t. not (member t known_tools)) ts ≡ false) × (has_duplicates ts ≡ false)

validate_tools-AreTools : (v : Value) {ts : List Text} → validate_tools v ≡ ok ts → AreTools ts
unfolding validate_tools
validate_tools-AreTools (arr vs) {ts} h =
    let (us, a, h1) = bind-eq-ok (tool_names vs) _ h in
    let (b, h2) =
      raise_if-eq-ok (any (λ t. not (member t known_tools)) us) invalid_tools
        (do raise_if (has_duplicates us) invalid_tools; ok us) h1 in
    let (c, h3) = raise_if-eq-ok (has_duplicates us) invalid_tools (ok us) h2 in
    rw (← ok-inj h3) (b, c)
validate_tools-AreTools null h = absurd (cc)
validate_tools-AreTools (bool b) h = absurd (cc)
validate_tools-AreTools (int n) h = absurd (cc)
validate_tools-AreTools (real t) h = absurd (cc)
validate_tools-AreTools (str t) h = absurd (cc)
validate_tools-AreTools (obj fs) h = absurd (cc)

known_tools-AreTools : AreTools known_tools
unfolding member has_duplicates text_eq
known_tools-AreTools = (refl, refl)

load_allowed_tools-AreTools :
    (data' : Fields) {ts : List Text} → load_allowed_tools data' ≡ ok ts → AreTools ts
unfolding load_allowed_tools
load_allowed_tools-AreTools data' {ts} h = chosen (get (codes "allowed_tools") data') h
  where
    chosen :
        (o : Option Value)
        → ◌≡◌ {A = Result ConfigError (List Text)}
            (elim o [ none ↦ ok known_tools | some v ↦ validate_tools v ])
            (ok ts)
        → AreTools ts
    chosen none g = rw (← ok-inj g) known_tools-AreTools
    chosen (some v) g = validate_tools-AreTools v g

-- A name that is not empty, has no white space around it, and no code point below 32.
abbrev pub IsModel : Text → Type 0
IsModel t = (is_empty t ≡ false) × (strip t ≡ t) × All (λ (c : ℕ). 32 ≤ c) t

all-All : (t : Text) → all (λ c. not (ltb c 32)) t ≡ true → All (λ (c : ℕ). 32 ≤ c) t
all-All [] h = tt
all-All (c ∷ t) h = (ground arith, all-All t (ground arith))

model_lem : (t : Text) → is_empty (strip t) ≡ false → is_plain t ≡ true → IsModel t
unfolding is_plain
model_lem t a b =
    let e : t ≡ strip t = text_eq_sound t (strip t) (ground arith) in
    (ap is_empty e ∙ a, sym e, all-All t (ground arith))

validate_model_lem : (name : Text) (v : Value) {t : Text} → validate_model name v ≡ ok t → IsModel t
unfolding validate_model
validate_model_lem name (str u) {t} h =
    let (a, h1) =
      raise_if-eq-ok (is_empty (strip u)) (invalid_model name)
        (do raise_if (not (is_plain u)) (invalid_model name); ok u) h in
    let (b, h2) = raise_if-eq-ok (not (is_plain u)) (invalid_model name) (ok u) h1 in
    let e = ok-inj h2 in subst IsModel e (model_lem u a (not-false (is_plain u) b))
validate_model_lem name null h = absurd (cc)
validate_model_lem name (bool b) h = absurd (cc)
validate_model_lem name (int n) h = absurd (cc)
validate_model_lem name (real t) h = absurd (cc)
validate_model_lem name (arr vs) h = absurd (cc)
validate_model_lem name (obj fs) h = absurd (cc)

module _ (urlsplit : Text → Option Url) (lower : Text → Text)
    (load_workspace : Fields → Result ConfigError Text) (is_unsafe in_runtime : Text → Bool) where
  -- What a configuration promises to the rest of the program.
  pub record Valid (c : Config) : Type 0 where
    pub turns : (1 ≤ c.max_turns) × (c.max_turns ≤ 100)
    pub tokens : (1 ≤ c.max_output_tokens) × (c.max_output_tokens ≤ 16_384)
    pub seconds : (1 ≤ c.max_run_seconds) × (c.max_run_seconds ≤ 48 * 3_600)
    pub tools : AreTools c.allowed_tools
    pub models : IsModel c.model × IsModel c.flash_model × IsModel c.pro_model
    pub safe_root : is_unsafe c.workspace ≡ false
    pub safe_runtime :
        (member (codes "Write") c.allowed_tools ≡ true)
          ⊎ (member (codes "Edit") c.allowed_tools ≡ true)
          ⊎ (member (codes "NotebookEdit") c.allowed_tools ≡ true)
        → in_runtime c.workspace ≡ false

  safe_runtime_lem :
      (c : Config)
      → (any (λ t. member t c.allowed_tools) mutation_tools && in_runtime c.workspace) ≡ false
      → (member (codes "Write") c.allowed_tools ≡ true)
        ⊎ (member (codes "Edit") c.allowed_tools ≡ true)
        ⊎ (member (codes "NotebookEdit") c.allowed_tools ≡ true)
      → in_runtime c.workspace ≡ false
  safe_runtime_lem c h (inl e) = ground arith
  safe_runtime_lem c h (inr (inl e)) = ground arith
  safe_runtime_lem c h (inr (inr e)) = ground arith

  post_init-Valid :
      (c : Config) (v : Value) {d : Config}
      → AreTools c.allowed_tools
      → post_init urlsplit lower load_workspace is_unsafe in_runtime c v ≡ ok d
      → Valid d
  unfolding post_init
  post_init-Valid c v {d} ts h =
      let (a, h1) = raise_if-eq-ok (is_unsafe c.workspace) invalid_workspace _ h in
      let (model, b1, h2) = bind-eq-ok (validate_model (codes "model") (str c.model)) _ h1 in
      let (flash, b2, h3) = bind-eq-ok (validate_model (codes "flash") (str c.flash_model)) _ h2 in
      let (pro, b3, h4) = bind-eq-ok (validate_model (codes "pro") (str c.pro_model)) _ h3 in
      let (e1, b4, h5) =
        bind-eq-ok (validate_reasoning_effort (codes "reasoning_effort") (str c.reasoning_effort)) _
          h4 in
      let (e2, b5, h6) =
        bind-eq-ok
          (validate_reasoning_effort (codes "flash_reasoning_effort")
            (str c.flash_reasoning_effort))
          _ h5 in
      let (e3, b6, h7) =
        bind-eq-ok
          (validate_reasoning_effort (codes "pro_reasoning_effort") (str c.pro_reasoning_effort)) _
          h6 in
      let (url, b7, h8) = bind-eq-ok (validate_base_url urlsplit lower v) _ h7 in
      let (turns, b8, h9) = bind-eq-ok (validate_max_turns (int (pos c.max_turns))) _ h8 in
      let (tokens, b9, h10) =
        bind-eq-ok (validate_max_output_tokens (int (pos c.max_output_tokens))) _ h9 in
      let (seconds, b10, h11) =
        bind-eq-ok (validate_max_run_seconds (int (pos c.max_run_seconds))) _ h10 in
      let (b11, h12) =
        raise_if-eq-ok (not (member c.capability (codes "coding" ∷ codes "readonly" ∷ [])))
          invalid_capability _ h11 in
      let (b12, h13) =
        raise_if-eq-ok
          (any (λ t. member t c.allowed_tools) mutation_tools && in_runtime c.workspace)
          unsafe_runtime _ h12 in
      rw (← ok-inj h13) (record {
        turns = bounded_lem (codes "max_turns") max_turns_limit (int (pos c.max_turns)) b8;
        tokens =
            bounded_lem (codes "max_output_tokens") default_max_output_tokens
              (int (pos c.max_output_tokens)) b9;
        seconds =
            bounded_lem (codes "max_run_seconds") hard_max_run_seconds (int (pos c.max_run_seconds))
              b10;
        tools = ts;
        models = (
          validate_model_lem (codes "model") (str c.model) b1,
          validate_model_lem (codes "flash") (str c.flash_model) b2,
          validate_model_lem (codes "pro") (str c.pro_model) b3,
        );
        safe_root = a;
        safe_runtime = safe_runtime_lem c b12;
      })

  from_data-Valid :
      (data' : Fields) (credential : Text) {c : Config}
      → from_data urlsplit lower load_workspace is_unsafe in_runtime data' credential ≡ ok c
      → Valid c
  unfolding from_data
  from_data-Valid data' credential h =
      let (slots, b1, h1) = bind-eq-ok (load_model_slots data') _ h in
      let (e1, b2, h2) =
        bind-eq-ok (load_reasoning_effort data' (codes "flash_reasoning_effort")) _ h1 in
      let (e2, b3, h3) =
        bind-eq-ok (load_reasoning_effort data' (codes "pro_reasoning_effort")) _ h2 in
      let (workspace, b4, h4) = bind-eq-ok (load_workspace data') _ h3 in
      let (turns, b5, h5) =
        bind-eq-ok
          (validate_max_turns (get_or (codes "max_turns") (int (pos default_max_turns)) data')) _
          h4 in
      let (tokens, b6, h6) =
        bind-eq-ok
          (validate_max_output_tokens
            (get_or (codes "max_output_tokens") (int (pos default_max_output_tokens)) data'))
          _ h5 in
      let (seconds, b7, h7) =
        bind-eq-ok
          (validate_max_run_seconds
            (get_or (codes "max_run_seconds") (int (pos default_max_run_seconds)) data'))
          _ h6 in
      let (tools, b8, h8) = bind-eq-ok (load_allowed_tools data') _ h7 in
      post_init-Valid (settings credential workspace slots turns tokens seconds tools e1 e2)
        (get_or (codes "base_url") (str default_base_url) data')
        (load_allowed_tools-AreTools data' b8) h8

  -- A configuration that is loaded is within its bounds: 1 to 100 turns, 1 to 16,384 output tokens, and
  -- 1 second to 48 hours; its tools are known and none stands twice; the names of its models are not
  -- empty, with no white space around them and no code point below 32; its workspace is not an unsafe
  -- root; and with Write, Edit or NotebookEdit the program's own code is outside the workspace.
  pub load-Valid :
      (env : Environment) (data' : Fields) {c : Config}
      → load urlsplit lower load_workspace is_unsafe in_runtime env data' ≡ ok c
      → Valid c
  unfolding load
  load-Valid env data' h =
      let (url, a, h1) =
        bind-eq-ok
          (validate_base_url urlsplit lower
            (get_or (codes "base_url") (str default_base_url) data'))
          _ h in
      let (credential, b, h2) = bind-eq-ok (load_api_key urlsplit lower env data' (str url)) _ h1 in
      from_data-Valid data' credential h2
