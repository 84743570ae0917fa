-- ===== src/BashTool/Capture.antt =====
-- The capture of a stream does not depend on its chunks, and the bounds of a Bash call
-- (src/deepseek_mcp/bash_tool.py).
use deepseek_as_subagent.Prelude.{
  ℕ, ◌-◌, ◌≤◌, ◌≡◌, refl, ap, ◌∙◌, Bool, false, Option, none, some, List, [], ◌∷◌, ◌++◌,
  append_assoc, append-nil, arith, length, length-append, suc, zero, max,
}
use deepseek_as_subagent.Prelude.Results.{Result, ok, err, ◌>>=◌, ◌>>◌, bind-eq-ok, raise_if-eq-ok}
use deepseek_as_subagent.Text.{Text, codes, take, is_blank}
use deepseek_as_subagent.Json.{
  pos, negsuc, Value, null, bool, int, real, str, arr, obj, Fields, get,
}
use deepseek_as_subagent.Safety.Commands.{check_command}
use deepseek_as_subagent.FileIdentity.{bounded_integer}
use deepseek_as_subagent.BashTool.{
  max_bash_timeout, max_stream_bytes, CapturedStream, no_capture, append, drain, BashRefusal,
  missing_command, blocked, invalid_timeout, parse_timeout, limited_timeout, map_err,
  default_bash_timeout, command_request, requested,
}

abbrev pub concat : List (List ℕ) → List ℕ
concat [] = []
concat (c ∷ cs) = c ++ concat cs

take-append-take :
    (m : ℕ) (xs ys : List ℕ) → take m xs ++ take (m - length (take m xs)) ys ≡ take m (xs ++ ys)
unfolding take
take-append-take zero xs ys = refl
take-append-take (suc m) [] ys = ap (λ n. take n ys) {x = suc m - 0} {y = suc m} (omega arith)
take-append-take (suc m) (x ∷ xs) ys =
    ap (λ (t : List ℕ). x ∷ t)
      (ap (λ n. take m xs ++ take n ys) {x = suc m - suc (length (take m xs))}
          {y = m - length (take m xs)} (omega arith)
        ∙ take-append-take m xs ys)

drain-take :
    (chunks : List (List ℕ)) (broken : Bool) (seen : List ℕ) (c : CapturedStream)
    → c.captured ≡ take max_stream_bytes seen
    → c.total_bytes ≡ length seen
    → ((drain chunks broken c).captured ≡ take max_stream_bytes (seen ++ concat chunks))
      × ((drain chunks broken c).total_bytes ≡ length (seen ++ concat chunks))
      × ((drain chunks broken c).failed ≡ broken)
unfolding drain append
drain-take [] broken seen c h n = (rw append-nil h, rw append-nil n, refl)
drain-take (chunk ∷ chunks) broken seen c h n = rw (← append_assoc seen chunk (concat chunks)) (
    drain-take chunks broken (seen ++ chunk) (append c chunk)
      (rw h (take-append-take max_stream_bytes seen chunk))
      (omega (arith, length-append seen chunk, n)))

-- However a stream is cut into chunks, its capture is the first 25,000 bytes of the whole stream, with
-- the number of all its bytes, and marked as failed exactly if reading it raised.
pub drain_lem :
    (chunks : List (List ℕ)) (broken : Bool)
    → ((drain chunks broken no_capture).captured ≡ take max_stream_bytes (concat chunks))
      × ((drain chunks broken no_capture).total_bytes ≡ length (concat chunks))
      × ((drain chunks broken no_capture).failed ≡ broken)
unfolding take
drain_lem chunks broken = drain-take chunks broken [] no_capture refl refl

bounded_integer-bounds :
    (v : Value) (a b : ℕ) {n : ℕ} → bounded_integer v a (some b) ≡ ok n → (a ≤ n) × (n ≤ b)
unfolding bounded_integer
bounded_integer-bounds (int (pos m)) a b h = ground arith
bounded_integer-bounds (int (negsuc m)) a b h = absurd (cc)
bounded_integer-bounds null a b h = absurd (cc)
bounded_integer-bounds (bool x) a b h = absurd (cc)
bounded_integer-bounds (real x) a b h = absurd (cc)
bounded_integer-bounds (str x) a b h = absurd (cc)
bounded_integer-bounds (arr x) a b h = absurd (cc)
bounded_integer-bounds (obj x) a b h = absurd (cc)

parse_timeout_bounds :
    (args : Fields) {n : ℕ} → parse_timeout args ≡ ok n → (1 ≤ n) × (n ≤ max_bash_timeout)
unfolding parse_timeout
parse_timeout_bounds args h =
    bounded_integer-bounds
      (elim (get (codes "timeout") args) [ none ↦ int (pos default_bash_timeout) | some v ↦ v ]) 1
      max_bash_timeout h

-- The limit that the run's deadline sets, of at least one second.
abbrev pub Within : ℕ → Option ℕ → Type 0
Within n none = Unit {0}
Within n (some m) = n ≤ max 1 m

limited_timeout_bounds :
    (n : ℕ) (m : Option ℕ)
    → 1 ≤ n
    → n ≤ max_bash_timeout
    → (1 ≤ limited_timeout n m)
      × (limited_timeout n m ≤ max_bash_timeout)
      × Within (limited_timeout n m) m
unfolding limited_timeout
limited_timeout_bounds n none l u = (l, u, tt)
limited_timeout_bounds n (some m) l u = (omega arith, omega arith, omega arith)

map_err-eq-ok {ℓ} :
    {E F A : Type ℓ} (f : E → F) (r : Result E A) {a : A} → map_err f r ≡ ok a → r ≡ ok a
unfolding map_err
map_err-eq-ok f (ok a) h = cc
map_err-eq-ok f (err e) h = absurd (cc)

module _ (lower : Text → Text) (tokenize : Text → List Text) where
  requested_lem :
      (args : Fields) (max_timeout : Option ℕ) (v : Option Value) {command : Text} {timeout : ℕ}
      → requested lower tokenize args max_timeout v ≡ ok (command, timeout)
      → (v ≡ some (str command))
        × (is_blank command ≡ false)
        × (check_command lower tokenize command ≡ ok tt)
        × (1 ≤ timeout)
        × (timeout ≤ max_bash_timeout)
        × Within timeout max_timeout
  unfolding requested
  requested_lem args max_timeout (some (str t)) {command} {timeout} h =
      let (blank, h1) = raise_if-eq-ok (is_blank t) missing_command (checked t) h in
      let (u, h2, h3) =
        bind-eq-ok (map_err blocked (check_command lower tokenize t)) (λ _. timed t) h1 in
      let (n, h4, h5) =
        bind-eq-ok (map_err invalid_timeout (parse_timeout args))
          (λ n. ok (t, limited_timeout n max_timeout)) h3 in
      let (l, m) =
        parse_timeout_bounds args (map_err-eq-ok invalid_timeout (parse_timeout args) h4) in
      let (a, b, c) = limited_timeout_bounds n max_timeout l m in
      let e : t ≡ command = cc in
      let f : limited_timeout n max_timeout ≡ timeout = cc in
      rw (← e)
        (rw (← f) (refl, blank, map_err-eq-ok blocked (check_command lower tokenize t) h2, a, b, c))
    where
      timed : Text → Result BashRefusal (Text × ℕ)
      timed t = do
        n ← map_err invalid_timeout (parse_timeout args)
        ok (t, limited_timeout n max_timeout)

      checked : Text → Result BashRefusal (Text × ℕ)
      checked t = do map_err blocked (check_command lower tokenize t); timed t
  requested_lem args max_timeout _ h = cc

  -- A command that is run is the one of the request, is not blank and passes the command policy, and its
  -- timeout is between 1 and 600 seconds, and within what is left of the run, of which one second always
  -- counts as left.
  pub command_request_lem :
      (args : Fields) (max_timeout : Option ℕ) {command : Text} {timeout : ℕ}
      → command_request lower tokenize args max_timeout ≡ ok (command, timeout)
      → (get (codes "command") args ≡ some (str command))
        × (is_blank command ≡ false)
        × (check_command lower tokenize command ≡ ok tt)
        × (1 ≤ timeout)
        × (timeout ≤ max_bash_timeout)
        × Within timeout max_timeout
  unfolding command_request
  command_request_lem args max_timeout h =
      requested_lem args max_timeout (get (codes "command") args) h
