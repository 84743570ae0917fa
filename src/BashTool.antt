-- ===== src/BashTool.antt =====
-- src/deepseek_mcp/bash_tool.py: the request of a Bash call, the bounded capture of a stream, and the text
-- of a result. The supervised process is a record of what it did; decoding of bytes, the texts of
-- exceptions and the command policy's lower-casing and tokenizer are parameters.
pub mod Capture
use deepseek_as_subagent.Prelude.{
  ℕ, ◌+◌, ◌-◌, min, max, Bool, true, false, not, ◌&&◌, ◌||◌, Option, none, some, List, [], ◌∷◌,
  ◌++◌, ltb, leb, if◌then◌else◌, length, is_empty,
}
use deepseek_as_subagent.Prelude.Results.{Result, ok, err, ◌>>=◌, ◌>>◌, raise_if}
use deepseek_as_subagent.Text.{Text, codes, is_blank, take}
use deepseek_as_subagent.Json.{ℤ, pos, negsuc, Value, null, int, str, Fields, get}
use deepseek_as_subagent.Json.Size.{decimal}
use deepseek_as_subagent.Safety.Commands.{CommandBlocked, check_command}
use deepseek_as_subagent.FileIdentity.{ToolInputError, bounded_integer}

abbrev pub max_tool_output : ℕ
max_tool_output = 50_000

abbrev pub max_bash_timeout : ℕ
max_bash_timeout = 600

abbrev pub default_bash_timeout : ℕ
default_bash_timeout = 60

abbrev pub max_stream_bytes : ℕ
max_stream_bytes = 25_000

pub record CapturedStream : Type 0 where
  pub captured : List ℕ
  pub total_bytes : ℕ
  pub failed : Bool

abbrev pub no_capture : CapturedStream
no_capture = record { captured = []; total_bytes = 0; failed = false }

unfoldable pub append : CapturedStream → List ℕ → CapturedStream
unfolding take
append c chunk = record c {
  captured = c.captured ++ take (max_stream_bytes - length c.captured) chunk;
  total_bytes = c.total_bytes + length chunk;
}

-- `_drain` on the chunks that the stream gave; `broken` if reading raised behind them.
unfoldable pub drain : List (List ℕ) → Bool → CapturedStream → CapturedStream
unfolding append
drain [] broken c = record c { failed = broken }
drain (chunk ∷ chunks) broken c = drain chunks broken (append c chunk)

pub record BashResult : Type 0 where
  pub returncode : ℤ
  pub stdout : List ℕ
  pub stderr : List ℕ
  pub stdout_total : ℕ
  pub stderr_total : ℕ
  pub timed_out : Bool

-- Why no command is run.
pub data BashRefusal : Type 0 where
  missing_command : BashRefusal
  blocked : CommandBlocked → BashRefusal
  invalid_timeout : ToolInputError → BashRefusal

unfoldable pub parse_timeout : Fields → Result ToolInputError ℕ
unfolding bounded_integer get
parse_timeout args =
    bounded_integer
      (elim (get (codes "timeout") args) [ none ↦ int (pos default_bash_timeout) | some v ↦ v ]) 1
      (some max_bash_timeout)

limited_timeout : ℕ → Option ℕ → ℕ
limited_timeout timeout none = timeout
limited_timeout timeout (some max_timeout) = min timeout (max 1 max_timeout)

map_err {ℓ} : {E F : Type ℓ} {A : Type ℓ} → (E → F) → Result E A → Result F A
map_err f (ok a) = ok a
map_err f (err e) = err (f e)

module _ (lower : Text → Text) (tokenize : Text → List Text) where
  requested : Fields → Option ℕ → Option Value → Result BashRefusal (Text × ℕ)
  unfolding map_err parse_timeout limited_timeout check_command is_blank
  requested args max_timeout (some (str command)) = do
    raise_if (is_blank command) missing_command
    map_err blocked (check_command lower tokenize command)
    timeout ← map_err invalid_timeout (parse_timeout args)
    ok (command, limited_timeout timeout max_timeout)
  requested args max_timeout _ = err missing_command

  unfoldable pub command_request : Fields → Option ℕ → Result BashRefusal (Text × ℕ)
  unfolding requested get
  command_request args max_timeout = requested args max_timeout (get (codes "command") args)

signed_decimal : ℤ → Text
unfolding decimal
signed_decimal (pos n) = decimal n
signed_decimal (negsuc n) = codes "-" ++ decimal (n + 1)

-- What the supervised process did: the failure to start or to be waited for, its streams, whether it was
-- stopped and its readers ended, and its status.
pub record HostRun : Type 0 where
  pub cause : Option Text
  pub stopped : Bool
  pub readers_ok : Bool
  pub stdout : CapturedStream
  pub stderr : CapturedStream
  pub returncode : Option ℤ
  pub timed_out : Bool

-- `_trusted_host_result`, with the texts of its `TrustedHostError`s.
unfoldable pub trusted_host_result : HostRun → Result Text BashResult
trusted_host_result h = elim h.cause [
  | some e ↦ err (codes "trusted host command failed: " ++ e)
  | none ↦
      if not h.stopped || not h.readers_ok
      then err (codes "trusted host command cleanup failed")
      else if h.stdout.failed || h.stderr.failed
      then err (codes "trusted host output capture failed")
      else elim h.returncode [
        | none ↦ err (codes "trusted host command did not return a status")
        | some n ↦ ok (record {
          returncode = n;
          stdout = h.stdout.captured;
          stderr = h.stderr.captured;
          stdout_total = h.stdout.total_bytes;
          stderr_total = h.stderr.total_bytes;
          timed_out = h.timed_out;
        })
      ]
]

module _ (decode : List ℕ → Text) where
  unfoldable pub decode_stream : List ℕ → ℕ → Text
  unfolding decimal
  decode_stream bytes total =
      if ltb (length bytes) total
      then decode bytes
        ++ (codes "\n... [truncated, captured "
            ++ (decimal (length bytes) ++ (codes " of " ++ (decimal total ++ codes " bytes]"))))
      else decode bytes

  combined : BashResult → Text
  unfolding decode_stream signed_decimal
  combined r =
      codes "[exit "
      ++ (signed_decimal r.returncode
          ++ (codes "]\n--- stdout ---\n"
              ++ (decode_stream r.stdout r.stdout_total
                  ++ (let shown = decode_stream r.stderr r.stderr_total in
                      if is_empty shown then [] else codes "\n--- stderr ---\n" ++ shown))))

  unfoldable pub truncated : Text → Text
  unfolding take
  truncated t =
      if ltb max_tool_output (length t)
      then take max_tool_output t ++ codes "\n... [tool output truncated]"
      else t

  unfoldable pub format_result : BashResult → Text
  unfolding combined truncated
  format_result r = truncated (combined r)

  finished : ℕ → Result Text BashResult → Text
  unfolding format_result decimal
  finished timeout (err e) = codes "ERROR: trusted host unavailable: " ++ e
  finished timeout (ok r) =
      if r.timed_out
      then codes "ERROR: command timed out after "
        ++ (decimal timeout ++ codes "s; trusted-host process was terminated")
      else format_result r

  module _ (lower : Text → Text) (tokenize : Text → List Text) (refusal : BashRefusal → Text) where
    -- `run` is `_run_on_trusted_host` up to its result: the process for a command and a timeout.
    unfoldable pub execute_bash : (Text → ℕ → HostRun) → Fields → Option ℕ → Text
    unfolding finished trusted_host_result command_request
    execute_bash run args max_timeout = elim (command_request lower tokenize args max_timeout) [
      | err e ↦ codes "ERROR: " ++ refusal e
      | ok (command, timeout) ↦ finished timeout (trusted_host_result (run command timeout))
    ]
