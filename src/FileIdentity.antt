-- ===== src/FileIdentity.antt =====
-- src/deepseek_mcp/file_identity.py: bounded integers of tool arguments, and the identities that a write
-- compares its target with. What `os.stat` answers is a record, or none for a missing file.
pub mod Baseline
use deepseek_as_subagent.Prelude.{
  ℕ, ◌+◌, Bool, true, false, not, ◌&&◌, ◌||◌, Option, none, some, List, ltb, ◌==◌, if◌then◌else◌,
}
use deepseek_as_subagent.Prelude.Results.{Result, ok, err, ◌>>=◌, ◌>>◌, raise_if}
use deepseek_as_subagent.Json.{pos, negsuc, Value, int}

pub data ToolInputError : Type 0 where
  not_an_integer out_of_bounds not_regular target_appeared target_changed : ToolInputError

-- The bounds are natural numbers, so that a negative integer is below every minimum.
unfoldable pub bounded_integer : Value → ℕ → Option ℕ → Result ToolInputError ℕ
bounded_integer (int (pos n)) minimum none = if ltb n minimum then err out_of_bounds else ok n
bounded_integer (int (pos n)) minimum (some maximum) =
    if ltb n minimum || ltb maximum n then err out_of_bounds else ok n
bounded_integer (int (negsuc n)) minimum maximum = err out_of_bounds
bounded_integer _ minimum maximum = err not_an_integer

pub record FileIdentity : Type 0 where
  pub device : ℕ
  pub inode : ℕ
  pub mode : ℕ
  pub size : ℕ
  pub modified_ns : ℕ
  pub changed_ns : ℕ
  pub digest : Option (List ℕ)

pub record StatResult : Type 0 where
  pub device : ℕ
  pub inode : ℕ
  pub mode : ℕ
  pub size : ℕ
  pub modified_ns : ℕ
  pub changed_ns : ℕ
  pub is_regular : Bool
  pub permissions : ℕ

-- `ExpectedIdentity`
pub data ExpectedIdentity : Type 0 where
  unknown missing : ExpectedIdentity
  identity : FileIdentity → ExpectedIdentity

unfoldable pub from_stat : StatResult → FileIdentity
from_stat i = record {
  device = i.device;
  inode = i.inode;
  mode = i.mode;
  size = i.size;
  modified_ns = i.modified_ns;
  changed_ns = i.changed_ns;
  digest = none;
}

unfoldable pub matches_stat : FileIdentity → StatResult → Bool
matches_stat f i =
    (i.device == f.device && (i.inode == f.inode && i.mode == f.mode))
    && (i.size == f.size && (i.modified_ns == f.modified_ns && i.changed_ns == f.changed_ns))

unfoldable pub validate_target : Option StatResult → ExpectedIdentity → Result ToolInputError ℕ
unfolding matches_stat
validate_target none (identity f) = err target_changed
validate_target none _ = ok 0o600
validate_target (some i) unknown = do raise_if (not i.is_regular) not_regular; ok i.permissions
validate_target (some i) missing = do raise_if (not i.is_regular) not_regular; err target_appeared
validate_target (some i) (identity f) = do
  raise_if (not i.is_regular) not_regular
  raise_if (not (matches_stat f i)) target_changed
  ok i.permissions

baseline : Option StatResult → ExpectedIdentity → Option FileIdentity
unfolding from_stat
baseline none unknown = none
baseline (some i) unknown = some (from_stat i)
baseline info missing = none
baseline info (identity f) = some f

-- The mode, and the identity to write over, with none for a missing file.
unfoldable pub write_baseline :
    Option StatResult → ExpectedIdentity → Result ToolInputError (ℕ × Option FileIdentity)
unfolding validate_target baseline
write_baseline info expected = do
  mode ← validate_target info expected
  ok (mode, baseline info expected)
