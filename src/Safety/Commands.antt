-- ===== src/Safety/Commands.antt =====
-- src/deepseek_mcp/safety.py: the command policy, a defence in depth and no security boundary.
use mathlib.Core.List.{reverse}
use deepseek_as_subagent.Prelude.{
  ℕ, Bool, false, not, ◌&&◌, ◌||◌, List, [], ◌∷◌, if◌then◌else◌, ◌==◌,
}
use deepseek_as_subagent.Prelude.Results.{Result, ok, ◌>>◌, raise_if}
use deepseek_as_subagent.Text.{Text, codes, text_eq, member, strip, is_blank, contains}

abbrev pub dangerous_tokens : List Text
dangerous_tokens =
    codes "sudo"
    ∷ codes "su"
    ∷ codes "nc"
    ∷ codes "ncat"
    ∷ codes "netcat"
    ∷ codes "ssh"
    ∷ codes "scp"
    ∷ codes "sftp"
    ∷ codes "rsync"
    ∷ codes "curl"
    ∷ codes "wget"
    ∷ codes "telnet"
    ∷ codes "socat"
    ∷ []

abbrev pub dangerous_anywhere_tokens : List Text
dangerous_anywhere_tokens = codes "sudo" ∷ codes "su" ∷ []

abbrev pub dangerous_phrases : List Text
dangerous_phrases =
    codes "rm -rf /"
    ∷ codes "rm -rf ~"
    ∷ codes "rm -rf $HOME"
    ∷ codes "rm -rf *"
    ∷ codes "rm -rf ."
    ∷ codes ":(){:|:&};:"
    ∷ codes "mkfs."
    ∷ codes "> /dev/sd"
    ∷ codes "chmod -R 777 /"
    ∷ codes "dd if=/dev/zero"
    ∷ codes "dd if=/dev/random"
    ∷ codes "/dev/tcp/"
    ∷ codes "/dev/udp/"
    ∷ []

abbrev pub Signature : Type 0
Signature = Text × Text

abbrev pub dangerous_inline_interpreters : List Signature
dangerous_inline_interpreters =
    (codes "python", codes "-c")
    ∷ (codes "python3", codes "-c")
    ∷ (codes "perl", codes "-e")
    ∷ (codes "ruby", codes "-e")
    ∷ (codes "node", codes "-e")
    ∷ (codes "php", codes "-r")
    ∷ (codes "awk", codes "-e")
    ∷ (codes "sh", codes "-c")
    ∷ (codes "bash", codes "-c")
    ∷ (codes "zsh", codes "-c")
    ∷ (codes "ksh", codes "-c")
    ∷ (codes "dash", codes "-c")
    ∷ []

abbrev pub package_install_prefixes : List Signature
package_install_prefixes =
    (codes "pip", codes "install")
    ∷ (codes "pip3", codes "install")
    ∷ (codes "pipx", codes "install")
    ∷ (codes "npm", codes "install")
    ∷ (codes "npm", codes "i")
    ∷ (codes "yarn", codes "add")
    ∷ (codes "pnpm", codes "install")
    ∷ (codes "pnpm", codes "add")
    ∷ (codes "uv", codes "pip")
    ∷ (codes "uv", codes "add")
    ∷ (codes "gem", codes "install")
    ∷ (codes "cargo", codes "install")
    ∷ (codes "brew", codes "install")
    ∷ (codes "apt", codes "install")
    ∷ (codes "apt-get", codes "install")
    ∷ (codes "dnf", codes "install")
    ∷ (codes "yum", codes "install")
    ∷ []

abbrev pub publish_prefixes : List Signature
publish_prefixes =
    (codes "git", codes "push")
    ∷ (codes "npm", codes "publish")
    ∷ (codes "twine", codes "upload")
    ∷ (codes "cargo", codes "publish")
    ∷ (codes "gh", codes "release")
    ∷ []

unfoldable pub has_signature : Signature → List Signature → Bool
unfolding text_eq
has_signature s [] = false
has_signature (a, b) ((c, d) ∷ ss) = (text_eq a c && text_eq b d) || has_signature (a, b) ss

-- The text behind the last slash.
unfoldable pub base_name : Text → Text → Text
base_name seen [] = reverse seen
base_name seen (c ∷ s) = base_name (if c == 47 then [] else c ∷ seen) s

drop_backslash : Text → Text
drop_backslash [] = []
drop_backslash (c ∷ s) = if c == 92 then s else c ∷ s

-- The state of `_split_clauses`: the clauses so far and the buffer, newest first, and the quotes.
pub record Splitter : Type 0 where
  pub out : List Text
  pub buf : Text
  pub in_single : Bool
  pub in_double : Bool

abbrev pub split_start : Splitter
split_start = record { out = []; buf = []; in_single = false; in_double = false }

-- `if buf: out.append("".join(buf).strip()); buf = []`
unfoldable pub flush : Splitter → Splitter
flush s = elim s.buf [
  | [] ↦ s
  | c ∷ cs ↦ record s { out = strip (reverse (c ∷ cs)) ∷ s.out; buf = [] }
]

abbrev pub is_separator : ℕ → Bool
is_separator c = c == 59 || c == 124 || c == 38

-- A character that is no separator outside quotes; 39 and 34 are the quotes.
abbrev pub take_char : ℕ → Splitter → Splitter
take_char c s =
    if c == 39 && not s.in_double
    then record s { in_single = not s.in_single; buf = c ∷ s.buf }
    else if c == 34 && not s.in_single
    then record s { in_double = not s.in_double; buf = c ∷ s.buf }
    else record s { buf = c ∷ s.buf }

abbrev pub is_open : Splitter → Bool
is_open s = not s.in_single && not s.in_double

-- The two characters of `&&` and `||` are one separator: the second finds the buffer empty, as two
-- single separators would, so that each separator is taken by itself.
unfoldable pub split_loop : Splitter → Text → Splitter
unfolding flush
split_loop s [] = flush s
split_loop s (c ∷ cs) =
    split_loop (if is_separator c && is_open s then flush s else take_char c s) cs

nonempty : List Text → List Text
nonempty [] = []
nonempty ([] ∷ ts) = nonempty ts
nonempty ((c ∷ t) ∷ ts) = (c ∷ t) ∷ nonempty ts

unfoldable pub split_clauses : Text → List Text
unfolding split_loop nonempty
split_clauses command = nonempty (reverse (split_loop split_start command).out)

pub data CommandBlocked : Type 0 where
  empty_command : CommandBlocked
  dangerous_phrase token_anywhere program_not_allowed : Text → CommandBlocked
  inline_code package_install publish_action : Text → Text → CommandBlocked

module _ (lower : Text → Text) (tokenize : Text → List Text) where
  unfoldable pub strip_cmd_prefix : Text → Text
  unfolding drop_backslash base_name
  strip_cmd_prefix tok = lower (base_name [] (drop_backslash tok))

  unfoldable pub check_phrases : Text → List Text → Result CommandBlocked (Unit {0})
  unfolding contains
  check_phrases lowered [] = ok tt
  check_phrases lowered (p ∷ ps) = do
    raise_if (contains (lower p) lowered) (dangerous_phrase p)
    check_phrases lowered ps

  check_tokens : List Text → Result CommandBlocked (Unit {0})
  unfolding strip_cmd_prefix member
  check_tokens [] = ok tt
  check_tokens (t ∷ ts) = do
    raise_if (member (strip_cmd_prefix t) dangerous_anywhere_tokens) (token_anywhere t)
    check_tokens ts

  check_signature : Text → List Text → Result CommandBlocked (Unit {0})
  unfolding has_signature
  check_signature first [] = ok tt
  check_signature first (second ∷ _) = do
    raise_if (has_signature (first, second) dangerous_inline_interpreters)
        (inline_code first second)
    raise_if (has_signature (first, second) package_install_prefixes) (package_install first second)
    raise_if (has_signature (first, second) publish_prefixes) (publish_action first second)

  -- A clause without tokens is passed over by the caller.
  unfoldable pub check_clause : List Text → Result CommandBlocked (Unit {0})
  unfolding check_tokens check_signature strip_cmd_prefix member
  check_clause [] = ok tt
  check_clause (t ∷ ts) = do
    check_tokens (t ∷ ts)
    raise_if (member (strip_cmd_prefix t) dangerous_tokens)
        (program_not_allowed (strip_cmd_prefix t))
    check_signature (strip_cmd_prefix t) ts

  unfoldable pub check_clauses : List Text → Result CommandBlocked (Unit {0})
  unfolding check_clause
  check_clauses [] = ok tt
  check_clauses (c ∷ cs) = do check_clause (tokenize c); check_clauses cs

  unfoldable pub check_command : Text → Result CommandBlocked (Unit {0})
  unfolding check_phrases check_clauses split_clauses
  check_command command = do
    raise_if (is_blank command) empty_command
    check_phrases (lower command) dangerous_phrases
    check_clauses (split_clauses command)
