-- ===== src/Mutation/Messages.antt =====
-- The message of a failure names every record (src/deepseek_mcp/mutation_outcome.py).
use deepseek_as_subagent.Prelude.{
  ◌≡◌, sym, ap, ◌∙◌, List, [], ◌∷◌, ◌++◌, append_assoc, append-nil, map, All, if◌then◌else◌,
}
use deepseek_as_subagent.Text.{Text, codes, text_eq, join}
use deepseek_as_subagent.Mutation.{
  MutationRecord, detail, summary, summaries, mutation_failure_message,
}

-- The text holds the part in one piece.
abbrev pub Infix : Text → Text → Type 0
Infix part text = (before : Text) × (behind : Text) × (text ≡ before ++ (part ++ behind))

Infix-behind : (part text more : Text) → Infix part text → Infix part (text ++ more)
Infix-behind part text more (a, b, e) = (
  a,
  b ++ more,
  ap (λ (t : Text). t ++ more) e
      ∙ (append_assoc a (part ++ b) more ∙ ap (λ (t : Text). a ++ t) (append_assoc part b more)),
)

Infix-before : (part text more : Text) → Infix part text → Infix part (more ++ text)
Infix-before part text more (a, b, e) =
    (more ++ a, b, ap (λ (t : Text). more ++ t) e ∙ sym (append_assoc more a (part ++ b)))

Infix_refl : (part : Text) → Infix part part
Infix_refl part = ([], [], sym (append-nil part))

summary-names : (r : MutationRecord) → Infix r.transaction_id (summary r)
unfolding summary
summary-names r =
    Infix-before r.transaction_id (detail r.warning ++ (codes "; transaction " ++ r.transaction_id))
      (if text_eq r.status (codes "committed")
        then codes "update committed"
        else codes "outcome uncertain")
      (Infix-before r.transaction_id (codes "; transaction " ++ r.transaction_id) (detail r.warning)
        (Infix-before r.transaction_id r.transaction_id (codes "; transaction ")
          (Infix_refl r.transaction_id)))

All-Infix-before :
    (rs : List MutationRecord) (text more : Text)
    → All (λ (m : MutationRecord). Infix m.transaction_id text) rs
    → All (λ (m : MutationRecord). Infix m.transaction_id (more ++ text)) rs
All-Infix-before [] text more h = tt
All-Infix-before (r ∷ rs) text more h =
    (Infix-before r.transaction_id text more h.0, All-Infix-before rs text more h.1)

All-Infix-behind :
    (rs : List MutationRecord) (text more : Text)
    → All (λ (m : MutationRecord). Infix m.transaction_id text) rs
    → All (λ (m : MutationRecord). Infix m.transaction_id (text ++ more)) rs
All-Infix-behind [] text more h = tt
All-Infix-behind (r ∷ rs) text more h =
    (Infix-behind r.transaction_id text more h.0, All-Infix-behind rs text more h.1)

joined-names :
    (rs : List MutationRecord)
    → All (λ (m : MutationRecord). Infix m.transaction_id (join (codes "; ") (map summary rs))) rs
unfolding join
joined-names [] = tt
joined-names (r ∷ []) = (summary-names r, tt)
joined-names (r ∷ q ∷ rs) =
    let rest = join (codes "; ") (map summary (q ∷ rs)) in
    (
      Infix-behind r.transaction_id (summary r) (codes "; " ++ rest) (summary-names r),
      All-Infix-before (q ∷ rs) (codes "; " ++ rest) (summary r)
          (All-Infix-before (q ∷ rs) rest (codes "; ") (joined-names (q ∷ rs))),
    )

-- The message of a failure holds the transaction id of every record.
pub mutation_failure_message-names :
    (rs : List MutationRecord) (reason : Text)
    → All (λ (m : MutationRecord). Infix m.transaction_id (mutation_failure_message rs reason)) rs
unfolding mutation_failure_message summaries
mutation_failure_message-names rs reason =
    All-Infix-before rs _ (codes "workspace mutation requires review: ")
      (All-Infix-behind rs (join (codes "; ") (map summary rs)) _ (joined-names rs))
