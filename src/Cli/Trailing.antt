-- ===== src/Cli/Trailing.antt =====
-- Flags behind the name of the escalation: cmd/kubectl-claw/main.go.
use k8s4claw.Base.{◌≡◌, refl, String, some, List, [], ◌∷◌}
use k8s4claw.Cli.Flags.{operand, token, Flags, parse_flags, common_flags}

parse_operand :
    (extra_name arg : String) (args : List String) (flags : Flags)
    → token arg ≡ operand
    → parse_flags extra_name (arg ∷ args) flags ≡ some (flags, arg ∷ args)
unfolding parse_flags
parse_operand extra_name arg [] flags first = rw (first, parse_flags) refl
parse_operand extra_name arg (next ∷ args) flags first = rw (first, parse_flags) refl

-- Arguments behind the escalation's name are not read, although the usage and its examples put the
-- flags there: the namespace is then the default one, and who approved or why it was rejected is
-- taken as not given.
common_flags_trailing :
    (extra_name name : String) (args : List String)
    → token name ≡ operand
    → common_flags (name ∷ args) extra_name
      ≡ some (record { name = name; namespace = "default"; extra = "" })
unfolding common_flags
common_flags_trailing extra_name name args first =
    rw
      (
        parse_operand extra_name name args (record { namespace = "default"; extra = "" }) first,
        common_flags,
      )
      refl
