-- ===== src/Osc52/Policy.antt =====
-- internal/osc52/osc52.go: `Policy`, `ParsePolicy` and `String`. A Go string is its bytes.
use gosh.Base.{Bytes, equal, if◌then◌else◌, Result, ok, err}
use gosh.Base.Text.{codes}

pub data Policy : Type 0 where
  write full off : Policy

pub data PolicyError : Type 0 where
  unknown_policy : Bytes → PolicyError

unfoldable pub parse_policy : Bytes → Result PolicyError Policy
parse_policy s =
    if equal s (codes "write")
    then ok write
    else if equal s (codes "full")
    then ok full
    else if equal s (codes "off")
    then ok off
    else err (unknown_policy s)

unfoldable pub policy_string : Policy → Bytes
policy_string full = codes "full"
policy_string off = codes "off"
policy_string write = codes "write"
