-- ===== src/Ovn/Acl.antt =====
-- internal/pkg/ovn/acl.go: access control lists through ovn-nbctl.
use Prim.Native.String
use Prim.Native.String.{[], ◌∷◌}
use icn_nodus.Common.{
  nat_eq, if◌then◌else◌, sprint, is_blank, split, trim, ℤ, int_text, parse_int16, ℕ, code, String,
  Bool, true, false, ◌||◌, Option, none, some, List, [], ◌∷◌, ◌++◌, ◌==◌,
}
use icn_nodus.Effect.{message, external, Result, ok, err, M, ◌>>=◌, of_result}
use icn_nodus.Ovn.Exec.{run_ovn_nbctl, must}

pub data PolicyDirection : Type 0 where
  ingress egress : PolicyDirection
  other : String → PolicyDirection

-- The constants `Ingress` and `Egress`; a parsed rule may hold any other text.
abbrev pub direction_text : PolicyDirection → String
direction_text ingress = "to-lport"
direction_text egress = "from-lport"
direction_text (other s) = s

abbrev pub direction_of : String → PolicyDirection
direction_of s = if s == "to-lport" then ingress else if s == "from-lport" then egress else other s

pub record Acl : Type 0 where
  pub entity : String
  pub direction : PolicyDirection
  pub priority : ℤ  -- int16
  pub match : String
  pub verdict : String

-- The class \s of Go's regular expressions.
abbrev is_re_space : ℕ → Bool
is_re_space n = nat_eq n 32 || nat_eq n 9 || nat_eq n 10 || nat_eq n 12 || nat_eq n 13

-- `^\s+` replaced by nothing
unfoldable pub drop_lead_space : String → String
drop_lead_space [] = ""
drop_lead_space (c ∷ s) =
    let rest = drop_lead_space s in if is_re_space (code c) then rest else c ∷ s

-- `\s+` replaced by one space; the flag says that the run was already written
unfoldable pub squeeze : Bool → String → String
squeeze seen [] = ""
squeeze seen (c ∷ s) =
    let blank = squeeze true s in
    let plain = squeeze false s in
    if is_re_space (code c) then (if seen then blank else String.◌++◌ " " blank) else c ∷ plain

-- The text up to the last closing parenthesis, if there is one.
unfoldable pub upto_close : String → Option String
upto_close [] = none
upto_close (c ∷ s) = elim (upto_close s) [
  | some p ↦ some (c ∷ p)
  | none ↦ if nat_eq (code c) b')' then some (c ∷ []) else none
]

-- FindString of `\(.*\)`: from the first opening to the last closing parenthesis
unfoldable pub find_parentheses : String → String
find_parentheses [] = ""
find_parentheses (c ∷ s) =
    let later = find_parentheses s in
    if nat_eq (code c) b'(' then (elim (upto_close s) [ none ↦ later | some p ↦ c ∷ p ]) else later

abbrev last_or_blank : List String → String
last_or_blank [] = ""
last_or_blank (x ∷ []) = x
last_or_blank (x ∷ y ∷ r) = last_or_blank (y ∷ r)

abbrev rule_of : String → String → List String → Result Acl
rule_of entity match (dir ∷ prio ∷ rest) = elim (parse_int16 prio) [
  | none ↦ err (external "strconv.ParseInt")
  | some p ↦ ok (record {
    entity = entity;
    direction = direction_of dir;
    priority = p;
    match = match;
    verdict = last_or_blank (dir ∷ prio ∷ rest);
  })
]
rule_of entity match _ = err (message "Unable to parse ACL")

-- `fromString` on a rule whose entity is set
unfoldable pub from_string : String → String → Result Acl
unfolding drop_lead_space squeeze find_parentheses upto_close trim split parse_int16
from_string entity line =
    let tidy = squeeze false (drop_lead_space line) in
    let match = trim b')' (trim b'(' (find_parentheses tidy)) in
    rule_of entity match (split b' ' tidy)

unfoldable pub to_string : Acl → String
to_string rule = sprint (
    "Entity: "
    ∷ rule.entity
    ∷ ", Direction: "
    ∷ direction_text rule.direction
    ∷ ", Priority: "
    ∷ int_text rule.priority
    ∷ ", Match: "
    ∷ rule.match
    ∷ ", Verdict: "
    ∷ rule.verdict
    ∷ [])

-- The loop of `ACLList`, which stops at the first line that does not parse.
unfoldable pub parse_lines : String → List String → Result (List Acl)
unfolding from_string
parse_lines entity [] = ok []
parse_lines entity (line ∷ lines) = elim (from_string entity line) [
  | err e ↦ err e
  | ok rule ↦ elim (parse_lines entity lines) [ err e ↦ err e | ok rules ↦ ok (rule ∷ rules) ]
]

-- One argument, given only if the value is not blank.
abbrev option_arg : String → String → String → List String
option_arg name value suffix =
    if is_blank value then [] else sprint (name ∷ value ∷ suffix ∷ []) ∷ []

abbrev pub flag_arg : String → Bool → List String
flag_arg name given = if given then name ∷ [] else []

-- ACLList, of whose results the callers read the rules and the error
unfoldable pub acl_list : String → String → M (List Acl)
unfolding parse_lines split
acl_list entity entity_type = do
  stdout ← must (run_ovn_nbctl (option_arg "--type=" entity_type "d" ++ "acl-list" ∷ entity ∷ []))
  of_result (parse_lines entity (split b'\n' stdout))

unfoldable pub acl_add_args : Acl → String → String → String → Bool → Bool → List String
acl_add_args rule entity_type meter name may_exist en_log =
    option_arg "--type=" entity_type ""
    ++ flag_arg "--log" en_log
    ++ option_arg "--meter=" meter ""
    ++ option_arg "--name=" name ""
    ++ flag_arg "--may-exist" may_exist
    ++ "acl-add"
      ∷ rule.entity
      ∷ direction_text rule.direction
      ∷ int_text rule.priority
      ∷ rule.match
      ∷ rule.verdict
      ∷ []

-- ACLAdd, whose parameter `severity` is not used
unfoldable pub acl_add : Acl → String → String → String → String → Bool → Bool → M String
acl_add rule entity_type meter severity name may_exist en_log =
    must (run_ovn_nbctl (acl_add_args rule entity_type meter name may_exist en_log))

unfoldable pub acl_del : Acl → String → M String
acl_del rule entity_type = must (
    run_ovn_nbctl (
      option_arg "--type=" entity_type "d"
      ++ "acl-del"
        ∷ rule.entity
        ∷ direction_text rule.direction
        ∷ int_text rule.priority
        ∷ rule.match
        ∷ []))

unfoldable pub acl_del_entity : String → String → M String
acl_del_entity entity entity_type =
    must (run_ovn_nbctl (option_arg "--type=" entity_type "d" ++ "acl-del" ∷ entity ∷ []))
