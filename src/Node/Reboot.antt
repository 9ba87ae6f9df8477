-- ===== src/Node/Reboot.antt =====
-- pkg/node/node.go: the labels that let the handler uncordon a node after a reboot.
use Prim.Native.String
use Prim.Native.Char.{code}
use aws_node_termination_han.Common.{
  ℕ, zero, suc, ◌+◌, ◌-◌, ◌*◌, ◌/◌, ◌%◌, String, false, not, ◌&&◌, Option, none, some, ltb, leb,
  ◌==◌, if◌then◌else◌, str_eq, lookup,
}
use aws_node_termination_han.Common.Int.{ℤ, pos, negsuc, ◌-ℤ◌, ltb_ℤ, sub_ℕ}
use aws_node_termination_han.Config.{Config}
use aws_node_termination_han.Kube.{
  Result, ok, err, new, wrap, read_uptime, Server, M, return, fail, ◌>>=◌, ◌>>◌, attempt, on_error,
  ask, now,
}
use aws_node_termination_han.Node.{
  action_label_key, action_label_time_key, uncordon_after_reboot_label_val, fetch_kubernetes_node,
  add_label, remove_label, remove_nth_labels, uncordon,
}
use aws_node_termination_han.Node.Taints.{remove_nth_taints}

-- `time.Time.Unix()`: whole seconds, rounded down.
unfoldable pub unix : ℤ → ℤ
unix (pos t) = pos (t / 1_000_000_000)
unix (negsuc t) = negsuc (t / 1_000_000_000)

-- One decimal digit.
unfoldable pub digit : ℕ → String
digit d =
    if d == 0
    then "0"
    else if d == 1
    then "1"
    else if d == 2
    then "2"
    else if d == 3
    then "3"
    else if d == 4
    then "4"
    else if d == 5
    then "5"
    else if d == 6
    then "6"
    else if d == 7
    then "7"
    else if d == 8
    then "8"
    else "9"

-- The decimal digits of a number in front of a text; `fuel` bounds their count.
unfoldable pub decimal : ℕ → ℕ → String → String
decimal zero m rest = rest
decimal (suc fuel) m rest =
    let text = Prim.Native.String.◌++◌ (digit (m % 10)) rest in
    let longer = decimal fuel (m / 10) text in if ltb m 10 then text else longer

-- `strconv.FormatInt(t, 10)`: an `int64` has at most 19 digits.
unfoldable pub format_int : ℤ → String
format_int (pos t) = decimal 19 t ""
format_int (negsuc t) = Prim.Native.String.◌++◌ "-" (decimal 19 (suc t) "")

-- The number that the digits of a text stand for.
unfoldable pub parse_digits : ℕ → String → Option ℕ
parse_digits acc String.[] = some acc
parse_digits acc (String.◌∷◌ c s) =
    let rest = parse_digits (acc * 10 + (code c - b'0')) s in
    if leb b'0' (code c) && leb (code c) b'9' then rest else none

-- At least one digit, and a value below a limit.
unfoldable pub parse_below : ℕ → String → Option ℕ
parse_below limit String.[] = none
parse_below limit (String.◌∷◌ c s) = elim (parse_digits 0 (String.◌∷◌ c s)) [
  | none ↦ none
  | some m ↦ if ltb m limit then some m else none
]

abbrev pub positive : Option ℕ → Option ℤ
positive none = none
positive (some m) = some (pos m)

abbrev pub negative : Option ℕ → Option ℤ
negative none = none
negative (some m) = some (sub_ℕ 0 m)

-- `strconv.ParseInt(s, 10, 64)`
unfoldable pub parse_int : String → Option ℤ
parse_int String.[] = none
parse_int (String.◌∷◌ c s) =
    if code c == b'-'
    then negative (parse_below 9_223_372_036_854_775_809 s)
    else if code c == b'+'
    then positive (parse_below 9_223_372_036_854_775_808 s)
    else positive (parse_below 9_223_372_036_854_775_808 (String.◌∷◌ c s))

abbrev pub label_or_empty : Option String → String
label_or_empty none = ""
label_or_empty (some val) = val

module _ (server : Server) (n : Config) where
  -- The rollback: the error of the label's removal, or else the nil `err` that hides the cause.
  unfoldable pub rolled_back : Result (Unit {0}) → M (Unit {0})
  rolled_back (err e) = fail (
      wrap
        "Unable to label node with action time for uncordon after system-reboot and unable to rollback action label"
        e)
  rolled_back (ok _) =
      fail (new "Unable to label node with action time for uncordon after system-reboot")

  -- If the time cannot be recorded, the action label is rolled back.
  unfoldable pub after_time_label : String → Result (Unit {0}) → M (Unit {0})
  after_time_label node_name (ok _) = return tt
  after_time_label node_name (err _) = do
    removed ← attempt (remove_label server n node_name action_label_key)
    rolled_back removed

  unfoldable pub mark_for_uncordon_after_reboot : String → M (Unit {0})
  mark_for_uncordon_after_reboot node_name = do
    on_error (wrap "Unable to label node with action to uncordon after system-reboot")
        (add_label server n node_name action_label_key uncordon_after_reboot_label_val false)
    time ← now server
    timed ←
        attempt (add_label server n node_name action_label_time_key (format_int (unix time)) false)
    after_time_label node_name timed

  -- The `switch` on the action label, with the seconds since the label was set.
  unfoldable pub perform_action : String → ℤ → String → M (Unit {0})
  perform_action node_name seconds_since_label action_val =
      if not (str_eq action_val uncordon_after_reboot_label_val) then return tt else do
        uptime ← ask read_uptime server.uptime
        if ltb_ℤ seconds_since_label uptime then return tt else (do
          on_error (wrap "Unable to uncordon node") (uncordon server n node_name)
          remove_nth_labels server n node_name
          remove_nth_taints server n node_name)

  unfoldable pub uncordon_if_rebooted : String → M (Unit {0})
  uncordon_if_rebooted node_name = do
    k8s_node ←
        on_error (wrap "Unable to fetch kubernetes node from API")
          (fetch_kubernetes_node server n node_name)
    elim (lookup action_label_time_key k8s_node.labels) [
      | none ↦ return tt
      | some time_val ↦ elim (parse_int time_val) [
        | none ↦ fail (new "Cannot convert unix time")
        | some time_val_num ↦ do
          time ← now server
          perform_action node_name (unix time -ℤ time_val_num)
              (label_or_empty (lookup action_label_key k8s_node.labels))
      ]
    ]
