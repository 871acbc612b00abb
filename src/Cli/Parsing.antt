-- ===== src/Cli/Parsing.antt =====
-- `parse_sensor_command` of server/src/cli/QuantumCommandCli.cpp on the lines that it accepts.
use management_sensors.Prelude.{
  pos, ◌≤◌, ◌≡◌, refl, sym, ap, subst, ◌∙◌, true, Text, [], ◌∷◌, ◌++◌, append_assoc, append-nil,
  some,
}
use management_sensors.Cli.Words.{
  trim, read_word, digits_value, int_max, is_space, not_space, is_digit,
}
use management_sensors.Cli.Words.Laws.{
  IsWord, IsNumber, read_word-append, read_word-space, read_word-nil, read_int-append,
  read_int-space, trim-words,
}
use management_sensors.Cli.{read_end, read_value, read_attr, read_id, parse_sensor_command}

-- A line of four fields, with a space between each two.
abbrev pub command_line : Text → Text → Text → Text → Text
command_line cmd ds attr value = cmd ++ b' ' ∷ (ds ++ b' ' ∷ (attr ++ b' ' ∷ value))

read_word-last : (w : Text) → IsWord w → read_word (b' ' ∷ w) ≡ some (w, [])
read_word-last w h =
    read_word-space w ∙ ap read_word (sym (append-nil w)) ∙ read_word-append w [] h tt

read_word-field : (w s : Text) → IsWord w → read_word (w ++ b' ' ∷ s) ≡ some (w, b' ' ∷ s)
unfolding not_space is_space
read_word-field w s h = read_word-append w (b' ' ∷ s) h refl

command_line-trim :
    (cmd ds attr value : Text)
    → IsWord cmd
    → IsWord value
    → trim (command_line cmd ds attr value) ≡ command_line cmd ds attr value
command_line-trim cmd ds attr value hc hv =
    let between : Text = b' ' ∷ (ds ++ b' ' ∷ (attr ++ b' ' ∷ [])) in
    let same : between ++ value ≡ b' ' ∷ (ds ++ b' ' ∷ (attr ++ b' ' ∷ value)) =
      simp append_assoc in
    subst (λ s. trim (cmd ++ s) ≡ cmd ++ s) same (trim-words cmd between value hc hv)

-- A line of a command, a number that an int holds, an attribute and a value is read into these four
-- fields, and is valid.
pub parse_sensor_command-fields :
    (cmd ds attr value : Text)
    → IsWord cmd
    → IsNumber ds
    → digits_value 0 ds ≤ int_max
    → IsWord attr
    → IsWord value
    → parse_sensor_command (command_line cmd ds attr value)
      ≡ record { cmd = cmd; id = pos (digits_value 0 ds); attr = attr; value = value; valid = true }
unfolding parse_sensor_command read_end read_value read_attr read_id is_digit
parse_sensor_command-fields cmd ds attr value hc hd m ha hv =
    rw (command_line-trim cmd ds attr value hc hv, parse_sensor_command)
      (rw (read_word-field cmd (ds ++ b' ' ∷ (attr ++ b' ' ∷ value)) hc, parse_sensor_command)
        (rw (read_int-space (ds ++ b' ' ∷ (attr ++ b' ' ∷ value)), read_id)
          (rw (read_int-append ds (b' ' ∷ (attr ++ b' ' ∷ value)) hd m refl, read_id)
            (rw (read_word-space (attr ++ b' ' ∷ value), read_attr)
              (rw (read_word-field attr value ha, read_attr)
                (rw (read_word-last value hv, read_value) (rw (read_word-nil, read_end) refl)))))))
