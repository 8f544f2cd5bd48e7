-- ===== src/Agents/Audio.antt =====
-- The audio agent: khazar/agents/audio-agent/main.c, what it does with one message. `system` is a
-- parameter: how the command ends.
pub mod Commands
use khazar_os.Common.{
  ℕ, zero, suc, ◌+◌, ◌-◌, ◌*◌, ◌/◌, ◌%◌, ◌^◌, ◌≤◌, ◌<◌, ◌≡◌, refl, sym, ap, ◌∙◌, ◌≢◌, ◌↔◌, ◌⊎◌, inl,
  inr, Bool, true, false, not, ◌&&◌, ◌||◌, Option, none, some, List, [], ◌∷◌, ◌++◌, map, arith, leb,
  ltb, ◌==◌, if◌then◌else◌, length, take, drop, get_or, get_elem?, set, ℤ, pos, negsuc, ltb_ℤ,
  pos_part, neg_part, sub_ℕ, ◌+ℤ◌, ◌≤ℤ◌, ◌<ℤ◌, ◌>>=◌, Bool-cases, Option-cases, length-append,
  length-set, replicate, ltb→lt, lt→ltb,
}
use khazar_os.CString.{
  Bytes, lit, str_eq, strncpy, has_prefix, strstr, is_some, contains, strchr, tolower, isspace,
  skip_spaces,
}
use khazar_os.Agents.PackageManager.{Ran, run_command}
use khazar_os.Agents.Daemon
use khazar_os.Agents.Daemon.{Identity, Link, Turn}
use khazar_os.Agents.Task.{Done, unknown_command, any_word, report, answer}

abbrev pub up_words : List Bytes
up_words = lit "up" ∷ lit "arttir" ∷ lit "arttır" ∷ lit "yukari" ∷ lit "yukarı" ∷ lit "aç" ∷ []

abbrev pub down_words : List Bytes
down_words = lit "down" ∷ lit "azalt" ∷ lit "asagi" ∷ lit "aşağı" ∷ lit "kis" ∷ lit "kıs" ∷ []

abbrev pub set_words : List Bytes
set_words = lit "set" ∷ lit "ayarla" ∷ lit "%" ∷ []

abbrev pub mute_words : List Bytes
mute_words = lit "mute" ∷ lit "sessiz" ∷ lit "sesi kapat" ∷ []

abbrev pub status_words : List Bytes
status_words = lit "status" ∷ lit "durum" ∷ []

unfoldable pub is_digit : ℕ → Bool
is_digit c = leb b'0' c && leb c b'9'

-- The longest run of digits that ends before the first '%', `run` being the run so far.
unfoldable pub digits_before : Bytes → Bytes → Bytes
unfolding is_digit
digits_before run [] = []
digits_before run (c ∷ s) =
    let more : Bytes = digits_before (if is_digit c then run ++ c ∷ [] else []) s in
    if c == b'%' then run else more

-- The part in front of the '%'.
unfoldable pub percent_volume : Bytes → Bytes
unfolding digits_before
percent_volume query = strncpy 7 (digits_before [] query)

-- What stands behind "set " or, where that does not occur, behind "ayarla ".
unfoldable pub after_word : Bytes → Bytes
unfolding skip_spaces strstr
after_word query = elim (strstr query (lit "set ")) [
  | some p ↦ strncpy 7 (skip_spaces (drop 4 p))
  | none ↦ elim (strstr query (lit "ayarla ")) [
    | some p ↦ strncpy 7 (skip_spaces (drop 7 p))
    | none ↦ []
  ]
]

or_else : Bytes → Bytes → Bytes
or_else [] other = other
or_else (c ∷ s) other = c ∷ s

unfoldable pub volume_of : Bytes → Bytes
unfolding or_else percent_volume after_word
volume_of query = or_else (percent_volume query) (after_word query)

-- snprintf(cmd, sizeof(cmd), "pactl set-sink-volume @DEFAULT_SINK@ %s%%", volume)
unfoldable pub volume_cmd : Bytes → Bytes
volume_cmd volume = strncpy 511 (lit "pactl set-sink-volume @DEFAULT_SINK@ " ++ (volume ++ lit "%"))

unfoldable pub on_set : (Bytes → Ran) → Bytes → Done
unfolding volume_cmd report run_command
on_set system [] = unknown_command
on_set system (c ∷ volume) =
    report (lit "volume set to " ++ ((c ∷ volume) ++ lit "%")) (lit "failed to set volume")
      (some (volume_cmd (c ∷ volume)), run_command (system (volume_cmd (c ∷ volume))))

-- From the query to the reply's parts.
unfoldable pub carry_out : (Bytes → Ran) → Bytes → Done
unfolding any_word report run_command on_set volume_of
carry_out system query =
    let run : Bytes → Bytes → Bytes → Done =
      λ cmd done failed. report done failed (some cmd, run_command (system cmd)) in
    if contains query (lit "volume") && any_word up_words query
    then run (lit "pactl set-sink-volume @DEFAULT_SINK@ +5%") (lit "volume increased")
        (lit "failed to change volume")
    else if contains query (lit "volume") && any_word down_words query
    then run (lit "pactl set-sink-volume @DEFAULT_SINK@ -5%") (lit "volume decreased")
        (lit "failed to change volume")
    else if contains query (lit "volume") && any_word set_words query
    then on_set system (volume_of query)
    else if any_word mute_words query
    then run (lit "pactl set-sink-mute @DEFAULT_SINK@ toggle") (lit "mute toggled")
        (lit "failed to toggle mute")
    else if any_word status_words query
    then record {
      success = true;
      message = lit "audio status queried";
      command = some (lit "pactl list sinks | grep Volume");
    }
    else unknown_command

-- The bytes sent, and the command that was run.
unfoldable pub handle_client : (Bytes → Ran) → Bytes → Bytes × Option Bytes
unfolding carry_out answer
handle_client system = answer (carry_out system)

abbrev pub identity : Identity
identity = record {
  name = lit "audio-agent";
  version = lit "0.1.0";
  socket = lit "/run/ai-audio-agent.sock";
  capabilities = lit "audio_control" ∷ [];
}

-- A round of the main loop.
unfoldable pub main_round :
    (Bytes → Ran) → Link → Turn → Link × Option (Bytes × Option Bytes) × List Bytes
unfolding handle_client
main_round system = Daemon.main_round (handle_client system) identity
