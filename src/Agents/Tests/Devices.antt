-- ===== src/Agents/Tests/Devices.antt =====
-- The agents for power, sound, the network and the desktop at concrete queries.
use khazar_os.Common.{◌≡◌, refl, true, false, none, some, if◌then◌else◌}
use khazar_os.CString.{Bytes, lit, str_eq, strstr, is_some, contains}
use khazar_os.Agents.PackageManager.{Ran, exited, signalled, run_command}
use khazar_os.Agents.Task.{any_word}
use khazar_os.Agents.Task.Outcome.{Agrees}
use khazar_os.Agents.Power
use khazar_os.Agents.Power.Commands.{chosen, carry_out-Agrees, carry_out-logout}
use khazar_os.Agents.Network
use khazar_os.Agents.Network.Commands.{handle_client-IsCommand, carry_out-disconnect}
use khazar_os.Agents.Network.Commands as NetworkCommands
use khazar_os.Agents.Audio
use khazar_os.Agents.Desktop
use khazar_os.Agents.Desktop.{Host}
use khazar_os.Agents.Desktop.Launch.{carry_out-in_front}

all_well : Bytes → Ran
all_well cmd = exited 0

carry_out-Agrees_test :
    Agrees all_well
      (Power.carry_out all_well (lit "sistemi uyku moduna al"))
      (chosen (lit "sistemi uyku moduna al"))
carry_out-Agrees_test = carry_out-Agrees all_well (lit "sistemi uyku moduna al")

uyku_test : chosen (lit "sistemi uyku moduna al") ≡ some (lit "systemctl suspend")
unfolding any_word is_some strstr
uyku_test = refl

carry_out-logout_example :
    Agrees all_well (Power.carry_out all_well (lit "oturumu kapat")) (
      if contains (lit "oturumu kapat") (lit "wifi") then none else some (lit "systemctl poweroff"))
unfolding is_some strstr
carry_out-logout_example = carry_out-logout all_well (lit "oturumu kapat") refl

abbrev killed : Bytes → Ran
killed cmd = signalled

-- A command that a signal ends is reported as a success.
killed_test : (Power.carry_out killed (lit "suspend")).success ≡ true
unfolding Power.carry_out is_some strstr run_command
killed_test = refl

-- "unlock" and "block" hold "lock".
unlock_test :
    (Power.carry_out all_well (lit "unlock the door")).command ≡ some (lit "loginctl lock-session")
unfolding Power.carry_out is_some strstr all_well
unlock_test = refl

abbrev joining : Bytes
joining = lit "{\"id\":4,\"query\":\"connect  home net \"}"

handle_client-IsCommand_example :
    NetworkCommands.IsCommand (lit "nmcli device wifi connect \"home net\"")
unfolding Network.handle_client str_eq run_command all_well
handle_client-IsCommand_example =
    handle_client-IsCommand all_well joining (lit "nmcli device wifi connect \"home net\"") refl

-- The shell looks for commands inside double quotes too.
shell_text_test :
    (Network.carry_out all_well (lit "connect $(reboot)")).command
    ≡ some (lit "nmcli device wifi connect \"$(reboot)\"")
unfolding Network.carry_out is_some strstr str_eq run_command all_well
shell_text_test = refl

carry_out-disconnect_test :
    (Network.carry_out all_well (lit "disconnect home")).command
    ≡ Network.connect_cmd (Network.ssid_of (lit "disconnect home"))
unfolding is_some strstr any_word
carry_out-disconnect_test = carry_out-disconnect all_well (lit "disconnect home") refl refl refl

-- "ac" stands in "mac".
wifi_mac_test :
    (Network.carry_out all_well (lit "wifi kapat, mac")).command ≡ some (lit "nmcli radio wifi on")
unfolding Network.carry_out is_some strstr str_eq run_command all_well
wifi_mac_test = refl

-- Seven bytes are enough for a command of their own.
volume_text_test :
    (Audio.carry_out all_well (lit "volume set ;halt #")).command
    ≡ some (lit "pactl set-sink-volume @DEFAULT_SINK@ ;halt #%")
unfolding Audio.carry_out is_some all_well
volume_text_test = refl

abbrev desk : Host
desk = record {
  access = λ path. str_eq path (lit "/usr/bin/firefox");
  printed = λ cmd. none;
  forks = true;
  executes = λ path. true;
}

-- A directory that may be entered passes `access`, and `execl` fails for it.
abbrev directory : Host
directory = record desk {
  access = λ path. str_eq path (lit "/usr/bin/..");
  executes = λ path. false;
}

directory_test :
    ((Desktop.carry_out directory (lit "open ..")).0.success ≡ true)
    × ((Desktop.carry_out directory (lit "open ..")).1 ≡ none)
unfolding Desktop.carry_out str_eq
directory_test = (refl, refl)

firefox_test : (Desktop.carry_out desk (lit "firefox aç")).1 ≡ some (lit "/usr/bin/firefox")
unfolding Desktop.carry_out str_eq
firefox_test = refl

carry_out-in_front_test : (Desktop.carry_out desk (lit "aç firefox")).1 ≡ none
unfolding Desktop.ac_pos is_some Desktop.has_blank
carry_out-in_front_test =
    carry_out-in_front desk (lit "aç firefox") (lit "aç firefox") refl refl refl

-- Nothing is closed.
close_test :
    ((Desktop.carry_out desk (lit "close firefox")).0.success ≡ true)
    × ((Desktop.carry_out desk (lit "close firefox")).1 ≡ none)
unfolding Desktop.carry_out Desktop.acknowledge
close_test = (refl, refl)
