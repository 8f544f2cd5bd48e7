-- ===== src/Agents/Audio/Commands.antt =====
-- Which commands the audio agent hands to the shell.
use khazar_os.Common.{◌≤◌, ◌≡◌, ◌⊎◌, true, [], ◌++◌, length}
use khazar_os.CString.{Bytes, lit}
use khazar_os.Common.{All}
use khazar_os.Agents.Audio.{is_digit, percent_volume, after_word}

-- The volume command with a text of 1 to 7 bytes.
abbrev pub IsVolume : (Bytes → Type 0) → Bytes → Type 0
IsVolume P cmd =
    (volume : Bytes) × P volume
    × (1 ≤ length volume)
    × (length volume ≤ 7)
    × (cmd ≡ lit "pactl set-sink-volume @DEFAULT_SINK@ " ++ (volume ++ lit "%"))

abbrev pub IsMixer : (Bytes → Type 0) → Bytes → Type 0
IsMixer P cmd =
    (cmd ≡ lit "pactl set-sink-volume @DEFAULT_SINK@ +5%")
    ⊎ ((cmd ≡ lit "pactl set-sink-volume @DEFAULT_SINK@ -5%")
        ⊎ ((cmd ≡ lit "pactl set-sink-mute @DEFAULT_SINK@ toggle")
            ⊎ ((cmd ≡ lit "pactl list sinks | grep Volume") ⊎ IsVolume P cmd)))

-- The text consists of digits.
abbrev pub Digits : Bytes → Type 0
Digits = All (λ c. is_digit c ≡ true)

-- The part in front of the '%', or up to 7 bytes of what stands behind the word for setting.
abbrev pub IsPart : Bytes → Bytes → Type 0
IsPart query volume = Digits volume ⊎ ((percent_volume query ≡ []) × (volume ≡ after_word query))
